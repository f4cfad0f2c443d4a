-- ===== src/Lk/Partition/Gpt/Readback.antt =====
-- A GUID partition table that stands on a card is read back.
use android4_4_4_r.Prelude.{
  ℕ, zero, suc, ◌+◌, ◌-◌, ◌*◌, ◌/◌, ◌%◌, ◌^◌, ◌<◌, ◌≡◌, ◌∙◌, ap, refl, arith, List, [], ◌∷◌, length,
  take, All, true, some, ltb, lt→ltb,
}
use android4_4_4_r.Lk.Bytes.{get_llword}
use android4_4_4_r.Lk.Partition.{num_partitions, Table, Card, block, last_entry, add_entry}
use android4_4_4_r.Lk.Partition.Gpt.{
  Header, returned, more, ended, gpt_block, gpt_loop, partition_parse_gpt_header, from_header,
  mmc_boot_read_gpt,
}
use android4_4_4_r.Lk.Partition.Gpt.Ends.{gpt_loop-last, beyond}
use android4_4_4_r.Lk.Partition.Gpt.Written.{GptEntry, decoded}
use android4_4_4_r.Lk.Partition.Gpt.Array.{
  IsUsed, encode_all, with_entries, with_type, gpt_block-entries, gpt_block-end,
}

-- the byte address of the `i`-th block of entries
abbrev pub block_address : ℕ → ℕ → ℕ
block_address partition_0 i = (partition_0 * 512 % 2 ^ 64 + i * 512 % 2 ^ 32) % 2 ^ 64

-- From the `i`-th block on stand blocks of four entries in use, and then one of the entries `es`,
-- fewer than four, an entry without a type and any other bytes.
abbrev pub IsArray : Card → ℕ → ℕ → List (List GptEntry) → List GptEntry → List ℕ → Type 0
IsArray card partition_0 i [] es z =
    (length es < 4)
    × All IsUsed es
    × (card (block_address partition_0 i) ≡ block (encode_all es (0 ∷ 0 ∷ z)))
IsArray card partition_0 i (b ∷ bs) es z =
    (length b ≡ 4)
    × All IsUsed b
    × (card (block_address partition_0 i) ≡ block (encode_all b []))
    × IsArray card partition_0 (i + 1) bs es z

abbrev pub with_blocks : List (List GptEntry) → Table → Table
with_blocks [] t = t
with_blocks (b ∷ bs) t = with_blocks bs (with_entries b t)

count-with_entries :
    (es : List GptEntry) (t : Table)
    → (with_entries es t).partition_count ≡ t.partition_count + length es
count-with_entries [] t = omega arith
count-with_entries (e ∷ es) t =
    count-with_entries es (add_entry (decoded e (last_entry t)) t) ∙ omega arith

full_block :
    (b : List GptEntry) (t : Table)
    → length b ≡ 4
    → All IsUsed b
    → gpt_block 4 0 128 (encode_all b []) t ≡ more (with_entries b t)
unfolding gpt_block
full_block b t l u =
    let (x, lx, same, eq) =
      gpt_block-entries b 4 0 0 [] [] t (omega (arith, l)) refl (omega (arith, l)) u in
    eq

last_block :
    (es : List GptEntry) (z : List ℕ) (t : Table)
    → length es < 4
    → All IsUsed es
    → gpt_block 4 0 128 (encode_all es (0 ∷ 0 ∷ z)) t
      ≡ ended (with_type (0 ∷ 0 ∷ take 14 z) (with_entries es t))
last_block es z t l u =
    let n = 3 - length es in
    let (x, lx, same, eq) =
      gpt_block-entries es 4 (suc n) 0 [] (0 ∷ 0 ∷ z) t (omega (arith, l)) refl (omega (arith, l))
        u in
    eq ∙ gpt_block-end n (0 + length es) x z (with_entries es t) lx (omega (arith, l))

-- The blocks of a table are read as they are written, one behind the other, and the reading ends at
-- the entry without a type.
gpt_loop-IsArray :
    (f : ℕ) (card : Card) (h : Header) (partition_0 i : ℕ) (bs : List (List GptEntry))
    (es : List GptEntry) (z : List ℕ) (t : Table)
    → h.partition_entry_size ≡ 128
    → h.max_partition_count + 1 < 2 ^ 32
    → i + length bs < h.max_partition_count / 4
    → t.partition_count + 4 * length bs < 32
    → length bs + 1 < f
    → IsArray card partition_0 i bs es z
    → gpt_loop f card h partition_0 i t
      ≡ some (returned (with_type (0 ∷ 0 ∷ take 14 z) (with_entries es (with_blocks bs t))) 0)
unfolding gpt_loop
gpt_loop-IsArray zero card h p i bs es z t s m l c e a = absurd (omega (arith, e))
gpt_loop-IsArray (suc zero) card h p i bs es z t s m l c e a = absurd (omega (arith, e))
gpt_loop-IsArray (suc (suc f)) card h p i [] es z t s m l c e (few, u, q) =
    let go : ltb i (h.max_partition_count / 4) ≡ true = lt→ltb i _ (omega (arith, l)) in
    let free : ltb t.partition_count num_partitions ≡ true =
      lt→ltb t.partition_count 32 (omega (arith, c)) in
    let t' = with_type (0 ∷ 0 ∷ take 14 z) (with_entries es t) in
    let read : gpt_block 4 0 h.partition_entry_size (encode_all es (0 ∷ 0 ∷ z)) t ≡ ended t' =
      ap (λ s. gpt_block 4 0 s (encode_all es (0 ∷ 0 ∷ z)) t) s ∙ last_block es z t few u in
    rw (gpt_loop, go)
      (rw free (
        rw q (
          rw (read) (
            gpt_loop-last f card h p ((h.max_partition_count + 1) % 2 ^ 32) t'
              (beyond h.max_partition_count m)))))
gpt_loop-IsArray (suc (suc f)) card h p i (b ∷ bs) es z t s m l c e (four, u, q, a) =
    let go : ltb i (h.max_partition_count / 4) ≡ true = lt→ltb i _ (omega (arith, l)) in
    let free : ltb t.partition_count num_partitions ≡ true =
      lt→ltb t.partition_count 32 (omega (arith, c)) in
    let t' = with_entries b t in
    let read : gpt_block 4 0 h.partition_entry_size (encode_all b []) t ≡ more t' =
      ap (λ s. gpt_block 4 0 s (encode_all b []) t) s ∙ full_block b t four u in
    let count = count-with_entries b t in
    let rest =
      gpt_loop-IsArray (suc f) card h p (i + 1) bs es z t' s m (omega (arith, l))
        (omega (arith, count, four, c)) (omega (arith, e)) a in
    rw (gpt_loop, go)
      (rw free
        (rw q (rw (read) (ap (λ i. gpt_loop (suc f) card h p i t') (omega (arith, l)) ∙ rest))))

-- A GUID partition table with a valid primary header is read back: from a header that says entries
-- of 128 bytes and enough of them, but not 2^32 - 1, and from where it points to at most seven full
-- blocks of entries in use, and a block of at most three more with an entry without a type behind
-- them, `mmc_boot_read_gpt` returns 0 and leaves these entries, in their order, and only the type of
-- the entry behind them in the array besides.
pub mmc_boot_read_gpt-IsArray :
    (card : Card) (capacity : ℕ) (garbage header : List ℕ) (h : Header) (bs : List (List GptEntry))
    (es : List GptEntry) (z : List ℕ) (t : Table)
    → card 512 ≡ block header
    → partition_parse_gpt_header header ≡ some h
    → h.partition_entry_size ≡ 128
    → h.max_partition_count + 1 < 2 ^ 32
    → length bs < h.max_partition_count / 4
    → length bs < 8
    → IsArray card (get_llword 72 header) 0 bs es z
    → let t' = with_entries es (with_blocks bs (record t { partition_count = 0 })) in
      mmc_boot_read_gpt card capacity garbage t
      ≡ some (returned (with_type (0 ∷ 0 ∷ take 14 z) t') 0)
unfolding mmc_boot_read_gpt
mmc_boot_read_gpt-IsArray card capacity garbage header h bs es z t q valid s m l few a =
    let p = get_llword 72 header in
    rw q (
      rw (from_header, valid)
        (gpt_loop-IsArray 10 card h p 0 bs es z (record t { partition_count = 0 }) s m
          (omega (arith, l)) (omega (arith, few)) (omega (arith, few)) a))
