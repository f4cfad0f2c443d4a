-- ===== src/Lk/Partition/Gpt/Ends.antt =====
-- The loop over the blocks of entries ends, within the array.
use android4_4_4_r.Prelude.{
  ℕ, zero, suc, ◌+◌, ◌*◌, ◌/◌, ◌%◌, ◌^◌, ◌≤◌, ◌<◌, ◌≡◌, ◌∙◌, subst, refl, arith, List, length-set,
  get_or, set, Bool, Bool-cases, ◌⊎◌, inl, inr, true, false, ◌&&◌, Option, some, ltb, ◌==◌,
  if◌then◌else◌,
}
use android4_4_4_r.Lk.Bytes.{slice}
use android4_4_4_r.Lk.Partition.{
  PartitionEntry, num_partitions, block_size, Table, Card, last_entry, add_entry,
}
use android4_4_4_r.Lk.Partition.Mbr.{IsTable, Answer-cases}
use android4_4_4_r.Lk.Partition.Gpt.{
  Header, Outcome, returned, panicked, strayed, gpt_entry, Block, more, ended, outside, gpt_block,
  gpt_loop,
}

-- What a block leaves, where `n` entries of it were left to read.
IsRead : ℕ → Table → Block → Type 0
IsRead n t (more t') = IsTable t' × (t'.partition_count ≡ t.partition_count + n)
IsRead n t (ended t') = IsTable t'
IsRead n t outside = Unit

IsRead-next :
    (n : ℕ) (t t' : Table) (b : Block)
    → t'.partition_count ≡ t.partition_count + 1
    → IsRead n t' b
    → IsRead (suc n) t b
unfolding IsRead
IsRead-next n t t' (more u) e h = (h.0, omega (arith, h.1, e))
IsRead-next n t t' (ended u) e h = h
IsRead-next n t t' outside e h = h

either-IsRead :
    (c : Bool) (n : ℕ) (t : Table) (x y : Block)
    → IsRead n t x
    → IsRead n t y
    → IsRead n t (if c then x else y)
either-IsRead true n t x y h k = h
either-IsRead false n t x y h k = k

set-IsTable :
    (e : PartitionEntry) (i n : ℕ) (t : Table)
    → n ≤ 32
    → IsTable t
    → IsTable (record t { partition_entries = set t.partition_entries i e; partition_count = n })
set-IsTable e i n t l h = record {
  slots = length-set t.partition_entries i e ∙ h.slots;
  counted = l;
  ext3 = h.ext3;
  vfat = h.vfat;
}

gpt_block-IsRead :
    (n j entry_size : ℕ) (b : List ℕ) (t : Table)
    → t.partition_count + n ≤ 32
    → IsTable t
    → IsRead n t (gpt_block n j entry_size b t)
unfolding gpt_block IsRead
gpt_block-IsRead zero j entry_size b t l h = (h, omega arith)
gpt_block-IsRead (suc n) j entry_size b t l h =
    let off = j * entry_size % 2 ^ 32 in
    let e = last_entry t in
    let t' = add_entry (gpt_entry off b e) t in
    let h' =
      set-IsTable (gpt_entry off b e) t.partition_count (t.partition_count + 1) t (omega (arith, l))
        h in
    let rest = gpt_block-IsRead n (j + 1) entry_size b t' (omega (arith, l)) h' in
    let typed =
      set-IsTable (record e { type_guid = slice 16 off b }) t.partition_count t.partition_count t
        (omega (arith, l)) h in
    either-IsRead (ltb 512 (off + 16)) (suc n) t outside _ tt (
      either-IsRead (get_or b off 0 == 0 && get_or b (off + 1) 0 == 0) (suc n) t (ended _) _ typed (
        either-IsRead (ltb 512 (off + 128)) (suc n) t outside _ tt
          (IsRead-next n t t' (gpt_block n (j + 1) entry_size b t') refl rest)))

Block-cases :
    (b : Block) → ((t : Table) × (b ≡ more t)) ⊎ (((t : Table) × (b ≡ ended t)) ⊎ (b ≡ outside))
Block-cases (more t) = inl (t, refl)
Block-cases (ended t) = inr (inl (t, refl))
Block-cases outside = inr (inr refl)

-- What is returned is a table.
abbrev pub IsSafe : Outcome → Type 0
IsSafe (returned t r) = IsTable t
IsSafe panicked = Unit
IsSafe strayed = Unit

abbrev pub Ends : Option Outcome → Type 0
Ends o = (r : Outcome) × (o ≡ some r) × IsSafe r

pub gpt_loop-last :
    (f : ℕ) (card : Card) (h : Header) (partition_0 i : ℕ) (t : Table)
    → ltb i (h.max_partition_count / 4) ≡ false
    → gpt_loop (suc f) card h partition_0 i t ≡ some (returned t 0)
unfolding gpt_loop
gpt_loop-last f card h partition_0 i t e = rw (gpt_loop, e) refl

pub beyond : (max : ℕ) → max + 1 < 2 ^ 32 → ltb ((max + 1) % 2 ^ 32) (max / 4) ≡ false
beyond max m = ground arith

-- After the end of the table no block is read.
ended-Ends :
    (f : ℕ) (card : Card) (h : Header) (partition_0 : ℕ) (t : Table)
    → h.max_partition_count + 1 < 2 ^ 32
    → 0 < f
    → IsTable t
    → Ends (gpt_loop f card h partition_0 ((h.max_partition_count + 1) % 2 ^ 32) t)
ended-Ends zero card h partition_0 t m l s = absurd (omega (arith, l))
ended-Ends (suc f) card h partition_0 t m l s =
    let past = beyond h.max_partition_count m in
    let i = (h.max_partition_count + 1) % 2 ^ 32 in
    (returned t 0, gpt_loop-last f card h partition_0 i t past, s)

pub gpt_loop-Ends :
    (f : ℕ) (card : Card) (h : Header) (partition_0 i k : ℕ) (t : Table)
    → h.max_partition_count + 1 < 2 ^ 32
    → t.partition_count ≡ 4 * k
    → 36 ≤ 4 * f + t.partition_count
    → IsTable t
    → Ends (gpt_loop f card h partition_0 i t)
unfolding gpt_loop IsRead
gpt_loop-Ends zero card h partition_0 i k t m c l s = absurd (omega (arith, l, s.counted))
gpt_loop-Ends (suc f) card h partition_0 i k t m c l s =
    let max = h.max_partition_count in
    let at = (partition_0 * block_size % 2 ^ 64 + i * block_size % 2 ^ 32) % 2 ^ 64 in
    elim (Bool-cases (ltb i (max / 4))) [
      | inr done ↦ (returned t 0, gpt_loop-last f card h partition_0 i t done, s)
      | inl go ↦ elim (Bool-cases (ltb t.partition_count num_partitions)) [
        | inr full ↦ (panicked, rw (gpt_loop, go) (rw full refl), tt)
        | inl free ↦ elim (Answer-cases (card at)) [
          | inl (e, q) ↦ (returned t e, rw (gpt_loop, go) (rw free (rw q refl)), s)
          | inr (b, q) ↦
              let size = h.partition_entry_size in
              let fits : t.partition_count + 4 ≤ 32 = ground (arith, free, c) in
              let read = gpt_block-IsRead 4 0 size b t fits s in
              elim (Block-cases (gpt_block 4 0 size b t)) [
                | inl (t', e) ↦
                    let (s', n) = subst (IsRead 4 t) e read in
                    let (r, eq, safe) =
                      gpt_loop-Ends f card h partition_0 ((i + 1) % 2 ^ 32) (k + 1) t' m
                        (omega (arith, n, c)) (omega (arith, n, l)) s' in
                    (r, rw (gpt_loop, go) (rw free (rw q (rw e eq))), safe)
                | inr (inl (t', e)) ↦
                    let s' = subst (IsRead 4 t) e read in
                    let spare : 0 < f = omega (arith, l, fits) in
                    let (r, eq, safe) = ended-Ends f card h partition_0 t' m spare s' in
                    (r, rw (gpt_loop, go) (rw free (rw q (rw e eq))), safe)
                | inr (inr e) ↦ (strayed, rw (gpt_loop, go) (rw free (rw q (rw e refl))), tt)
              ]
        ]
      ]
    ]
