-- ===== src/Lk/Partition/Gpt/Array.antt =====
-- The array of entries of a GUID partition table as it is written, and read back.
use android4_4_4_r.Prelude.{
  ℕ, zero, suc, ◌+◌, ◌*◌, ◌%◌, ◌^◌, ◌≤◌, ◌<◌, ◌≡◌, ◌∙◌, ap, sym, refl, arith, List, [], ◌∷◌, ◌++◌,
  length, length-append, get_or, set, take, All, false, ◌&&◌, ltb, ◌==◌,
}
use mathlib.Core.List.{append_assoc}
use android4_4_4_r.Lk.Bytes.{slice, bytes_of, length-bytes_of, drop-append}
use android4_4_4_r.Lk.Partition.{Table, last_entry, add_entry}
use android4_4_4_r.Lk.Partition.Gpt.{gpt_entry, ended, gpt_block}
use android4_4_4_r.Lk.Partition.Gpt.Written.{GptEntry, IsEntry, encode, decoded, gpt_entry-encode}

-- The type of an entry in use does not begin with two zeros.
abbrev pub IsUsed : GptEntry → Type 0
IsUsed e = IsEntry e × ((get_or e.type_guid 0 0 == 0 && get_or e.type_guid 1 0 == 0) ≡ false)

-- the bytes of entries one behind the other, and what stands behind them
abbrev pub encode_all : List GptEntry → List ℕ → List ℕ
encode_all [] y = y
encode_all (e ∷ es) y = encode e (encode_all es y)

-- the table with entries added
abbrev pub with_entries : List GptEntry → Table → Table
with_entries [] t = t
with_entries (e ∷ es) t = with_entries es (add_entry (decoded e (last_entry t)) t)

get_or-append : (x y : List ℕ) (i n : ℕ) → n ≡ length x + i → get_or (x ++ y) n 0 ≡ get_or y i 0
get_or-append [] y i n e = ap (λ n. get_or y n 0) (omega (arith, e))
get_or-append (c ∷ x) y i zero e = absurd (omega (arith, e))
get_or-append (c ∷ x) y i (suc n) e = get_or-append x y i n (omega (arith, e))

get_or-front : (x y : List ℕ) (i : ℕ) → i < length x → get_or (x ++ y) i 0 ≡ get_or x i 0
get_or-front [] y i l = absurd (omega (arith, l))
get_or-front (c ∷ x) y zero l = refl
get_or-front (c ∷ x) y (suc i) l = get_or-front x y i (omega (arith, l))

-- The test for the end of the table finds an entry in use.
used_at :
    (x y : List ℕ) (e : GptEntry) (off : ℕ)
    → off ≡ length x
    → IsUsed e
    → let b = x ++ encode e y in (get_or b off 0 == 0 && get_or b (off + 1) 0 == 0) ≡ false
used_at x y e off l (h, u) =
    let z = encode e y in
    let first : get_or (x ++ z) off 0 ≡ get_or e.type_guid 0 0 =
      get_or-append x z 0 off (omega (arith, l))
      ∙ get_or-front e.type_guid _ 0 (omega (arith, h.type_guid)) in
    let second : get_or (x ++ z) (off + 1) 0 ≡ get_or e.type_guid 1 0 =
      get_or-append x z 1 (off + 1) (omega (arith, l))
      ∙ get_or-front e.type_guid _ 1 (omega (arith, h.type_guid)) in
    rw (first, second) u

in_block : (j n : ℕ) → j < 4 → n ≤ 128 → ltb 512 (j * 128 % 2 ^ 32 + n) ≡ false
in_block j n l k = ground arith

gpt_block-step :
    (n j : ℕ) (x y : List ℕ) (e : GptEntry) (t : Table)
    → length x ≡ j * 128
    → j < 4
    → IsUsed e
    → gpt_block (suc n) j 128 (x ++ encode e y) t
      ≡ gpt_block n (j + 1) 128 (x ++ encode e y) (add_entry (decoded e (last_entry t)) t)
unfolding gpt_block
gpt_block-step n j x y e t l k u =
    let b = x ++ encode e y in
    let off : j * 128 % 2 ^ 32 ≡ length x = omega (arith, l, k) in
    let here = used_at x y e (j * 128 % 2 ^ 32) off u in
    let entry : gpt_entry (j * 128 % 2 ^ 32) b (last_entry t) ≡ decoded e (last_entry t) =
      ap (λ o. gpt_entry o b (last_entry t)) off ∙ gpt_entry-encode x y e (last_entry t) u.0 in
    rw (gpt_block, in_block j 16 k (omega arith))
      (rw here (
        rw (in_block j 128 k (omega arith))
          (ap (λ r. gpt_block n (j + 1) 128 b (add_entry r t)) entry)))

encode-append : (e : GptEntry) (y : List ℕ) → encode e y ≡ encode e [] ++ y
encode-append e y = simp append_assoc

length-encode : (e : GptEntry) → IsEntry e → length (encode e []) ≡ 128
length-encode e h =
    let attr = bytes_of 8 e.attribute_flag ++ (e.name ++ []) in
    let last = bytes_of 8 e.last_lba ++ attr in
    let first = bytes_of 8 e.first_lba ++ last in
    omega (
      arith,
      length-append e.type_guid (e.unique_partition_guid ++ first),
      length-append e.unique_partition_guid first,
      length-append (bytes_of 8 e.first_lba) last,
      length-append (bytes_of 8 e.last_lba) attr,
      length-append (bytes_of 8 e.attribute_flag) (e.name ++ []),
      length-append e.name [],
      length-bytes_of 8 e.first_lba,
      length-bytes_of 8 e.last_lba,
      length-bytes_of 8 e.attribute_flag,
      h.type_guid,
      h.unique_partition_guid,
      h.name,
    )

cut_behind : (x y : List ℕ) (e : GptEntry) → x ++ encode e y ≡ (x ++ encode e []) ++ y
cut_behind x y e = ap (λ z. x ++ z) (encode-append e y) ∙ sym (append_assoc x (encode e []) y)

pub gpt_block-entries :
    (es : List GptEntry) (m n j : ℕ) (x y : List ℕ) (t : Table)
    → m ≡ length es + n
    → length x ≡ j * 128
    → j + length es ≤ 4
    → All IsUsed es
    → (x' : List ℕ) × (length x' ≡ (j + length es) * 128)
      × (x ++ encode_all es y ≡ x' ++ y)
      × (gpt_block m j 128 (x ++ encode_all es y) t
          ≡ gpt_block n (j + length es) 128 (x' ++ y) (with_entries es t))
gpt_block-entries [] m n j x y t s l k u = (
  x,
  omega (arith, l),
  refl,
  ap (λ m. gpt_block m j 128 (x ++ y) t) (omega (arith, s))
      ∙ ap (λ j. gpt_block n j 128 (x ++ y) t) (omega arith),
)
gpt_block-entries (e ∷ es) zero n j x y t s l k u = absurd (omega (arith, s))
gpt_block-entries (e ∷ es) (suc m) n j x y t s l k (u, us) =
    let x1 = x ++ encode e [] in
    let y1 = encode_all es y in
    let t1 = add_entry (decoded e (last_entry t)) t in
    let l1 : length x1 ≡ (j + 1) * 128 =
      omega (arith, length-append x (encode e []), length-encode e u.0, l) in
    let same = cut_behind x y1 e in
    let (x', l', same', eq) =
      gpt_block-entries es m n (j + 1) x1 y t1 (omega (arith, s)) l1 (omega (arith, k)) us in
    (
      x',
      omega (arith, l'),
      same ∙ same',
      gpt_block-step m j x y1 e t l (omega (arith, k)) u
          ∙ ap (λ b. gpt_block m (j + 1) 128 b t1) same
          ∙ eq
          ∙ ap (λ j. gpt_block n j 128 (x' ++ y) (with_entries es t1)) (omega arith),
    )

-- the last entry, whose type has been copied
abbrev pub with_type : List ℕ → Table → Table
with_type g t = record t {
  partition_entries =
      set t.partition_entries t.partition_count (record (last_entry t) { type_guid = g });
}

pub gpt_block-end :
    (n j : ℕ) (x z : List ℕ) (t : Table)
    → length x ≡ j * 128
    → j < 4
    → gpt_block (suc n) j 128 (x ++ 0 ∷ 0 ∷ z) t ≡ ended (with_type (0 ∷ 0 ∷ take 14 z) t)
unfolding gpt_block
gpt_block-end n j x z t l k =
    let y = 0 ∷ 0 ∷ z in
    let off : j * 128 % 2 ^ 32 ≡ length x = omega (arith, l, k) in
    let first = get_or-append x y 0 (j * 128 % 2 ^ 32) (omega (arith, off)) in
    let second = get_or-append x y 1 (j * 128 % 2 ^ 32 + 1) (omega (arith, off)) in
    let type : slice 16 (j * 128 % 2 ^ 32) (x ++ y) ≡ 0 ∷ 0 ∷ take 14 z =
      ap (take 16) (drop-append x y 0 (j * 128 % 2 ^ 32) (omega (arith, off))) in
    rw (gpt_block, in_block j 16 k (omega arith))
      (rw (first, second) (ap (λ g. ended (with_type g t)) type))
