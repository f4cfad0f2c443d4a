-- ===== src/Lk/Partition/Gpt/Written.antt =====
-- The entries of a GUID partition table as they are written, and read back.
use android4_4_4_r.Prelude.{
  ℕ, ◌+◌, ◌-◌, ◌%◌, ◌^◌, ◌<◌, ◌≡◌, ◌∙◌, ap, sym, refl, arith, List, ◌++◌, length, length-append,
  drop,
}
use mathlib.Core.List.{append_assoc}
use android4_4_4_r.Lk.Bytes.{
  slice, word_of, get_llword, bytes_of, length-bytes_of, word_of-bytes_of_8, slice-append,
}
use android4_4_4_r.Lk.Partition.{PartitionEntry}
use android4_4_4_r.Lk.Partition.Gpt.{narrow, gpt_entry}

-- an entry as it stands on the card; the name has 36 characters of two bytes
pub record GptEntry : Type 0 where
  pub type_guid : List ℕ
  pub unique_partition_guid : List ℕ
  pub first_lba : ℕ
  pub last_lba : ℕ
  pub attribute_flag : ℕ
  pub name : List ℕ

pub record IsEntry (e : GptEntry) : Type 0 where
  pub type_guid : length e.type_guid ≡ 16
  pub unique_partition_guid : length e.unique_partition_guid ≡ 16
  pub first_lba : e.first_lba < 2 ^ 64
  pub last_lba : e.last_lba < 2 ^ 64
  pub attribute_flag : e.attribute_flag < 2 ^ 64
  pub name : length e.name ≡ 72

-- the bytes of an entry, and what stands behind it
abbrev pub encode : GptEntry → List ℕ → List ℕ
encode e y =
    e.type_guid
    ++ (e.unique_partition_guid
        ++ (bytes_of 8 e.first_lba
            ++ (bytes_of 8 e.last_lba ++ (bytes_of 8 e.attribute_flag ++ (e.name ++ y)))))

-- the entry in memory, of which the type and the rest of the name stay
abbrev pub decoded : GptEntry → PartitionEntry → PartitionEntry
decoded e old = record old {
  type_guid = e.type_guid;
  unique_partition_guid = e.unique_partition_guid;
  first_lba = e.first_lba;
  last_lba = e.last_lba;
  size = (e.last_lba + (2 ^ 64 - e.first_lba) + 1) % 2 ^ 64;
  attribute_flag = e.attribute_flag;
  name = narrow 36 e.name ++ drop 36 old.name;
}

-- `whole` is `x`, which has `i` bytes, and then `z`.
record IsCut (whole : List ℕ) (i : ℕ) (x z : List ℕ) : Type 0 where
  cut : whole ≡ x ++ z
  at : i ≡ length x

part :
    (whole : List ℕ) (i n : ℕ) (x f y : List ℕ)
    → IsCut whole i x (f ++ y)
    → length f ≡ n
    → slice n i whole ≡ f
part whole i n x f y h l = ap (λ b. slice n i b) h.cut ∙ slice-append x f y n i h.at (sym l)

further :
    (whole : List ℕ) (i n : ℕ) (x f y : List ℕ)
    → IsCut whole i x (f ++ y)
    → length f ≡ n
    → IsCut whole (i + n) (x ++ f) y
further whole i n x f y h l = record {
  cut = h.cut ∙ sym (append_assoc x f y);
  at = omega (arith, length-append x f, h.at, l);
}

shift : (whole : List ℕ) (i j : ℕ) (x y : List ℕ) → i ≡ j → IsCut whole i x y → IsCut whole j x y
shift whole i j x y e h = record { cut = h.cut; at = sym e ∙ h.at }

number :
    (whole : List ℕ) (i v : ℕ) (x y : List ℕ)
    → IsCut whole i x (bytes_of 8 v ++ y)
    → v < 2 ^ 64
    → get_llword i whole ≡ v
number whole i v x y h l =
    ap word_of (part whole i 8 x (bytes_of 8 v) y h (length-bytes_of 8 v)) ∙ word_of-bytes_of_8 v l

PartitionEntry-eq :
    (e : GptEntry) (old : PartitionEntry) (g u m : List ℕ) (first last attr : ℕ)
    → g ≡ e.type_guid
    → u ≡ e.unique_partition_guid
    → first ≡ e.first_lba
    → last ≡ e.last_lba
    → attr ≡ e.attribute_flag
    → m ≡ e.name
    → record old {
      type_guid = g;
      unique_partition_guid = u;
      first_lba = first;
      last_lba = last;
      size = (last + (2 ^ 64 - first) + 1) % 2 ^ 64;
      attribute_flag = attr;
      name = narrow 36 m ++ drop 36 old.name;
    }
      ≡ decoded e old
PartitionEntry-eq e old g u m first last attr hg hu hf hl ha hm = cc

-- An entry is read back as it was written, wherever it stands: whatever is in front of it and behind
-- it. The identifiers have 16 bytes, the name 72, and the numbers 64 bits.
pub gpt_entry-encode :
    (x y : List ℕ) (e : GptEntry) (old : PartitionEntry)
    → IsEntry e
    → gpt_entry (length x) (x ++ encode e y) old ≡ decoded e old
unfolding gpt_entry
gpt_entry-encode x y e old h =
    let i = length x in
    let w = x ++ encode e y in
    let first = bytes_of 8 e.first_lba in
    let last = bytes_of 8 e.last_lba in
    let attr = bytes_of 8 e.attribute_flag in
    let c0 : IsCut w i x (encode e y) = record { cut = refl; at = refl } in
    let c1 = further w i 16 x e.type_guid _ c0 h.type_guid in
    let c2 =
      shift w (i + 16 + 16) (i + 32) _ _ (omega arith)
        (further w (i + 16) 16 _ e.unique_partition_guid _ c1 h.unique_partition_guid) in
    let c3 =
      shift w (i + 32 + 8) (i + 40) _ _ (omega arith)
        (further w (i + 32) 8 _ first _ c2 (length-bytes_of 8 e.first_lba)) in
    let c4 =
      shift w (i + 40 + 8) (i + 48) _ _ (omega arith)
        (further w (i + 40) 8 _ last _ c3 (length-bytes_of 8 e.last_lba)) in
    let c5 =
      shift w (i + 48 + 8) (i + 56) _ _ (omega arith)
        (further w (i + 48) 8 _ attr _ c4 (length-bytes_of 8 e.attribute_flag)) in
    PartitionEntry-eq e old _ _ _ _ _ _ (part w i 16 x e.type_guid _ c0 h.type_guid)
      (part w (i + 16) 16 _ e.unique_partition_guid _ c1 h.unique_partition_guid)
      (number w (i + 32) e.first_lba _ _ c2 h.first_lba)
      (number w (i + 40) e.last_lba _ _ c3 h.last_lba)
      (number w (i + 48) e.attribute_flag _ _ c4 h.attribute_flag)
      (part w (i + 56) 72 _ e.name y c5 h.name)
