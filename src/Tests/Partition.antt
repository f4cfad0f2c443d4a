-- ===== src/Tests/Partition.antt =====
-- Partition tables: bootable/lk/platform/msm_shared/partition_parser.c.
use android4_4_4_r.Prelude.{
  sym, ℕ, zero, suc, ◌≤◌, ◌≡◌, ◌⊎◌, inr, refl, subst, arith, List, [], ◌∷◌, ◌++◌, false, none, some,
  codes, ◌==◌, if◌then◌else◌, has_prefix, c_string,
}
use android4_4_4_r.Lk.Bytes.{bytes_of, word_of, get_llword}
use android4_4_4_r.Lk.Partition.{Table, block, failed, Card, zeroed}
use android4_4_4_r.Lk.Partition.Mbr.{IsTable}
use android4_4_4_r.Lk.Partition.Gpt.{
  Header, returned, partition_parse_gpt_header, mmc_boot_read_gpt, partition_read_table,
}
use android4_4_4_r.Lk.Partition.Gpt.Ends.{Ends}
use android4_4_4_r.Lk.Partition.Gpt.Whole.{IsCountable, partition_read_table-Ends}
use android4_4_4_r.Lk.Partition.Gpt.Written.{GptEntry}
use android4_4_4_r.Lk.Partition.Gpt.Array.{IsUsed, encode_all, with_entries, with_type}
use android4_4_4_r.Lk.Partition.Gpt.Readback.{IsArray, mmc_boot_read_gpt-IsArray}
use android4_4_4_r.Lk.Partition.Lookup.{
  IsFound, partition_get_index, partition_get_index-IsFound, same_name,
}

abbrev pub repeat {ℓ} : {A : Type ℓ} → ℕ → A → List A
repeat zero x = []
repeat (suc n) x = x ∷ repeat n x

-- an entry of a master boot record
abbrev mbr_entry : ℕ → ℕ → ℕ → List ℕ
mbr_entry type first size =
    (0x80 ∷ 0 ∷ 0 ∷ 0 ∷ type ∷ 0 ∷ 0 ∷ 0 ∷ []) ++ (bytes_of 4 first ++ bytes_of 4 size)

abbrev mbr : List ℕ
mbr =
    repeat 446 0
    ++ (mbr_entry 0x4C 8 100
        ++ (mbr_entry 0x48 200 50
            ++ (mbr_entry 0x60 300 50 ++ (mbr_entry 0x05 400 9 ++ (0x55 ∷ 0xAA ∷ [])))))

-- The same record stands in every sector, so the chain of extended records has no end.
abbrev cyclic : Card
cyclic at = block mbr

abbrev empty : Table
empty = record {
  partition_entries = repeat 32 zeroed;
  partition_count = 0;
  gpt_partitions_exist = false;
  ext3_count = 0;
  vfat_count = 0;
}

empty-IsTable : IsTable empty
empty-IsTable = record {
  slots = refl;
  counted = omega arith;
  ext3 = omega arith;
  vfat = omega arith;
}

mbr-IsCountable : IsCountable mbr
unfolding word_of bytes_of
mbr-IsCountable = inr (omega arith)

block-injective : (b c : List ℕ) → block b ≡ block c → b ≡ c
block-injective b c e = cc

partition_read_table-Ends_example : Ends (partition_read_table cyclic 0x100000 [] empty)
unfolding word_of
partition_read_table-Ends_example =
    partition_read_table-Ends cyclic 0x100000 [] empty
      (λ at b e. subst IsCountable (block-injective mbr b e) mbr-IsCountable) (inr (omega arith))
      empty-IsTable

-- a table with two partitions
abbrev pub two : Table
two = record empty {
  partition_entries =
      record zeroed { name = codes "boot" ++ (0 ∷ []); first_lba = 8; size = 4 }
      ∷ record zeroed { name = codes "system" ++ (0 ∷ []); first_lba = 16; size = 64 }
      ∷ repeat 30 zeroed;
  partition_count = 2;
}

partition_get_index-IsFound_example :
    ((32 ≤ 2) × (partition_get_index two (codes "system") ≡ none))
    ⊎ IsFound two (codes "system") 0 2 (partition_get_index two (codes "system"))
partition_get_index-IsFound_example =
    partition_get_index-IsFound two (codes "system")
      (omega arith, (omega arith, (omega arith, (omega arith, (omega arith, (omega arith, tt))))))

system_is_second : partition_get_index two (codes "system") ≡ some 1
unfolding partition_get_index same_name has_prefix c_string
system_is_second = refl

-- A card with a GUID partition table of one entry.
abbrev header : List ℕ
header =
    bytes_of 4 0x20494645
    ++ (bytes_of 4 0x54524150
        ++ (repeat 64 0 ++ (bytes_of 8 2 ++ (bytes_of 4 128 ++ (bytes_of 4 128 ++ repeat 424 0)))))

abbrev modem : GptEntry
modem = record {
  type_guid = repeat 16 7;
  unique_partition_guid = repeat 16 9;
  first_lba = 131072;
  last_lba = 262143;
  attribute_flag = 0;
  name = 109 ∷ 0 ∷ 100 ∷ 0 ∷ 109 ∷ 0 ∷ repeat 66 0;
}

modem-IsUsed : IsUsed modem
modem-IsUsed = (
  record {
    type_guid = refl;
    unique_partition_guid = refl;
    first_lba = omega arith;
    last_lba = omega arith;
    attribute_flag = omega arith;
    name = refl;
  },
  refl,
)

abbrev guid_card : Card
guid_card at =
    if at == 512
    then block header
    else if at == 1024
    then block (encode_all (modem ∷ []) (0 ∷ 0 ∷ repeat 382 0))
    else failed 1

abbrev read_header : Header
read_header = record {
  first_usable_lba = 0;
  partition_entry_size = 128;
  header_size = 0;
  max_partition_count = 128;
}

header_is_read : partition_parse_gpt_header header ≡ some read_header
unfolding partition_parse_gpt_header word_of bytes_of
header_is_read = refl

entries_at_2 : get_llword 72 header ≡ 2
unfolding word_of bytes_of
entries_at_2 = refl

one_block : IsArray guid_card (get_llword 72 header) 0 [] (modem ∷ []) (repeat 382 0)
one_block =
    subst (λ p. IsArray guid_card p 0 [] (modem ∷ []) (repeat 382 0)) (sym entries_at_2)
      (omega arith, (modem-IsUsed, tt), refl)

mmc_boot_read_gpt-IsArray_example :
    mmc_boot_read_gpt guid_card 0x100000 [] empty
    ≡ some (returned (with_type (repeat 16 0) (with_entries (modem ∷ []) empty)) 0)
mmc_boot_read_gpt-IsArray_example =
    mmc_boot_read_gpt-IsArray guid_card 0x100000 [] header read_header [] (modem ∷ [])
      (repeat 382 0) empty refl header_is_read refl (omega arith) (omega arith) (omega arith)
      one_block
