-- ===== src/Lk/Partition.antt =====
-- The partition table of an eMMC card: bootable/lk/platform/msm_shared/partition_parser.c.
--
-- The card is read in blocks of 512 bytes by the driver, which is an argument; a byte address wraps
-- around as the source's types do.
pub mod Mbr
pub mod Gpt
pub mod Lookup
use android4_4_4_r.Prelude.{
  ℕ, zero, suc, ◌+◌, ◌*◌, ◌%◌, ◌^◌, List, [], ◌∷◌, ◌++◌, length, get_or, set, drop, Bool, true,
  false, not, ◌&&◌, ◌||◌, Option, none, some, ltb, ◌==◌, if◌then◌else◌, Text, codes,
}
use android4_4_4_r.Lk.Bytes.{get_lword}

-- `struct partition_entry`
pub record PartitionEntry : Type 0 where
  pub type_guid : List ℕ
  pub dtype : ℕ
  pub unique_partition_guid : List ℕ
  pub first_lba : ℕ
  pub last_lba : ℕ
  pub size : ℕ
  pub attribute_flag : ℕ
  pub name : List ℕ

-- NUM_PARTITIONS
abbrev pub num_partitions : ℕ
num_partitions = 32

abbrev pub block_size : ℕ
block_size = 512

-- The file's variables. `partition_entries` is an array of 32 entries.
pub record Table : Type 0 where
  pub partition_entries : List PartitionEntry
  pub partition_count : ℕ
  pub gpt_partitions_exist : Bool
  pub ext3_count : ℕ
  pub vfat_count : ℕ

-- an entry of the array, as the loader zeroes it
abbrev pub zeroed : PartitionEntry
zeroed = record {
  type_guid = [];
  dtype = 0;
  unique_partition_guid = [];
  first_lba = 0;
  last_lba = 0;
  size = 0;
  attribute_flag = 0;
  name = [];
}

-- `mmc_boot_read_from_card` of a block: what it returns where that is not 0, or the block
pub data Answer : Type 0 where
  failed : ℕ → Answer
  block : List ℕ → Answer

-- by the byte address
abbrev pub Card : Type 0
Card = ℕ → Answer

-- `&partition_entries[partition_count]`
abbrev pub last_entry : Table → PartitionEntry
last_entry t = get_or t.partition_entries t.partition_count zeroed

-- the entry written, and `partition_count++`
abbrev pub add_entry : PartitionEntry → Table → Table
add_entry e t = record t {
  partition_entries = set t.partition_entries t.partition_count e;
  partition_count = t.partition_count + 1;
}

-- 0 is MMC_BOOT_E_SUCCESS, 1 MMC_BOOT_E_FAILURE.
unfoldable pub partition_verify_mbr_signature : ℕ → List ℕ → ℕ
partition_verify_mbr_signature size buffer =
    if ltb size (510 + 1)
    then 1
    else if not (get_or buffer 510 0 == 0x55) || not (get_or buffer 511 0 == 0xAA)
    then 1
    else 0

-- `memcpy` of a text without its terminator over the first bytes of the name
abbrev pub copy_over : Text → List ℕ → List ℕ
copy_over text name = text ++ drop (length text) name

-- The names that `mbr_fill_name` copies, by the type. Where MSM7X27A is built, 0x4C is FOTA.
unfoldable pub plain_name : ℕ → Text
plain_name type =
    if type == 0x4D
    then codes "sbl1"
    else if type == 0x51
    then codes "sbl2"
    else if type == 0x45
    then codes "sbl3"
    else if type == 0x47
    then codes "rpm"
    else if type == 0x46
    then codes "tz"
    else if type == 0x4C
    then codes "aboot"
    else if type == 0x48
    then codes "boot"
    else if type == 0x4A
    then codes "modem_st1"
    else if type == 0x4B
    then codes "modem_st2"
    else if type == 0x4E
    then codes "efs2"
    else if type == 0x60
    then codes "recovery"
    else if type == 0x63
    then codes "misc"
    else if type == 0x5D
    then codes "ssd"
    else []

-- `vfat_partitions` up to "NONE", and `ext3_partitions`
abbrev pub vfat_partitions : List Text
vfat_partitions = codes "modem" ∷ codes "mdm" ∷ []

abbrev pub ext3_partitions : List Text
ext3_partitions =
    codes "system" ∷ codes "userdata" ∷ codes "persist" ∷ codes "cache" ∷ codes "tombstones" ∷ []

-- `strlcpy`, which copies the terminator, too; the names fit
abbrev pub copy_string : Text → List ℕ → List ℕ
copy_string text name = copy_over (text ++ 0 ∷ []) name

-- The `memset` in front of the first case is never reached, so the old name stays where it is not
-- written over.
unfoldable pub mbr_fill_name : PartitionEntry → Table → PartitionEntry × Table
unfolding plain_name
mbr_fill_name e t =
    let vfat = get_or vfat_partitions t.vfat_count [] in
    let ext3 = get_or ext3_partitions t.ext3_count [] in
    if e.dtype == 0x06 || e.dtype == 0x0C
    then (if ltb t.vfat_count 2
        then (
          record e { name = copy_string vfat e.name },
          record t { vfat_count = t.vfat_count + 1 },
        )
        else (e, t))
    else if e.dtype == 0x83
    then (if t.ext3_count == 5 then (e, t) else (
      record e { name = copy_string ext3 e.name },
      record t { ext3_count = t.ext3_count + 1 },
    ))
    else (record e { name = copy_over (plain_name e.dtype) e.name }, t)

-- an entry of an MBR or EBR at `i` of the block, which begins at the sector `base`
unfoldable pub read_entry : ℕ → ℕ → List ℕ → Table → Table
unfolding mbr_fill_name
read_entry i base buffer t =
    let e = record (last_entry t) {
      dtype = get_or buffer (i + 4) 0;
      attribute_flag = get_or buffer i 0;
      first_lba = (get_lword (i + 8) buffer + base) % 2 ^ 32;
      size = get_lword (i + 12) buffer;
    } in
    let (filled, t') = mbr_fill_name e t in add_entry filled t'

-- What the loop over the four entries comes to: the end of `mmc_boot_read_mbr`, or the type and the
-- first sector of the last entry.
pub data Scan : Type 0 where
  finished : Table → Scan
  scanned : ℕ → ℕ → Table → Scan

-- the `n` entries that are left; `i` is where the next one stands, 0x1BE for the first
unfoldable pub scan_entries : ℕ → ℕ → List ℕ → ℕ → ℕ → Table → Scan
unfolding read_entry
scan_entries zero i buffer dtype first t = scanned dtype first t
scan_entries (suc n) i buffer dtype first t =
    let type = get_or buffer (i + 4) 0 in
    let t' = read_entry i 0 buffer t in
    let rest = scan_entries n (i + 16) buffer type (get_lword (i + 8) buffer) t' in
    if type == 0xEE
    then finished (record t { gpt_partitions_exist = true })
    else if t'.partition_count == num_partitions
    then finished t'
    else rest

-- the byte address of a sector, as a product of 32 bits
abbrev pub address : ℕ → ℕ
address sector = sector * block_size % 2 ^ 32

-- The loop over the EBRs, with the return value; `none` where the fuel runs out.
unfoldable pub ebr_loop : ℕ → Card → ℕ → ℕ → List ℕ → Table → Option (Table × ℕ)
unfolding read_entry
ebr_loop zero card first current buffer t = none
ebr_loop (suc n) card first current buffer t =
    let t' = read_entry 0x1BE current buffer t in
    let dfirstsec = get_lword (0x1CE + 8) buffer in
    let next = (first + dfirstsec) % 2 ^ 32 in
    let rest : Option (Table × ℕ) = elim (card (address next)) [
      | failed e ↦ some (t', e)
      | block b ↦ ebr_loop n card first next b t'
    ] in
    if not (partition_verify_mbr_signature block_size buffer == 0)
    then some (t, 0)
    else if t'.partition_count == num_partitions || dfirstsec == 0
    then some (t', 0)
    else rest

-- Each round adds an entry, so there are at most 32.
unfoldable pub mmc_boot_read_mbr : Card → Table → Option (Table × ℕ)
unfolding scan_entries ebr_loop
mmc_boot_read_mbr card t0 = elim (card 0) [
  | failed e ↦ some (t0, e)
  | block buffer ↦
      let t = record t0 { partition_count = 0 } in
      let read : Option (Table × ℕ) = elim (scan_entries 4 0x1BE buffer 0 0 t) [
        | finished t' ↦ some (t', 0)
        | scanned dtype first t' ↦
            let ebrs : Option (Table × ℕ) = elim (card (address first)) [
              | failed e ↦ some (t', e)
              | block b ↦ ebr_loop num_partitions card first first b t'
            ] in
            if dtype == 0x05 then ebrs else some (t', 0)
      ] in
      if partition_verify_mbr_signature block_size buffer == 0 then read else some (t0, 1)
]
