-- ===== src/Lk/Partition/Gpt.antt =====
-- The GUID partition table: `partition_parse_gpt_header`, `mmc_boot_read_gpt` and
-- `partition_read_table` of bootable/lk/platform/msm_shared/partition_parser.c.
pub mod Written
pub mod Array
pub mod Readback
pub mod Ends
pub mod Whole
use android4_4_4_r.Prelude.{
  ℕ, zero, suc, ◌+◌, ◌-◌, ◌*◌, ◌/◌, ◌%◌, ◌^◌, List, [], ◌∷◌, ◌++◌, get_or, set, drop, Bool, not,
  ◌&&◌, ◌||◌, Option, none, some, ltb, ◌==◌, if◌then◌else◌,
}
use android4_4_4_r.Lk.Bytes.{slice, get_lword, get_llword}
use android4_4_4_r.Lk.Partition.{
  PartitionEntry, num_partitions, block_size, Table, Answer, failed, block, Card, last_entry,
  add_entry, mmc_boot_read_mbr,
}

-- the fields of the header that are read
pub record Header : Type 0 where
  pub first_usable_lba : ℕ
  pub partition_entry_size : ℕ
  pub header_size : ℕ
  pub max_partition_count : ℕ

-- `none` where 1 is returned
unfoldable pub partition_parse_gpt_header : List ℕ → Option Header
partition_parse_gpt_header buffer =
    if not (get_lword 0 buffer == 0x20494645) || not (get_lword 4 buffer == 0x54524150)
    then none
    else some (record {
      first_usable_lba = get_llword 40 buffer;
      partition_entry_size = get_lword 84 buffer;
      header_size = get_lword 12 buffer;
      max_partition_count = get_lword 80 buffer;
    })

-- `returned` with the return value; `panicked` by an ASSERT; `strayed` where a byte outside of the
-- block is read.
pub data Outcome : Type 0 where
  returned : Table → ℕ → Outcome
  panicked : Outcome
  strayed : Outcome

-- the first byte of each of `n` characters
unfoldable pub narrow : ℕ → List ℕ → List ℕ
narrow zero b = []
narrow (suc n) b = get_or b 0 0 ∷ narrow n (drop 2 b)

-- the entry at `off` of the block, written over the fields that the source writes
unfoldable pub gpt_entry : ℕ → List ℕ → PartitionEntry → PartitionEntry
unfolding narrow
gpt_entry off b e =
    let first = get_llword (off + 32) b in
    let last = get_llword (off + 40) b in
    record e {
      type_guid = slice 16 off b;
      unique_partition_guid = slice 16 (off + 16) b;
      first_lba = first;
      last_lba = last;
      size = (last + (2 ^ 64 - first) + 1) % 2 ^ 64;
      attribute_flag = get_llword (off + 48) b;
      name = narrow 36 (slice 72 (off + 56) b) ++ drop 36 e.name;
    }

-- After the entries of a block there may be more, or an entry without a type has ended the table.
pub data Block : Type 0 where
  more : Table → Block
  ended : Table → Block
  outside : Block

-- the `n` entries that are left of a block, from the `j`-th on
unfoldable pub gpt_block : ℕ → ℕ → ℕ → List ℕ → Table → Block
unfolding gpt_entry
gpt_block zero j entry_size b t = more t
gpt_block (suc n) j entry_size b t =
    let off = j * entry_size % 2 ^ 32 in
    let e = last_entry t in
    let typed = record t {
      partition_entries =
          set t.partition_entries t.partition_count (record e { type_guid = slice 16 off b });
    } in
    let rest = gpt_block n (j + 1) entry_size b (add_entry (gpt_entry off b e) t) in
    if ltb block_size (off + 16)
    then outside
    else if get_or b off 0 == 0 && get_or b (off + 1) 0 == 0
    then ended typed
    else if ltb block_size (off + 128)
    then outside
    else rest

-- The loop over the blocks from the `i`-th on; `none` where the fuel runs out. `i` has 32 bits.
unfoldable pub gpt_loop : ℕ → Card → Header → ℕ → ℕ → Table → Option Outcome
unfolding gpt_block
gpt_loop zero card h partition_0 i t = none
gpt_loop (suc f) card h partition_0 i t =
    let max = h.max_partition_count in
    let at = (partition_0 * block_size % 2 ^ 64 + i * block_size % 2 ^ 32) % 2 ^ 64 in
    let round : Option Outcome = elim (card at) [
      | failed e ↦ some (returned t e)
      | block b ↦ elim (gpt_block 4 0 h.partition_entry_size b t) [
        | more t' ↦ gpt_loop f card h partition_0 ((i + 1) % 2 ^ 32) t'
        | ended t' ↦ gpt_loop f card h partition_0 ((max + 1) % 2 ^ 32) t'
        | outside ↦ some strayed
      ]
    ] in
    if not (ltb i (max / 4))
    then some (returned t 0)
    else if not (ltb t.partition_count num_partitions)
    then some panicked
    else round

-- A block of four entries is read at most eight times before the ASSERT, and once more.
abbrev pub gpt_entries : Card → Header → List ℕ → Table → Option Outcome
gpt_entries card h header t = gpt_loop 10 card h (get_llword 72 header) 0 t

-- the backup header, in the last sector
unfoldable pub read_backup : Card → ℕ → Table → Option Outcome
unfolding partition_parse_gpt_header gpt_loop
read_backup card capacity t =
    let sectors = capacity / block_size in
    let backup : Option Outcome = elim (card ((sectors - 1) * block_size)) [
      | failed e ↦ some (returned t e)
      | block b ↦ elim (partition_parse_gpt_header b) [
        | none ↦ some (returned t 1)
        | some h ↦ gpt_entries card h b t
      ]
    ] in
    if sectors == 0 then some panicked else backup

-- The entries, by the header that is in the block, or else by the backup header.
unfoldable pub from_header : Card → ℕ → List ℕ → Table → Option Outcome
unfolding read_backup
from_header card capacity header t = elim (partition_parse_gpt_header header) [
  | none ↦ read_backup card capacity t
  | some h ↦ gpt_entries card h header t
]

-- Where the primary header cannot be read, the code goes on with what `data` happens to hold, which
-- is `garbage`.
unfoldable pub mmc_boot_read_gpt : Card → ℕ → List ℕ → Table → Option Outcome
unfolding from_header
mmc_boot_read_gpt card capacity garbage t0 =
    let t = record t0 { partition_count = 0 } in
    let header : List ℕ = elim (card block_size) [ failed e ↦ garbage | block b ↦ b ] in
    from_header card capacity header t

-- what `partition_read_table` makes of the outcome of the GPT
abbrev pub with_status : Option Outcome → Option Outcome
with_status none = none
with_status (some (returned t e)) = some (returned t (if e == 0 then 0 else 1))
with_status (some panicked) = some panicked
with_status (some strayed) = some strayed

unfoldable pub partition_read_table : Card → ℕ → List ℕ → Table → Option Outcome
partition_read_table card capacity garbage t = elim (mmc_boot_read_mbr card t) [
  | none ↦ none
  | some (t', e) ↦
      if not (e == 0)
      then some (returned t' 1)
      else if t'.gpt_partitions_exist
      then with_status (mmc_boot_read_gpt card capacity garbage t')
      else some (returned t' 0)
]
