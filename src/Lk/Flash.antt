-- ===== src/Lk/Flash.antt =====
-- The commands that write to the partitions of an eMMC card, and those about the device:
-- `cmd_erase_mmc`, `cmd_flash_mmc_img`, `cmd_flash_mmc_sparse_img`, `cmd_flash_mmc`,
-- `cmd_oem_unlock` and `cmd_oem_devinfo` of bootable/lk/app/aboot/aboot.c, where SSD_ENABLE is not
-- set.
pub mod Kept
pub mod Inside
use android4_4_4_r.Prelude.{
  ℕ, zero, suc, ◌+◌, ◌-◌, ◌*◌, ◌/◌, ◌%◌, ◌^◌, List, [], ◌∷◌, ◌++◌, length, get_or, Bool, true,
  false, not, ◌&&◌, ◌||◌, Option, none, some, ltb, ◌==◌, if◌then◌else◌, Text, codes, text_eq,
}
use android4_4_4_r.Lk.Bytes.{word_of}
use android4_4_4_r.Lk.Partition.{Table}
use android4_4_4_r.Lk.Partition.Lookup.{
  partition_get_index, partition_get_size, partition_get_offset,
}
use android4_4_4_r.Lk.Fastboot.{
  Machine, Io, done, waits, M, pure, ◌>>=◌, ◌>>◌, fastboot_fail, fastboot_okay, fastboot_info,
  response, DeviceInfo,
}
use android4_4_4_r.Lk.Fastboot.Commands.{FastbootCmd, fastboot_register, cmd_getvar, cmd_download}

-- What the commands call: the driver of the card, whose status is 0 where a write succeeds;
-- `write_partition` on the download, with its status, and the table and the writes after it;
-- what stands in memory behind the download, by the distance from its beginning; and
-- `write_device_info`, with the writes after it.
pub record Board : Type 0 where
  pub mmc_write : ℕ → List ℕ → ℕ
  pub write_partition : Machine → ℕ × Table × List (ℕ × List ℕ)
  pub beyond : ℕ → ℕ
  pub write_device_info : DeviceInfo → List (ℕ × List ℕ) → List (ℕ × List ℕ)

-- `ROUND_TO_PAGE(sz, 511)`, in 32 bits
abbrev pub round_to_block : ℕ → ℕ
round_to_block sz = (sz + 511) % 2 ^ 32 / 512 * 512

unfoldable pub zeros : ℕ → List ℕ
zeros zero = []
zeros (suc n) = 0 ∷ zeros n

-- the offset of the partition of a name, 0 where there is none
abbrev pub offset_of : Text → Machine → ℕ
offset_of arg m = partition_get_offset m.table (partition_get_index m.table arg)

abbrev pub size_of : Text → Machine → ℕ
size_of arg m = partition_get_size m.table (partition_get_index m.table arg)

-- the fields of `sparse_header_t` that are used
pub record SparseHeader : Type 0 where
  pub file_hdr_sz : ℕ
  pub chunk_hdr_sz : ℕ
  pub blk_sz : ℕ
  pub total_blks : ℕ
  pub total_chunks : ℕ

-- the end of the loop: an error is told to the host, but success, too
abbrev pub finish : SparseHeader → ℕ → M (Unit {0})
finish h total m =
    if total == h.total_blks
    then fastboot_okay (some []) m
    else (fastboot_fail (some (codes "sparse image write failure")) >> fastboot_okay (some [])) m

abbrev pub true_or_false : Bool → Text
true_or_false b = if b then codes "true" else codes "false"

-- A tab stands in front of each line.
unfoldable pub cmd_oem_devinfo : Text → M (Unit {0})
unfolding fastboot_info
cmd_oem_devinfo arg m =
    let tampered =
      response (9 ∷ (codes "Device tampered: " ++ true_or_false m.device.is_tampered)) in
    let unlocked =
      response (9 ∷ (codes "Device unlocked: " ++ true_or_false m.device.is_unlocked)) in
    (fastboot_info (some tampered) >> (fastboot_info (some unlocked) >> fastboot_okay (some []))) m

module _ (board : Board) where
  -- the `n` bytes at `i`; a pointer has 32 bits
  unfoldable pub memory : Machine → ℕ → ℕ → List ℕ
  memory m zero i = []
  memory m (suc n) i =
      let at = i % 2 ^ 32 in get_or m.download at (board.beyond at) ∷ memory m n (i + 1)

  abbrev pub field : Machine → ℕ → ℕ → ℕ
  field m n i = word_of (memory m n i)

  abbrev pub write_card : ℕ → List ℕ → M ℕ
  write_card at b m = done (board.mmc_write at b) (record m { writes = (at, b) ∷ m.writes })

  -- a write, and what is done where it succeeds
  abbrev pub write_or_fail : ℕ → List ℕ → Text → M (Unit {0}) → M (Unit {0})
  write_or_fail at b reason next = do
    r ← write_card at b
    if r == 0 then next else fastboot_fail (some reason)

  unfoldable pub cmd_erase_mmc : Text → M (Unit {0})
  cmd_erase_mmc arg m =
      let ptn = offset_of arg m in
      if ptn == 0
      then fastboot_fail (some (codes "Partition table doesn't exist" ++ 10 ∷ [])) m
      else write_or_fail ptn (zeros 16384) (codes "failed to erase partition")
          (fastboot_okay (some [])) m

  abbrev pub has_boot_magic : Machine → Bool
  has_boot_magic m = text_eq (memory m 8 0) (codes "ANDROID!")

  -- what is done with the result of `write_partition`
  abbrev pub flash_table : M (Unit {0})
  flash_table m =
      let (r, table, writes) = board.write_partition m in
      let m' : Machine = record m { table = table; writes = writes } in
      if r == 0
      then fastboot_okay (some []) m'
      else fastboot_fail (some (codes "failed to write partition")) m'

  unfoldable pub cmd_flash_mmc_img : Text → M (Unit {0})
  cmd_flash_mmc_img arg m =
      let ptn = offset_of arg m in
      let sz = m.download_size in
      if text_eq arg (codes "partition")
      then flash_table m
      else if ptn == 0
      then fastboot_fail (some (codes "partition table doesn't exist")) m
      else if (text_eq arg (codes "boot") || text_eq arg (codes "recovery"))
          && not (has_boot_magic m)
      then fastboot_fail (some (codes "image is not a boot image")) m
      else if ltb (size_of arg m) (round_to_block sz)
      then fastboot_fail (some (codes "size too large")) m
      else write_or_fail ptn (memory m sz 0) (codes "flash write failure") (fastboot_okay (some []))
          m

  abbrev pub sparse_header : Machine → SparseHeader
  sparse_header m = record {
    file_hdr_sz = field m 2 8;
    chunk_hdr_sz = field m 2 10;
    blk_sz = field m 4 12;
    total_blks = field m 4 16;
    total_chunks = field m 4 20;
  }

  -- The loop with `n` chunks left, at `i` of the image; `total` blocks have been passed.
  unfoldable pub flash_chunks : SparseHeader → ℕ → ℕ → ℕ → ℕ → M (Unit {0})
  flash_chunks h ptn zero i total m = finish h total m
  flash_chunks h ptn (suc n) i total m =
      let chunk_type = field m 2 i in
      let chunk_sz = field m 4 (i + 4) in
      let total_sz = field m 4 (i + 8) in
      let start = i + 12 + (h.chunk_hdr_sz - 12) in
      let chunk_data_sz = h.blk_sz * chunk_sz % 2 ^ 32 in
      let passed = (total + chunk_sz) % 2 ^ 32 in
      let after : M Unit = flash_chunks h ptn n (start + chunk_data_sz) passed in
      let skipped = flash_chunks h ptn n start passed m in
      let at = (ptn + total * h.blk_sz) % 2 ^ 64 in
      let raw =
        write_or_fail at (memory m chunk_data_sz start) (codes "flash write failure") after m in
      if chunk_type == 0xCAC1
      then (if total_sz == (h.chunk_hdr_sz + chunk_data_sz) % 2 ^ 32
          then raw
          else fastboot_fail (some (codes "Bogus chunk size for chunk type Raw")) m)
      else if chunk_type == 0xCAC3
      then skipped
      else if chunk_type == 0xCAC4
      then (if total_sz == h.chunk_hdr_sz
          then after m
          else fastboot_fail (some (codes "Bogus chunk size for chunk type Dont Care")) m)
      else fastboot_fail (some (codes "Unknown chunk type")) m

  -- What a longer header has more than `sparse_header_t` is skipped twice.
  unfoldable pub cmd_flash_mmc_sparse_img : Text → M (Unit {0})
  unfolding flash_chunks
  cmd_flash_mmc_sparse_img arg m =
      let ptn = offset_of arg m in
      let h = sparse_header m in
      let start = h.file_hdr_sz + (h.file_hdr_sz - 28) in
      if ptn == 0
      then fastboot_fail (some (codes "partition table doesn't exist")) m
      else if ltb (size_of arg m) (round_to_block m.download_size)
      then fastboot_fail (some (codes "size too large")) m
      else flash_chunks h ptn h.total_chunks start 0 m

  unfoldable pub cmd_flash_mmc : Text → M (Unit {0})
  unfolding cmd_flash_mmc_img cmd_flash_mmc_sparse_img
  cmd_flash_mmc arg m =
      if field m 4 0 == 0xED26FF3A then cmd_flash_mmc_sparse_img arg m else cmd_flash_mmc_img arg m

  -- The flags are written only where one changes.
  unfoldable pub cmd_oem_unlock : Text → M (Unit {0})
  cmd_oem_unlock arg m =
      let d : DeviceInfo = record (m.device) { is_unlocked = true } in
      let m' : Machine = record m { device = d; writes = board.write_device_info d m.writes } in
      if m.device.is_unlocked then fastboot_okay (some []) m else fastboot_okay (some []) m'

  -- The commands above, as `aboot_init` and `fastboot_init` register them.
  unfoldable pub card_commands : List FastbootCmd
  unfolding cmd_erase_mmc cmd_flash_mmc cmd_oem_devinfo cmd_oem_unlock
  card_commands = fastboot_register (codes "download:") cmd_download (
      fastboot_register (codes "getvar:") cmd_getvar (
        fastboot_register (codes "oem device-info") cmd_oem_devinfo (
          fastboot_register (codes "oem unlock") cmd_oem_unlock (
            fastboot_register (codes "erase:") cmd_erase_mmc
              (fastboot_register (codes "flash:") cmd_flash_mmc [])))))
