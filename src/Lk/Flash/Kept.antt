-- ===== src/Lk/Flash/Kept.antt =====
-- The commands that write to the card keep to the rules of a handler.
use android4_4_4_r.Prelude.{
  ◌++◌, ℕ, zero, suc, ◌+◌, ◌-◌, ◌*◌, ◌%◌, ◌^◌, ◌≡◌, refl, arith, List, [], ◌∷◌, Bool, Bool-cases,
  true, false, not, ◌&&◌, ◌||◌, inl, inr, some, ltb, ◌==◌, if◌then◌else◌, Text, codes, text_eq,
}
use android4_4_4_r.Lk.Partition.{Table}
use android4_4_4_r.Lk.Fastboot.{
  DeviceInfo, ◌>>◌, fastboot_info, response, Machine, Io, M, fastboot_fail, fastboot_okay,
}
use android4_4_4_r.Lk.Fastboot.Commands.{dispatch}
use android4_4_4_r.Lk.Fastboot.Answers.{
  IsKept, IsKeptBy, then-IsKeptBy, >>=-IsKeptBy, fail-IsKeptBy, fastboot_info-IsKeptBy,
  okay-IsKeptBy, cmd_getvar-IsKeptBy,
}
use android4_4_4_r.Lk.Fastboot.Kept.{cmd_download-IsKeptBy}
use android4_4_4_r.Lk.Fastboot.Dispatch.{IsHandler, IsAnswered, is_known, dispatch-IsAnswered}
use android4_4_4_r.Lk.Flash.{
  Board, round_to_block, zeros, offset_of, size_of, SparseHeader, finish, memory, field,
  write_or_fail, cmd_erase_mmc, has_boot_magic, flash_table, cmd_flash_mmc_img, sparse_header,
  flash_chunks, cmd_flash_mmc_sparse_img, cmd_flash_mmc, card_commands, cmd_oem_devinfo,
  cmd_oem_unlock, true_or_false,
}

-- Another table, other writes and flags keep the rest.
aside-IsKept :
    (m : Machine) (table : Table) (writes : List (ℕ × List ℕ)) (d : DeviceInfo)
    → IsKept m (record m { table = table; writes = writes; device = d })
aside-IsKept m table writes d = record {
  sticky = λ e. e;
  answered = λ e. refl;
  bounded = omega arith;
  shorter = omega arith;
}

either-IsKeptBy :
    {A : Type 0} (c : Bool) (m : Machine) (x y : Io A)
    → IsKeptBy m x
    → IsKeptBy m y
    → IsKeptBy m (if c then x else y)
either-IsKeptBy true m x y h k = h
either-IsKeptBy false m x y h k = k

finish-IsKeptBy : (h : SparseHeader) (total : ℕ) (m : Machine) → IsKeptBy m (finish h total m)
finish-IsKeptBy h total m =
    let reason = some (codes "sparse image write failure") in
    either-IsKeptBy (total == h.total_blks) m _ _ (okay-IsKeptBy (some []) m) (
      >>=-IsKeptBy m (fastboot_fail reason m) (λ u. fastboot_okay (some []))
        (fail-IsKeptBy reason m) (λ u. okay-IsKeptBy (some [])))

cmd_oem_devinfo-IsKeptBy : IsHandler cmd_oem_devinfo
unfolding cmd_oem_devinfo
cmd_oem_devinfo-IsKeptBy arg m =
    let tampered =
      response (9 ∷ (codes "Device tampered: " ++ true_or_false m.device.is_tampered)) in
    let unlocked =
      response (9 ∷ (codes "Device unlocked: " ++ true_or_false m.device.is_unlocked)) in
    let rest = fastboot_info (some unlocked) >> fastboot_okay (some []) in
    >>=-IsKeptBy m (fastboot_info (some tampered) m) (λ u. rest)
      (fastboot_info-IsKeptBy (some tampered) m)
      (λ u m'.
        >>=-IsKeptBy m' (fastboot_info (some unlocked) m') (λ v. fastboot_okay (some []))
          (fastboot_info-IsKeptBy (some unlocked) m') (λ v. okay-IsKeptBy (some [])))

module _ (board : Board) where
  write_or_fail-IsKeptBy :
      (at : ℕ) (b : List ℕ) (reason : Text) (next : M (Unit {0})) (m : Machine)
      → ((m' : Machine) → IsKeptBy m' (next m'))
      → IsKeptBy m (write_or_fail board at b reason next m)
  write_or_fail-IsKeptBy at b reason next m h =
      let m' : Machine = record m { writes = (at, b) ∷ m.writes } in
      let aside = aside-IsKept m m.table ((at, b) ∷ m.writes) m.device in
      elim (Bool-cases (board.mmc_write at b == 0)) [
        | inl good ↦ rw good (then-IsKeptBy m m' (next m') aside (h m'))
        | inr bad ↦ rw bad (
            then-IsKeptBy m m' (fastboot_fail (some reason) m') aside
              (fail-IsKeptBy (some reason) m'))
      ]

  pub cmd_erase_mmc-IsKeptBy : IsHandler (cmd_erase_mmc board)
  unfolding cmd_erase_mmc
  cmd_erase_mmc-IsKeptBy arg m = either-IsKeptBy (offset_of arg m == 0) m _ _ (fail-IsKeptBy _ m) (
      write_or_fail-IsKeptBy (offset_of arg m) (zeros 16384) (codes "failed to erase partition")
        (fastboot_okay (some [])) m (okay-IsKeptBy (some [])))

  flash_table-IsKeptBy : (m : Machine) → IsKeptBy m (flash_table board m)
  flash_table-IsKeptBy m =
      let (r, table, writes) = board.write_partition m in
      let m' : Machine = record m { table = table; writes = writes } in
      let reason = some (codes "failed to write partition") in
      then-IsKeptBy m m' _ (aside-IsKept m table writes m.device)
        (either-IsKeptBy (r == 0) m' _ _ (okay-IsKeptBy (some []) m') (fail-IsKeptBy reason m'))

  pub cmd_flash_mmc_img-IsKeptBy : IsHandler (cmd_flash_mmc_img board)
  unfolding cmd_flash_mmc_img
  cmd_flash_mmc_img-IsKeptBy arg m =
      let sz = m.download_size in
      let boot = text_eq arg (codes "boot") || text_eq arg (codes "recovery") in
      let write =
        write_or_fail-IsKeptBy (offset_of arg m) (memory board m sz 0) (codes "flash write failure")
          (fastboot_okay (some [])) m (okay-IsKeptBy (some [])) in
      either-IsKeptBy (text_eq arg (codes "partition")) m _ _ (flash_table-IsKeptBy m) (
        either-IsKeptBy (offset_of arg m == 0) m _ _ (fail-IsKeptBy _ m) (
          either-IsKeptBy (boot && not (has_boot_magic board m)) m _ _ (fail-IsKeptBy _ m) (
            either-IsKeptBy (ltb (size_of arg m) (round_to_block sz)) m _ _ (fail-IsKeptBy _ m)
              write)))

  flash_chunks-IsKeptBy :
      (h : SparseHeader) (ptn n i total : ℕ) (m : Machine)
      → IsKeptBy m (flash_chunks board h ptn n i total m)
  unfolding flash_chunks
  flash_chunks-IsKeptBy h ptn zero i total m = finish-IsKeptBy h total m
  flash_chunks-IsKeptBy h ptn (suc n) i total m =
      let type = field board m 2 i in
      let chunk_sz = field board m 4 (i + 4) in
      let total_sz = field board m 4 (i + 8) in
      let start = i + 12 + (h.chunk_hdr_sz - 12) in
      let chunk_data_sz = h.blk_sz * chunk_sz % 2 ^ 32 in
      let passed = (total + chunk_sz) % 2 ^ 32 in
      let after = flash_chunks-IsKeptBy h ptn n (start + chunk_data_sz) passed in
      let skipped = flash_chunks-IsKeptBy h ptn n start passed m in
      let raw =
        write_or_fail-IsKeptBy ((ptn + total * h.blk_sz) % 2 ^ 64)
          (memory board m chunk_data_sz start) (codes "flash write failure")
          (flash_chunks board h ptn n (start + chunk_data_sz) passed) m after in
      let whole = total_sz == (h.chunk_hdr_sz + chunk_data_sz) % 2 ^ 32 in
      either-IsKeptBy (type == 0xCAC1) m _ _ (either-IsKeptBy whole m _ _ raw (fail-IsKeptBy _ m)) (
        either-IsKeptBy (type == 0xCAC3) m _ _ skipped (
          either-IsKeptBy (type == 0xCAC4) m _ _
            (either-IsKeptBy (total_sz == h.chunk_hdr_sz) m _ _ (after m) (fail-IsKeptBy _ m))
            (fail-IsKeptBy _ m)))

  pub cmd_flash_mmc_sparse_img-IsKeptBy : IsHandler (cmd_flash_mmc_sparse_img board)
  unfolding cmd_flash_mmc_sparse_img
  cmd_flash_mmc_sparse_img-IsKeptBy arg m =
      let ptn = offset_of arg m in
      let h = sparse_header board m in
      let start = h.file_hdr_sz + (h.file_hdr_sz - 28) in
      either-IsKeptBy (ptn == 0) m _ _ (fail-IsKeptBy _ m) (
        either-IsKeptBy (ltb (size_of arg m) (round_to_block m.download_size)) m _ _
          (fail-IsKeptBy _ m) (flash_chunks-IsKeptBy h ptn h.total_chunks start 0 m))

  pub cmd_flash_mmc-IsKeptBy : IsHandler (cmd_flash_mmc board)
  unfolding cmd_flash_mmc
  cmd_flash_mmc-IsKeptBy arg m =
      either-IsKeptBy (field board m 4 0 == 0xED26FF3A) m _ _
        (cmd_flash_mmc_sparse_img-IsKeptBy arg m) (cmd_flash_mmc_img-IsKeptBy arg m)

  cmd_oem_unlock-IsKeptBy : IsHandler (cmd_oem_unlock board)
  unfolding cmd_oem_unlock
  cmd_oem_unlock-IsKeptBy arg m =
      let d : DeviceInfo = record (m.device) { is_unlocked = true } in
      let m' : Machine = record m { device = d; writes = board.write_device_info d m.writes } in
      either-IsKeptBy m.device.is_unlocked m _ _ (okay-IsKeptBy (some []) m) (
        then-IsKeptBy m m' (fastboot_okay (some []) m') (aside-IsKept m m.table m'.writes d)
          (okay-IsKeptBy (some []) m'))

  -- Each of the commands `getvar:`, `download:`, `flash:`, `erase:`, `oem unlock` and
  -- `oem device-info` is answered once, by OKAY or FAIL, however the card and the requests behave,
  -- unless the connection fails.
  pub card_commands-IsAnswered :
      (text : Text) (m : Machine)
      → is_known (card_commands board) text ≡ true
      → IsAnswered m (dispatch (card_commands board) text m)
  unfolding card_commands
  card_commands-IsAnswered text m e =
      dispatch-IsAnswered (card_commands board) text m
        (
          cmd_download-IsKeptBy,
          (
            cmd_getvar-IsKeptBy,
            (
              cmd_oem_devinfo-IsKeptBy,
              (cmd_oem_unlock-IsKeptBy, (cmd_erase_mmc-IsKeptBy, (cmd_flash_mmc-IsKeptBy, tt))),
            ),
          ),
        )
        e
