-- ===== src/Lk/Flash/Inside.antt =====
-- A raw image is written within its partition.
use android4_4_4_r.Prelude.{
  ℕ, zero, suc, ◌+◌, ◌^◌, ◌≤◌, ◌<◌, ◌≡◌, ◌∙◌, ap, subst, refl, arith, List, [], ◌∷◌, ◌++◌, length,
  Bool, Bool-cases, true, false, not, ◌&&◌, ◌||◌, ◌⊎◌, inl, inr, Option, Option-cases, some, ltb,
  ◌==◌, if◌then◌else◌, Text, codes, text_eq,
}
use android4_4_4_r.Lk.Partition.{Table}
use android4_4_4_r.Lk.Partition.Lookup.{
  partition_get_index, partition_get_size, partition_get_offset,
}
use android4_4_4_r.Lk.Fastboot.{
  complete, is_command, is_error, Completion, refused, broken, moved, Machine, Io, done, waits,
  written, usb_write, response, or_empty, fastboot_ack, fastboot_fail, fastboot_okay,
}
use android4_4_4_r.Lk.Fastboot.Download.{Holds, Holds-map}
use android4_4_4_r.Lk.Flash.{
  Board, round_to_block, offset_of, size_of, memory, write_or_fail, has_boot_magic,
  cmd_flash_mmc_img,
}

-- The responses to the host write nothing to the card.
abbrev Wrote : List (ℕ × List ℕ) → Machine → Type 0
Wrote ws m = m.writes ≡ ws

written-Wrote :
    (buf : Text) (s : List Completion) (m : Machine) → Holds (Wrote m.writes) (written buf s m)
written-Wrote buf [] m = refl
written-Wrote buf (refused ∷ s) m = refl
written-Wrote buf (broken ∷ s) m = refl
written-Wrote buf (moved b ∷ s) m = refl

usb_write-Wrote : (buf : Text) (m : Machine) → Holds (Wrote m.writes) (usb_write buf m)
unfolding usb_write
usb_write-Wrote buf m = elim (Bool-cases (is_error m.fastboot_state)) [
  | inl bad ↦ rw (usb_write, bad) refl
  | inr good ↦ rw (usb_write, good) (written-Wrote buf m.completions m)
]

then_pure-Holds :
    {A B : Type 0} (P : Machine → Type 0) (b : B) (x : Io A)
    → Holds P x
    → Holds P (elim x as (λ _. Io B) [ done a m' ↦ done b m' | waits m' ↦ waits m' ])
then_pure-Holds P b (done a m) h = h
then_pure-Holds P b (waits m) h = h

ack-Wrote :
    (status : Text) (reason : Option Text) (m : Machine)
    → Holds (Wrote m.writes) (fastboot_ack status reason m)
unfolding fastboot_ack
ack-Wrote status reason m = elim (Bool-cases (is_command m.fastboot_state)) [
  | inr closed ↦ rw (fastboot_ack, closed) refl
  | inl asked ↦
      let buf = response (status ++ or_empty reason) in
      let m' : Machine = record m { fastboot_state = complete } in
      rw (fastboot_ack, asked)
        (then_pure-Holds (Wrote m.writes) tt (usb_write buf m') (usb_write-Wrote buf m'))
]

-- Nothing has been written, or once: from the beginning of the partition of this name, and no more
-- than its size.
abbrev pub IsInside : Text → Machine → Machine → Type 0
IsInside arg m m' =
    (m'.writes ≡ m.writes)
    ⊎ ((n : ℕ) × (b : List ℕ) × (partition_get_index m.table arg ≡ some n)
        × (length b ≤ partition_get_size m.table (some n))
        × (m'.writes ≡ (partition_get_offset m.table (some n), b) ∷ m.writes))

fail-IsInside :
    (arg : Text) (reason : Option Text) (m : Machine)
    → Holds (IsInside arg m) (fastboot_fail reason m)
fail-IsInside arg reason m =
    Holds-map (Wrote m.writes) (IsInside arg m) (fastboot_fail reason m) (λ m' e. inl e)
      (ack-Wrote (codes "FAIL") reason m)

-- An offset is that of a partition that is found.
offset_index :
    (t : Table) (arg : Text)
    → (partition_get_offset t (partition_get_index t arg) == 0) ≡ false
    → (n : ℕ) × (partition_get_index t arg ≡ some n)
unfolding partition_get_offset
offset_index t arg h = elim (Option-cases (partition_get_index t arg)) [
  | inl no_index ↦ absurd (ground (arith, ap (partition_get_offset t) no_index, h))
  | inr (n, e) ↦ (n, e)
]

length-memory : (board : Board) (m : Machine) (n i : ℕ) → length (memory board m n i) ≡ n
unfolding memory
length-memory board m zero i = refl
length-memory board m (suc n) i = ap suc (length-memory board m n (i + 1))

fits_round : (sz size : ℕ) → sz + 511 < 2 ^ 32 → ltb size (round_to_block sz) ≡ false → sz ≤ size
fits_round sz size l h = ground (arith, l, h)

either-Holds :
    {A : Type 0} (P : Machine → Type 0) (c : Bool) (x y : Io A)
    → (c ≡ true → Holds P x)
    → (c ≡ false → Holds P y)
    → Holds P (if c then x else y)
either-Holds P true x y h k = h refl
either-Holds P false x y h k = k refl

-- the one write, and the answer after it
write-IsInside :
    (board : Board) (arg : Text) (n : ℕ) (b : List ℕ) (reason : Text) (m : Machine)
    → partition_get_index m.table arg ≡ some n
    → length b ≤ size_of arg m
    → Holds
        (IsInside arg m)
        (write_or_fail board (offset_of arg m) b reason (fastboot_okay (some [])) m)
write-IsInside board arg n b reason m e l =
    let ws = (offset_of arg m, b) ∷ m.writes in
    let m' : Machine = record m { writes = ws } in
    let t = m.table in
    let inside : (m'' : Machine) → Wrote ws m'' → IsInside arg m m'' = λ m'' q. inr (
      n,
      b,
      e,
      subst (λ o. length b ≤ partition_get_size t o) e l,
      q ∙ ap (λ o. (partition_get_offset t o, b) ∷ m.writes) e,
    ) in
    elim (Bool-cases (board.mmc_write (offset_of arg m) b == 0)) [
      | inl good ↦
          rw good
            (Holds-map (Wrote ws) (IsInside arg m) _ inside (ack-Wrote (codes "OKAY") (some []) m'))
      | inr bad ↦ rw bad (
          Holds-map (Wrote ws) (IsInside arg m) _ inside
            (ack-Wrote (codes "FAIL") (some reason) m'))
    ]

-- For every name but "partition", `cmd_flash_mmc_img` writes at most once: from the beginning of the
-- partition of this name, and no more bytes than it has, whatever the table holds, if the size of the
-- download rounds up to a block in 32 bits.
pub cmd_flash_mmc_img-IsInside :
    (board : Board) (arg : Text) (m : Machine)
    → text_eq arg (codes "partition") ≡ false
    → m.download_size + 511 < 2 ^ 32
    → Holds (IsInside arg m) (cmd_flash_mmc_img board arg m)
unfolding cmd_flash_mmc_img
cmd_flash_mmc_img-IsInside board arg m other l =
    let p = IsInside arg m in
    let sz = m.download_size in
    let b = memory board m sz 0 in
    let reason = codes "flash write failure" in
    either-Holds p (text_eq arg (codes "partition")) _ _ (λ e. absurd (ground (arith, e, other)))
      (λ _.
        either-Holds p (offset_of arg m == 0) _ _ (λ _. fail-IsInside arg _ m)
          (λ found.
            either-Holds p
              ((text_eq arg (codes "boot") || text_eq arg (codes "recovery"))
                && not (has_boot_magic board m))
              _ _ (λ _. fail-IsInside arg _ m)
              (λ _.
                either-Holds p (ltb (size_of arg m) (round_to_block sz)) _ _
                  (λ _. fail-IsInside arg _ m)
                  (λ small.
                    let (n, e) = offset_index m.table arg found in
                    let fits = fits_round sz (size_of arg m) l small in
                    write-IsInside board arg n b reason m e
                      (omega (arith, fits, length-memory board m sz 0))))))
