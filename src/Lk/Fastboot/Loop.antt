-- ===== src/Lk/Fastboot/Loop.antt =====
-- The loop over the commands ends, or waits for the host.
use android4_4_4_r.Prelude.{
  ℕ, zero, suc, ◌<◌, ◌≡◌, subst, refl, arith, List, [], length, All, Bool-cases, ◌⊎◌, inl, inr,
  Option-cases, some, c_string,
}
use android4_4_4_r.Lk.Fastboot.{offline, is_error, Machine, Io, done, waits, usb_read}
use android4_4_4_r.Lk.Fastboot.Commands.{FastbootCmd, dispatch, fastboot_command_loop}
use android4_4_4_r.Lk.Fastboot.Reads.{usb_read-IsRead, usb_read-Takes, IsRead, Takes}
use android4_4_4_r.Lk.Fastboot.Dispatch.{IsHandler, IsShort, dispatch-IsShort}

-- The loop has been left, in STATE_OFFLINE, or waits where no completion is left.
abbrev pub IsEnd : Io (Unit {0}) → Type 0
IsEnd (done u m) = m.fastboot_state ≡ offline
IsEnd (waits m) = m.completions ≡ []

Io-cases :
    {A : Type 0} (x : Io A)
    → ((a : A) × (m : Machine) × (x ≡ done a m)) ⊎ ((m : Machine) × (x ≡ waits m))
Io-cases (done a m) = inl (a, m, refl)
Io-cases (waits m) = inr (m, refl)

-- Where the handlers keep to their rules, the loop over the commands comes to an end, however the
-- requests complete: it needs no more rounds than there are completions, and one more. It is left in
-- STATE_OFFLINE, or it waits for a request, when no completion is left.
pub fastboot_command_loop-IsEnd :
    (f : ℕ) (cmds : List FastbootCmd) (m : Machine)
    → All (λ c. IsHandler c.handle) cmds
    → length m.completions < f
    → (x : Io (Unit {0})) × (fastboot_command_loop f cmds m ≡ some x) × IsEnd x
unfolding fastboot_command_loop
fastboot_command_loop-IsEnd zero cmds m h l = absurd (omega (arith, l))
fastboot_command_loop-IsEnd (suc f) cmds m h l =
    let left : Machine → Machine = λ m'. record m' { fastboot_state = offline } in
    elim (Bool-cases (is_error m.fastboot_state)) [
      | inl bad ↦ (done tt (left m), rw (fastboot_command_loop, bad) refl, refl)
      | inr good ↦
          let read = usb_read-IsRead 64 m in
          let takes = usb_read-Takes 64 m refl in
          elim (Io-cases (usb_read 64 m)) [
            | inr (m', e) ↦
                let (_, over, _) = subst (IsRead (length m.completions) m) e read in
                (waits m', rw (fastboot_command_loop, e) (rw good refl), over)
            | inl (r, m', e) ↦ elim (Option-cases r) [
              | inl ends ↦
                  (done tt (left m'), rw (fastboot_command_loop, e) (rw ends (rw good refl)), refl)
              | inr (b, whole) ↦
                  let fewer =
                    subst (λ r. Takes (length m.completions) (done r m')) whole
                      (subst (Takes (length m.completions)) e takes) in
                  let x = dispatch cmds (c_string b) m' in
                  let short = dispatch-IsShort cmds (c_string b) m' h in
                  elim (Io-cases x) [
                    | inr (m'', q) ↦ (
                      waits m'',
                      rw (fastboot_command_loop, e) (rw whole (rw q (rw good refl))),
                      subst (IsShort (length m'.completions)) q short,
                    )
                    | inl (u, m'', q) ↦
                        let le = subst (IsShort (length m'.completions)) q short in
                        let (y, eq, end) =
                          fastboot_command_loop-IsEnd f cmds m'' h (omega (arith, fewer, le, l)) in
                        (y, rw (fastboot_command_loop, e) (rw whole (rw q (rw good eq))), end)
                  ]
            ]
          ]
    ]
