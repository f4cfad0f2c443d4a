-- ===== src/Lk/Fastboot/Kept.antt =====
-- `cmd_download` keeps to the rules of a handler.
use android4_4_4_r.Prelude.{
  ℕ, ◌^◌, refl, arith, List, [], ◌++◌, length, Bool-cases, inl, inr, not, ◌||◌, Option, none, some,
  ltb, leb, ◌==◌, if◌then◌else◌, Text, codes,
}
use android4_4_4_r.Lk.Fastboot.{
  error, Machine, Io, done, M, pure, usb_read, usb_write, response, fastboot_okay, hex2unsigned,
}
use android4_4_4_r.Lk.Fastboot.Commands.{receive, print_hex, cmd_download}
use android4_4_4_r.Lk.Fastboot.Answers.{
  is_final, IsKept, IsKeptBy, IsKept-refl, then-IsKeptBy, >>=-IsKeptBy, fail-IsKeptBy,
  okay-IsKeptBy, usb_write-IsKeptBy,
}
use android4_4_4_r.Lk.Fastboot.Reads.{usb_read-IsKeptBy}

-- A change of the download alone keeps the rest.
aside-IsKept :
    (m : Machine) (size : ℕ) (b : List ℕ)
    → IsKept m (record m { download_size = size; download = b })
aside-IsKept m size b = record {
  sticky = λ e. e;
  answered = λ e. refl;
  bounded = omega arith;
  shorter = omega arith;
}

broken_off-IsKept :
    (m : Machine) (b : List ℕ) → IsKept m (record m { fastboot_state = error; download = b })
broken_off-IsKept m b = record {
  sticky = λ e. refl;
  answered = λ e. ground (arith, e);
  bounded = omega arith;
  shorter = omega arith;
}

received-IsKeptBy :
    (len : ℕ) (r : Option (List ℕ)) (m : Machine)
    → IsKeptBy m (elim r as (λ _. Io Unit) [
      | none ↦ done tt (record m { fastboot_state = error })
      | some b ↦
          if leb (2 ^ 31) (length b) || not (length b == len)
          then done tt (record m { fastboot_state = error; download = b })
          else fastboot_okay (some []) (record m { download_size = len; download = b })
    ])
received-IsKeptBy len none m = broken_off-IsKept m m.download
received-IsKeptBy len (some b) m =
    elim (Bool-cases (leb (2 ^ 31) (length b) || not (length b == len))) [
      | inl bad ↦ rw bad (broken_off-IsKept m b)
      | inr good ↦
          let m' : Machine = record m { download_size = len; download = b } in
          rw good (
            then-IsKeptBy m m' (fastboot_okay (some []) m') (aside-IsKept m len b)
              (okay-IsKeptBy (some []) m'))
    ]

receive-IsKeptBy : (len : ℕ) (m : Machine) → IsKeptBy m (receive len m)
receive-IsKeptBy len m =
    >>=-IsKeptBy m (usb_read len m) _ (usb_read-IsKeptBy len m) (λ r m'. received-IsKeptBy len r m')

asked-IsKeptBy :
    (len : ℕ) (r : Option ℕ) (m : Machine)
    → IsKeptBy m ((elim r as (λ _. M Unit) [ none ↦ pure tt | some n ↦ receive len ]) m)
asked-IsKeptBy len none m = IsKept-refl m
asked-IsKeptBy len (some n) m = receive-IsKeptBy len m

pub cmd_download-IsKeptBy : (arg : Text) (m : Machine) → IsKeptBy m (cmd_download arg m)
unfolding cmd_download is_final
cmd_download-IsKeptBy arg m0 =
    let len = hex2unsigned arg in
    let m : Machine = record m0 { download_size = 0 } in
    let start = aside-IsKept m0 0 m0.download in
    let ask = response (codes "DATA" ++ print_hex 8 len) in
    elim (Bool-cases (ltb m.download_max len)) [
      | inl large ↦
          rw (cmd_download, large)
            (then-IsKeptBy m0 m _ start (fail-IsKeptBy (some (codes "data too large")) m))
      | inr fits ↦
          rw (cmd_download, fits)
            (then-IsKeptBy m0 m _ start (
              >>=-IsKeptBy m (usb_write ask m) _ (usb_write-IsKeptBy ask m refl)
                (asked-IsKeptBy len)))
    ]
