-- ===== src/Lk/Fastboot/Commands.antt =====
-- The commands of fastboot, and the loop that reads and calls them, in
-- bootable/lk/app/aboot/fastboot.c.
use android4_4_4_r.Prelude.{
  ℕ, zero, suc, ◌+◌, ◌/◌, ◌%◌, ◌^◌, List, [], ◌∷◌, ◌++◌, length, drop, not, ◌||◌, Option, none,
  some, ltb, leb, ◌==◌, if◌then◌else◌, Text, codes, text_eq, has_prefix, c_string,
}
use android4_4_4_r.Lk.Fastboot.{
  hex2unsigned, FastbootVar, is_command, is_error, Machine, Io, M, pure, fastboot_publish, usb_read,
  usb_write, response, fastboot_ack, fastboot_fail, fastboot_okay, offline, command, error, done,
  waits, ◌>>=◌, ◌>>◌,
}

-- the value of the first variable of this name in the list, or else an empty one
unfoldable pub value_of : List FastbootVar → Text → Text
value_of [] arg = []
value_of (v ∷ vars) arg = if text_eq v.name arg then v.value else value_of vars arg

unfoldable pub cmd_getvar : Text → M (Unit {0})
unfolding value_of fastboot_ack
cmd_getvar arg m = fastboot_okay (some (value_of m.varlist arg)) m

-- the digit that `%x` prints
unfoldable pub print_digit : ℕ → ℕ
print_digit d = if ltb d 10 then 48 + d else 87 + d

-- `%08x`, for `n` digits
unfoldable pub print_hex : ℕ → ℕ → Text
unfolding print_digit
print_hex zero v = []
print_hex (suc n) v = print_hex n (v / 16) ++ print_digit (v % 16) ∷ []

-- from the call of `usb_read` on; a count from 2^31 on is negative
abbrev pub receive : ℕ → M (Unit {0})
receive len = do
  r ← usb_read len
  (λ m. elim r [
    | none ↦ done tt (record m { fastboot_state = error })
    | some b ↦
        if leb (2 ^ 31) (length b) || not (length b == len)
        then done tt (record m { fastboot_state = error; download = b })
        else fastboot_okay (some []) (record m { download_size = len; download = b })
  ])

unfoldable pub cmd_download : Text → M (Unit {0})
unfolding print_hex usb_read fastboot_ack
cmd_download arg m0 =
    let len = hex2unsigned arg in
    let m : Machine = record m0 { download_size = 0 } in
    let ask : M Unit = (do
      r ← usb_write (response (codes "DATA" ++ print_hex 8 len))
      elim r [ none ↦ pure tt | some n ↦ receive len ]) in
    if ltb m.download_max len then fastboot_fail (some (codes "data too large")) m else ask m

-- `struct fastboot_cmd`
pub record FastbootCmd : Type 0 where
  pub prefix : Text
  pub handle : Text → M (Unit {0})

-- `fastboot_register`, where there is memory
abbrev pub fastboot_register : Text → (Text → M (Unit {0})) → List FastbootCmd → List FastbootCmd
fastboot_register prefix handle cmdlist = (record { prefix = prefix; handle = handle }) ∷ cmdlist

-- what is done where the handler has not answered
abbrev pub unless_answered : M (Unit {0})
unless_answered m =
    if is_command m.fastboot_state
    then fastboot_fail (some (codes "unknown reason")) m
    else done tt m

-- The search for a command, and its call. The bytes behind the terminator do not count, since no
-- prefix has one.
unfoldable pub dispatch : List FastbootCmd → Text → M (Unit {0})
unfolding fastboot_ack
dispatch [] text m = fastboot_fail (some (codes "unknown command")) m
dispatch (c ∷ cmds) text m =
    let rest = dispatch cmds text m in
    let call : M Unit = (do c.handle (drop (length c.prefix) text); unless_answered) in
    if has_prefix c.prefix text then call (record m { fastboot_state = command }) else rest

-- `none` where the fuel runs out
unfoldable pub fastboot_command_loop : ℕ → List FastbootCmd → Machine → Option (Io (Unit {0}))
unfolding usb_read dispatch
fastboot_command_loop zero cmds m = none
fastboot_command_loop (suc f) cmds m =
    let leave : Machine → Option (Io Unit) =
      λ m'. some (done tt (record m' { fastboot_state = offline })) in
    let round : Option (Io Unit) = elim (usb_read 64 m) [
      | waits m' ↦ some (waits m')
      | done r m' ↦ elim r [
        | none ↦ leave m'
        | some b ↦ elim (dispatch cmds (c_string b) m') [
          | waits m'' ↦ some (waits m'')
          | done _ m'' ↦ fastboot_command_loop f cmds m''
        ]
      ]
    ] in
    if is_error m.fastboot_state then leave m else round

-- the commands and the variable of `fastboot_init`
abbrev pub registered : List FastbootCmd
registered =
    fastboot_register (codes "download:") cmd_download
      (fastboot_register (codes "getvar:") cmd_getvar [])

abbrev pub published : Machine → Machine
published m = fastboot_publish (codes "version") (codes "0.5") m
