-- ===== src/Lk/Fastboot/Dispatch.antt =====
-- The search for a command, and its call: each known command gets one answer.
use android4_4_4_r.Prelude.{
  ℕ, ◌+◌, ◌≤◌, ◌≡◌, refl, arith, List, [], ◌∷◌, ◌++◌, length, drop, All, Bool, Bool-cases, ◌⊎◌, inl,
  inr, true, false, ◌||◌, Option, some, Text, codes, has_prefix,
}
use android4_4_4_r.Lk.Fastboot.{
  FastbootState, offline, command, complete, error, is_command, is_error, Completion, refused,
  broken, moved, Machine, Io, done, waits, M, ◌>>◌, written, usb_write, response, or_empty,
  fastboot_ack, fastboot_fail,
}
use android4_4_4_r.Lk.Fastboot.Commands.{unless_answered, FastbootCmd, dispatch}
use android4_4_4_r.Lk.Fastboot.Answers.{
  finals, owed, IsKeptBy, >>=-IsKeptBy, fail-IsKeptBy, IsKept-refl,
}

-- What a handler of a command keeps to: it answers at most once, leaves an error, and takes
-- completions off the list only.
abbrev pub IsHandler : (Text → M (Unit {0})) → Type 0
IsHandler handle = (arg : Text) (m : Machine) → IsKeptBy m (handle arg m)

-- Nothing more is owed when the call returns.
abbrev IsClosed : {A : Type 0} → Io A → Type 0
IsClosed (done a m) = is_command m.fastboot_state ≡ false
IsClosed (waits m) = Unit

written-IsClosed :
    (buf : Text) (s : List Completion) (m : Machine)
    → is_command m.fastboot_state ≡ false
    → IsClosed (written buf s m)
written-IsClosed buf [] m h = tt
written-IsClosed buf (refused ∷ s) m h = refl
written-IsClosed buf (broken ∷ s) m h = refl
written-IsClosed buf (moved b ∷ s) m h = h

then_pure-IsClosed :
    {A B : Type 0} (b : B) (x : Io A)
    → IsClosed x
    → IsClosed (elim x as (λ _. Io B) [ done a m' ↦ done b m' | waits m' ↦ waits m' ])
then_pure-IsClosed b (done a m) h = h
then_pure-IsClosed b (waits m) h = h

fastboot_ack-IsClosed :
    (status : Text) (reason : Option Text) (m : Machine) → IsClosed (fastboot_ack status reason m)
unfolding fastboot_ack usb_write
fastboot_ack-IsClosed status reason m = elim (Bool-cases (is_command m.fastboot_state)) [
  | inr closed ↦ rw (fastboot_ack, closed) closed
  | inl asked ↦
      let buf = response (status ++ or_empty reason) in
      let m' : Machine = record m { fastboot_state = complete } in
      rw (fastboot_ack, asked)
        (then_pure-IsClosed tt (usb_write buf m') (written-IsClosed buf m.completions m' refl))
]

unless_answered-IsClosed : (m : Machine) → IsClosed (unless_answered m)
unless_answered-IsClosed m = elim (Bool-cases (is_command m.fastboot_state)) [
  | inr closed ↦ rw closed closed
  | inl asked ↦ rw asked (fastboot_ack-IsClosed (codes "FAIL") (some (codes "unknown reason")) m)
]

unless_answered-IsKeptBy : (m : Machine) → IsKeptBy m (unless_answered m)
unless_answered-IsKeptBy m = elim (Bool-cases (is_command m.fastboot_state)) [
  | inr closed ↦ rw closed (IsKept-refl m)
  | inl asked ↦ rw asked (fail-IsKeptBy (some (codes "unknown reason")) m)
]

-- the call of a handler, and what follows it
abbrev call : FastbootCmd → Text → M (Unit {0})
call c text = c.handle (drop (length c.prefix) text) >> unless_answered

call-IsKeptBy :
    (c : FastbootCmd) (text : Text) (m : Machine) → IsHandler c.handle → IsKeptBy m (call c text m)
call-IsKeptBy c text m h =
    let arg = drop (length c.prefix) text in
    >>=-IsKeptBy m (c.handle arg m) (λ u. unless_answered) (h arg m) (λ u. unless_answered-IsKeptBy)

then_unless-IsClosed :
    (x : Io (Unit {0}))
    → IsClosed (elim x as (λ _. Io Unit) [ done a m' ↦ unless_answered m' | waits m' ↦ waits m' ])
then_unless-IsClosed (done a m) = unless_answered-IsClosed m
then_unless-IsClosed (waits m) = tt

-- One answer has been sent, or there is an error, and at most one has; where the call waits for the
-- host, at most one has.
abbrev pub IsAnswered : Machine → Io (Unit {0}) → Type 0
IsAnswered m (done u m') =
    ((is_error m'.fastboot_state ≡ false) × (finals m'.sent ≡ finals m.sent + 1))
    ⊎ ((is_error m'.fastboot_state ≡ true) × (finals m'.sent ≤ finals m.sent + 1))
IsAnswered m (waits m') = (m'.completions ≡ []) × (finals m'.sent ≤ finals m.sent + 1)

closed_owed : (s : FastbootState) → is_command s ≡ false → owed s ≡ 0
closed_owed command e = absurd (ground (arith, e))
closed_owed offline e = refl
closed_owed complete e = refl
closed_owed error e = refl

kept-IsAnswered :
    (m : Machine) (x : Io (Unit {0}))
    → IsKeptBy (record m { fastboot_state = command }) x
    → IsClosed x
    → IsAnswered m x
kept-IsAnswered m (done u m') k c = elim (Bool-cases (is_error m'.fastboot_state)) [
  | inl bad ↦ inr (bad, omega (arith, k.bounded))
  | inr good ↦ inl (good, omega (arith, k.answered good, closed_owed m'.fastboot_state c))
]
kept-IsAnswered m (waits m') k c = (k.over, omega (arith, k.bounded))

-- Some registered command is a prefix of the text.
unfoldable pub is_known : List FastbootCmd → Text → Bool
is_known [] text = false
is_known (c ∷ cmds) text = has_prefix c.prefix text || is_known cmds text

-- Where the handlers keep to their rules, a known command is answered once, by OKAY or FAIL,
-- whatever its handler does, unless the connection fails.
pub dispatch-IsAnswered :
    (cmds : List FastbootCmd) (text : Text) (m : Machine)
    → All (λ c. IsHandler c.handle) cmds
    → is_known cmds text ≡ true
    → IsAnswered m (dispatch cmds text m)
unfolding dispatch is_known
dispatch-IsAnswered [] text m h e = absurd (ground (arith, e))
dispatch-IsAnswered (c ∷ cmds) text m (h, hs) e = elim (Bool-cases (has_prefix c.prefix text)) [
  | inr other ↦ rw (dispatch, other) (dispatch-IsAnswered cmds text m hs (ground (arith, e, other)))
  | inl same ↦
      let m' : Machine = record m { fastboot_state = command } in
      let arg = drop (length c.prefix) text in
      rw (dispatch, same)
        (kept-IsAnswered m (call c text m') (call-IsKeptBy c text m' h)
          (then_unless-IsClosed (c.handle arg m')))
]

-- Nothing is answered to an unknown command: `fastboot_fail` acts in STATE_COMMAND only.
pub dispatch-unknown :
    (cmds : List FastbootCmd) (text : Text) (m : Machine)
    → is_known cmds text ≡ false
    → is_command m.fastboot_state ≡ false
    → dispatch cmds text m ≡ done tt m
unfolding dispatch is_known fastboot_ack
dispatch-unknown [] text m e c = rw (fastboot_ack, c) refl
dispatch-unknown (cmd ∷ cmds) text m e c =
    let other : has_prefix cmd.prefix text ≡ false = ground (arith, e) in
    rw (dispatch, other) (dispatch-unknown cmds text m (ground (arith, e)) c)

-- What is left of the completions.
abbrev pub IsShort : ℕ → Io (Unit {0}) → Type 0
IsShort n (done u m) = length m.completions ≤ n
IsShort n (waits m) = m.completions ≡ []

kept-IsShort : (m : Machine) (x : Io (Unit {0})) → IsKeptBy m x → IsShort (length m.completions) x
kept-IsShort m (done u m') k = k.shorter
kept-IsShort m (waits m') k = k.over

pub dispatch-IsShort :
    (cmds : List FastbootCmd) (text : Text) (m : Machine)
    → All (λ c. IsHandler c.handle) cmds
    → IsShort (length m.completions) (dispatch cmds text m)
unfolding dispatch
dispatch-IsShort [] text m h =
    let reason = some (codes "unknown command") in
    kept-IsShort m (fastboot_fail reason m) (fail-IsKeptBy reason m)
dispatch-IsShort (c ∷ cmds) text m (h, hs) = elim (Bool-cases (has_prefix c.prefix text)) [
  | inr other ↦ rw (dispatch, other) (dispatch-IsShort cmds text m hs)
  | inl same ↦
      let m' : Machine = record m { fastboot_state = command } in
      rw (dispatch, same) (kept-IsShort m' (call c text m') (call-IsKeptBy c text m' h))
]
