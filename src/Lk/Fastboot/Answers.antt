-- ===== src/Lk/Fastboot/Answers.antt =====
-- The answers to the host: what each call of fastboot.c keeps.
use android4_4_4_r.Prelude.{
  ℕ, ◌+◌, ◌≤◌, ◌≡◌, ◌∙◌, refl, arith, List, [], ◌∷◌, ◌++◌, length, Bool, Bool-cases, inl, inr, true,
  false, ◌||◌, Option, none, some, if◌then◌else◌, Text, codes, has_prefix,
}
use android4_4_4_r.Lk.Fastboot.{
  FastbootState, command, complete, error, is_command, is_error, Completion, refused, broken, moved,
  Machine, Io, done, waits, M, pure, written, usb_write, response, or_empty, fastboot_ack,
  fastboot_info, fastboot_fail, fastboot_okay,
}
use android4_4_4_r.Lk.Fastboot.Commands.{cmd_getvar, value_of}

-- the responses that end a command
unfoldable pub is_final : Text → Bool
unfolding has_prefix
is_final x = has_prefix (codes "OKAY") x || has_prefix (codes "FAIL") x

abbrev pub finals : List Text → ℕ
finals [] = 0
finals (x ∷ xs) = (if is_final x then 1 else 0) + finals xs

finals-append :
    (xs : List Text) (x : Text) → finals (xs ++ x ∷ []) ≡ finals xs + (if is_final x then 1 else 0)
finals-append [] x = omega arith
finals-append (y ∷ xs) x = omega (arith, finals-append xs x)

-- the responses that the host is still to get
abbrev pub owed : FastbootState → ℕ
owed command = 1
owed _ = 0

abbrev pub due : Machine → ℕ
due m = finals m.sent + owed m.fastboot_state

-- The responses sent and owed stay the same, but that an error may swallow one; an error stays.
pub record IsKept (m m' : Machine) : Type 0 where
  pub sticky : is_error m.fastboot_state ≡ true → is_error m'.fastboot_state ≡ true
  pub answered : is_error m'.fastboot_state ≡ false → due m' ≡ due m
  pub bounded : due m' ≤ due m
  pub shorter : length m'.completions ≤ length m.completions

-- A call waits only where no completion is left.
pub record IsBlocked (m m' : Machine) : Type 0 where
  pub over : m'.completions ≡ []
  pub bounded : due m' ≤ due m

abbrev pub IsKeptBy : {A : Type 0} → Machine → Io A → Type 0
IsKeptBy m (done a m') = IsKept m m'
IsKeptBy m (waits m') = IsBlocked m m'

pub IsKept-refl : (m : Machine) → IsKept m m
IsKept-refl m = record {
  sticky = λ e. e;
  answered = λ e. refl;
  bounded = omega arith;
  shorter = omega arith;
}

error_before :
    (s s' : FastbootState)
    → (is_error s ≡ true → is_error s' ≡ true)
    → is_error s' ≡ false
    → is_error s ≡ false
error_before s s' h e = elim (Bool-cases (is_error s)) [
  | inl bad ↦ absurd (ground (arith, h bad, e))
  | inr good ↦ good
]

pub IsKept-trans : (m m' m'' : Machine) → IsKept m m' → IsKept m' m'' → IsKept m m''
IsKept-trans m m' m'' h k = record {
  sticky = λ e. k.sticky (h.sticky e);
  answered =
      λ e. k.answered e ∙ h.answered (error_before m'.fastboot_state m''.fastboot_state k.sticky e);
  bounded = omega (arith, h.bounded, k.bounded);
  shorter = omega (arith, h.shorter, k.shorter);
}

pub then-IsKeptBy :
    {A : Type 0} (m m' : Machine) (x : Io A) → IsKept m m' → IsKeptBy m' x → IsKeptBy m x
then-IsKeptBy m m' (done a m'') h k = IsKept-trans m m' m'' h k
then-IsKeptBy m m' (waits m'') h k = record {
  over = k.over;
  bounded = omega (arith, h.bounded, k.bounded);
}

-- A call and what follows keep what both keep.
pub >>=-IsKeptBy :
    {A B : Type 0} (m : Machine) (x : Io A) (f : A → M B)
    → IsKeptBy m x
    → ((a : A) (m' : Machine) → IsKeptBy m' (f a m'))
    → IsKeptBy m (elim x as (λ _. Io B) [ done a m' ↦ f a m' | waits m' ↦ waits m' ])
>>=-IsKeptBy m (done a m') f h k = then-IsKeptBy m m' (f a m') h (k a m')
>>=-IsKeptBy m (waits m') f h k = h

-- A completion of a write, by a machine that owes as much before as it does with the response sent.
written-IsKeptBy :
    (buf : Text) (s : List Completion) (m m0 : Machine)
    → is_error m.fastboot_state ≡ false
    → is_error m0.fastboot_state ≡ false
    → due m + (if is_final buf then 1 else 0) ≡ due m0
    → length s ≤ length m0.completions
    → m.completions ≡ s
    → IsKeptBy m0 (written buf s m)
written-IsKeptBy buf [] m m0 g g0 d l c = record { over = c; bounded = omega (arith, d) }
written-IsKeptBy buf (refused ∷ s) m m0 g g0 d l c = record {
  sticky = λ e. refl;
  answered = λ e. ground (arith, e);
  bounded = omega (arith, d);
  shorter = omega (arith, l);
}
written-IsKeptBy buf (broken ∷ s) m m0 g g0 d l c = record {
  sticky = λ e. refl;
  answered = λ e. ground (arith, e);
  bounded = omega (arith, d);
  shorter = omega (arith, l);
}
written-IsKeptBy buf (moved b ∷ s) m m0 g g0 d l c = record {
  sticky = λ e. ground (arith, e, g0);
  answered = λ e. omega (arith, finals-append m.sent buf, d);
  bounded = omega (arith, finals-append m.sent buf, d);
  shorter = omega (arith, l);
}

-- The end of a failed call.
pub oops-IsKept :
    (m : Machine) (s : List Completion)
    → length s ≤ length m.completions
    → IsKept m (record m { fastboot_state = error; completions = s })
oops-IsKept m s l = record {
  sticky = λ e. refl;
  answered = λ e. ground (arith, e);
  bounded = omega arith;
  shorter = l;
}

pub usb_write-IsKeptBy :
    (buf : Text) (m : Machine) → is_final buf ≡ false → IsKeptBy m (usb_write buf m)
unfolding usb_write
usb_write-IsKeptBy buf m h = elim (Bool-cases (is_error m.fastboot_state)) [
  | inl bad ↦ rw (usb_write, bad) (oops-IsKept m m.completions (omega arith))
  | inr good ↦
      rw (usb_write, good)
        (written-IsKeptBy buf m.completions m m good good (ground (arith, h)) (omega arith) refl)
]

pub fastboot_info-IsKeptBy :
    (reason : Option Text) (m : Machine) → IsKeptBy m (fastboot_info reason m)
unfolding fastboot_info is_final
fastboot_info-IsKeptBy none m = IsKept-refl m
fastboot_info-IsKeptBy (some reason) m = elim (Bool-cases (is_command m.fastboot_state)) [
  | inr closed ↦ rw (fastboot_info, closed) (IsKept-refl m)
  | inl asked ↦
      let buf = response (codes "INFO" ++ reason) in
      rw (fastboot_info, asked)
        (>>=-IsKeptBy m (usb_write buf m) (λ r. pure tt) (usb_write-IsKeptBy buf m refl)
          (λ r. IsKept-refl))
]

-- An answer is sent once: whoever owes one sends it, and whoever does not sends nothing.
ack-IsKeptBy :
    (status reason : Text) (m : Machine)
    → is_final (response (status ++ reason)) ≡ true
    → is_command m.fastboot_state ≡ true
    → IsKeptBy m (usb_write (response (status ++ reason)) (record m { fastboot_state = complete }))
unfolding usb_write
ack-IsKeptBy status reason m h c =
    written-IsKeptBy (response (status ++ reason)) m.completions
      (record m { fastboot_state = complete }) m refl (ground (arith, c)) (ground (arith, h, c))
      (omega arith) refl

fastboot_ack-IsKeptBy :
    (status : Text) (reason : Option Text) (m : Machine)
    → is_final (response (status ++ or_empty reason)) ≡ true
    → IsKeptBy m (fastboot_ack status reason m)
unfolding fastboot_ack
fastboot_ack-IsKeptBy status reason m h = elim (Bool-cases (is_command m.fastboot_state)) [
  | inr closed ↦ rw (fastboot_ack, closed) (IsKept-refl m)
  | inl asked ↦
      let buf = response (status ++ or_empty reason) in
      let m' : Machine = record m { fastboot_state = complete } in
      rw (fastboot_ack, asked)
        (>>=-IsKeptBy m (usb_write buf m') (λ r. pure tt)
          (ack-IsKeptBy status (or_empty reason) m h asked) (λ r. IsKept-refl))
]

pub fail-IsKeptBy : (reason : Option Text) (m : Machine) → IsKeptBy m (fastboot_fail reason m)
unfolding is_final
fail-IsKeptBy reason m = fastboot_ack-IsKeptBy (codes "FAIL") reason m refl

pub okay-IsKeptBy : (info : Option Text) (m : Machine) → IsKeptBy m (fastboot_okay info m)
unfolding is_final
okay-IsKeptBy info m = fastboot_ack-IsKeptBy (codes "OKAY") info m refl

pub cmd_getvar-IsKeptBy : (arg : Text) (m : Machine) → IsKeptBy m (cmd_getvar arg m)
unfolding cmd_getvar
cmd_getvar-IsKeptBy arg m = okay-IsKeptBy (some (value_of m.varlist arg)) m
