-- ===== src/Lk/Fastboot/Reads.antt =====
-- What `usb_read` keeps, and what it takes.
use android4_4_4_r.Prelude.{
  ℕ, suc, ◌-◌, ◌≤◌, ◌<◌, ◌≡◌, ◌∙◌, ap, refl, arith, List, [], ◌∷◌, ◌++◌, length, Bool-cases, inl,
  inr, false, Option, none, some, ◌==◌,
}
use android4_4_4_r.Lk.Fastboot.{
  FastbootState, error, is_error, Completion, refused, broken, moved, Machine, Io, done, waits,
  bulk, read_loop, usb_read,
}
use android4_4_4_r.Lk.Fastboot.Answers.{finals, owed, IsKeptBy}

-- What a read leaves, where at most `k` completions are left then.
pub record IsReadTo (k : ℕ) (m m' : Machine) : Type 0 where
  pub left : length m'.completions ≤ k
  pub sent : m'.sent ≡ m.sent
  pub max : m'.download_max ≡ m.download_max
  pub size : m'.download_size ≡ m.download_size
  pub content : m'.download ≡ m.download

abbrev pub IsRead : ℕ → Machine → Io (Option (List ℕ)) → Type 0
IsRead k m (done none m') = IsReadTo k m m' × (m'.fastboot_state ≡ error)
IsRead k m (done (some b) m') = IsReadTo k m m' × (m'.fastboot_state ≡ m.fastboot_state)
IsRead k m (waits m') =
    IsReadTo k m m' × (m'.completions ≡ []) × (m'.fastboot_state ≡ m.fastboot_state)

IsReadTo-refl :
    (s : List Completion) (m : Machine) (e : FastbootState)
    → IsReadTo (length s) m (record m { completions = s; fastboot_state = e })
IsReadTo-refl s m e = record {
  left = omega arith;
  sent = refl;
  max = refl;
  size = refl;
  content = refl;
}

-- A round takes a completion.
round-IsRead :
    (c : Completion) (s : List Completion) (len : ℕ) (got : List ℕ) (m : Machine)
    → (len == 0) ≡ false
    → ((b : List ℕ) → IsRead (length s) m (read_loop s (len - bulk len) (got ++ b) m))
    → IsRead (length s) m (read_loop (c ∷ s) len got m)
unfolding read_loop
round-IsRead refused s len got m z rest = rw (read_loop, z) (IsReadTo-refl s m error, refl)
round-IsRead broken s len got m z rest = rw (read_loop, z) (IsReadTo-refl s m error, refl)
round-IsRead (moved b) s len got m z rest = elim (Bool-cases (length b == bulk len)) [
  | inl whole ↦ rw (read_loop, z) (rw whole (rest b))
  | inr short ↦ rw (read_loop, z) (rw short (IsReadTo-refl s m m.fastboot_state, refl))
]

wider-IsRead : (k : ℕ) (m : Machine) (x : Io (Option (List ℕ))) → IsRead k m x → IsRead (suc k) m x
wider-IsRead k m (done none m') (h, e) = (
  record {
    left = omega (arith, h.left);
    sent = h.sent;
    max = h.max;
    size = h.size;
    content = h.content;
  },
  e,
)
wider-IsRead k m (done (some b) m') (h, e) = (
  record {
    left = omega (arith, h.left);
    sent = h.sent;
    max = h.max;
    size = h.size;
    content = h.content;
  },
  e,
)
wider-IsRead k m (waits m') (h, over, e) = (
  record {
    left = omega (arith, h.left);
    sent = h.sent;
    max = h.max;
    size = h.size;
    content = h.content;
  },
  over,
  e,
)

read_loop-IsRead :
    (s : List Completion) (len : ℕ) (got : List ℕ) (m : Machine)
    → IsRead (length s) m (read_loop s len got m)
unfolding read_loop
read_loop-IsRead [] len got m = elim (Bool-cases (len == 0)) [
  | inl all ↦ rw (read_loop, all) (IsReadTo-refl [] m m.fastboot_state, refl)
  | inr more ↦ rw (read_loop, more) (IsReadTo-refl [] m m.fastboot_state, refl, refl)
]
read_loop-IsRead (c ∷ s) len got m = elim (Bool-cases (len == 0)) [
  | inl all ↦ rw (read_loop, all) (IsReadTo-refl (c ∷ s) m m.fastboot_state, refl)
  | inr z ↦
      wider-IsRead (length s) m (read_loop (c ∷ s) len got m)
        (round-IsRead c s len got m z (λ b. read_loop-IsRead s (len - bulk len) (got ++ b) m))
]

-- A read takes no completion where there is an error, and waits only where none is left.
pub usb_read-IsRead : (len : ℕ) (m : Machine) → IsRead (length m.completions) m (usb_read len m)
unfolding usb_read
usb_read-IsRead len m = elim (Bool-cases (is_error m.fastboot_state)) [
  | inl bad ↦ rw (usb_read, bad) (IsReadTo-refl m.completions m error, refl)
  | inr good ↦ rw (usb_read, good) (read_loop-IsRead m.completions len [] m)
]

-- A read that returns bytes has taken a completion.
abbrev pub Takes : ℕ → Io (Option (List ℕ)) → Type 0
Takes n (done none m) = Unit
Takes n (done (some b) m) = length m.completions < n
Takes n (waits m) = Unit

IsRead-Takes : (k : ℕ) (m : Machine) (x : Io (Option (List ℕ))) → IsRead k m x → Takes (suc k) x
IsRead-Takes k m (done none m') h = tt
IsRead-Takes k m (done (some b) m') (h, e) = omega (arith, h.left)
IsRead-Takes k m (waits m') h = tt

read_loop-Takes :
    (s : List Completion) (len : ℕ) (got : List ℕ) (m : Machine)
    → (len == 0) ≡ false
    → Takes (length s) (read_loop s len got m)
unfolding read_loop
read_loop-Takes [] len got m z = rw (read_loop, z) tt
read_loop-Takes (c ∷ s) len got m z =
    IsRead-Takes (length s) m (read_loop (c ∷ s) len got m)
      (round-IsRead c s len got m z (λ b. read_loop-IsRead s (len - bulk len) (got ++ b) m))

pub usb_read-Takes :
    (len : ℕ) (m : Machine) → (len == 0) ≡ false → Takes (length m.completions) (usb_read len m)
unfolding usb_read
usb_read-Takes len m z = elim (Bool-cases (is_error m.fastboot_state)) [
  | inl bad ↦ rw (usb_read, bad) tt
  | inr good ↦ rw (usb_read, good) (read_loop-Takes m.completions len [] m z)
]

IsRead-IsKeptBy :
    (m : Machine) (x : Io (Option (List ℕ))) → IsRead (length m.completions) m x → IsKeptBy m x
IsRead-IsKeptBy m (done none m') (h, e) = record {
  sticky = λ _. ap is_error e;
  answered = λ k. ground (arith, ap is_error e, k);
  bounded = omega (arith, ap finals h.sent, ap owed e);
  shorter = h.left;
}
IsRead-IsKeptBy m (done (some b) m') (h, e) = record {
  sticky = λ k. ap is_error e ∙ k;
  answered = λ _. omega (arith, ap finals h.sent, ap owed e);
  bounded = omega (arith, ap finals h.sent, ap owed e);
  shorter = h.left;
}
IsRead-IsKeptBy m (waits m') (h, over, e) = record {
  over = over;
  bounded = omega (arith, ap finals h.sent, ap owed e);
}

pub usb_read-IsKeptBy : (len : ℕ) (m : Machine) → IsKeptBy m (usb_read len m)
usb_read-IsKeptBy len m = IsRead-IsKeptBy m (usb_read len m) (usb_read-IsRead len m)
