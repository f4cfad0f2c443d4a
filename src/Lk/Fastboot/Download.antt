-- ===== src/Lk/Fastboot/Download.antt =====
-- The download of an image, by `cmd_download`.
use android4_4_4_r.Prelude.{
  ℕ, ◌≤◌, ◌^◌, ◌≡◌, ◌∙◌, ap, refl, arith, List, [], ◌∷◌, ◌++◌, length, Bool, Bool-cases, ◌⊎◌, inl,
  inr, false, not, ◌||◌, Option, none, some, ltb, leb, ◌==◌, if◌then◌else◌, Text, codes,
}
use android4_4_4_r.Lk.Fastboot.{
  complete, error, is_command, is_error, Completion, refused, broken, moved, Machine, Io, done,
  waits, M, pure, written, usb_read, usb_write, response, or_empty, fastboot_ack, fastboot_okay,
  hex2unsigned,
}
use android4_4_4_r.Lk.Fastboot.Commands.{receive, print_hex, cmd_download}
use android4_4_4_r.Lk.Fastboot.Reads.{usb_read-IsRead, IsRead}

-- What holds of the machine when a call returns, or waits.
abbrev pub Holds : {A : Type 0} → (Machine → Type 0) → Io A → Type 0
Holds P (done a m) = P m
Holds P (waits m) = P m

>>=-Holds :
    {A B : Type 0} (P Q : Machine → Type 0) (x : Io A) (f : A → M B)
    → ((m : Machine) → P m → Q m)
    → Holds P x
    → ((a : A) (m : Machine) → P m → Holds Q (f a m))
    → Holds Q (elim x as (λ _. Io B) [ done a m' ↦ f a m' | waits m' ↦ waits m' ])
>>=-Holds P Q (done a m) f w h k = k a m h
>>=-Holds P Q (waits m) f w h k = w m h

-- Nothing is downloaded, or all of a download that has been asked for, which fits.
abbrev pub IsDownloaded : ℕ → Machine → Type 0
IsDownloaded len m =
    (m.download_size ≡ 0)
    ⊎ ((m.download_size ≡ len) × (len ≤ m.download_max) × (length m.download ≡ len))

-- Another state, other completions and responses do not matter.
record IsSame (m m' : Machine) : Type 0 where
  size : m'.download_size ≡ m.download_size
  max : m'.download_max ≡ m.download_max
  content : m'.download ≡ m.download

IsSame-IsDownloaded :
    (len : ℕ) (m m' : Machine) → IsSame m m' → IsDownloaded len m → IsDownloaded len m'
IsSame-IsDownloaded len m m' h (inl e) = inl (h.size ∙ e)
IsSame-IsDownloaded len m m' h (inr (e, l, c)) =
    inr (h.size ∙ e, omega (arith, l, h.max), ap length h.content ∙ c)

written-IsSame :
    (buf : Text) (s : List Completion) (m : Machine) → Holds (IsSame m) (written buf s m)
written-IsSame buf [] m = record { size = refl; max = refl; content = refl }
written-IsSame buf (refused ∷ s) m = record { size = refl; max = refl; content = refl }
written-IsSame buf (broken ∷ s) m = record { size = refl; max = refl; content = refl }
written-IsSame buf (moved b ∷ s) m = record { size = refl; max = refl; content = refl }

usb_write-IsSame : (buf : Text) (m : Machine) → Holds (IsSame m) (usb_write buf m)
unfolding usb_write
usb_write-IsSame buf m = elim (Bool-cases (is_error m.fastboot_state)) [
  | inl bad ↦ rw (usb_write, bad) (record { size = refl; max = refl; content = refl })
  | inr good ↦ rw (usb_write, good) (written-IsSame buf m.completions m)
]

pub Holds-map :
    {A : Type 0} (P Q : Machine → Type 0) (x : Io A)
    → ((m : Machine) → P m → Q m)
    → Holds P x
    → Holds Q x
Holds-map P Q (done a m) w h = w m h
Holds-map P Q (waits m) w h = w m h

ack-IsDownloaded :
    (len : ℕ) (status : Text) (reason : Option Text) (m : Machine)
    → IsDownloaded len m
    → Holds (IsDownloaded len) (fastboot_ack status reason m)
unfolding fastboot_ack
ack-IsDownloaded len status reason m h = elim (Bool-cases (is_command m.fastboot_state)) [
  | inr closed ↦ rw (fastboot_ack, closed) h
  | inl asked ↦
      let m' : Machine = record m { fastboot_state = complete } in
      let buf = response (status ++ or_empty reason) in
      let d = IsDownloaded len in
      let same : (m'' : Machine) → IsSame m' m'' → d m'' =
        λ m'' k. IsSame-IsDownloaded len m' m'' k h in
      rw (fastboot_ack, asked)
        (>>=-Holds (IsSame m') d (usb_write buf m') (λ r. pure tt) same (usb_write-IsSame buf m')
          (λ r m'' k. same m'' k))
]

-- Before the image has come there is no download, and it is known to fit.
abbrev IsAsked : ℕ → Machine → Type 0
IsAsked len m = (m.download_size ≡ 0) × (len ≤ m.download_max)

IsSame-IsAsked : (len : ℕ) (m m' : Machine) → IsSame m m' → IsAsked len m → IsAsked len m'
IsSame-IsAsked len m m' h (e, l) = (h.size ∙ e, omega (arith, l, h.max))

read-IsAsked :
    (len k : ℕ) (m : Machine) (x : Io (Option (List ℕ)))
    → IsAsked len m
    → IsRead k m x
    → Holds (IsAsked len) x
read-IsAsked len k m (done none m') (e, l) (h, s) = (h.size ∙ e, omega (arith, l, h.max))
read-IsAsked len k m (done (some b) m') (e, l) (h, s) = (h.size ∙ e, omega (arith, l, h.max))
read-IsAsked len k m (waits m') (e, l) (h, over, s) = (h.size ∙ e, omega (arith, l, h.max))

received_whole : (x : Bool) (n len : ℕ) → (x || not (n == len)) ≡ false → n ≡ len
received_whole x n len e = ground arith

received-IsDownloaded :
    (len : ℕ) (r : Option (List ℕ)) (m : Machine)
    → IsAsked len m
    → Holds (IsDownloaded len) (elim r as (λ _. Io Unit) [
      | none ↦ done tt (record m { fastboot_state = error })
      | some b ↦
          if leb (2 ^ 31) (length b) || not (length b == len)
          then done tt (record m { fastboot_state = error; download = b })
          else fastboot_okay (some []) (record m { download_size = len; download = b })
    ])
received-IsDownloaded len none m (e, l) = inl e
received-IsDownloaded len (some b) m (e, l) =
    let small = leb (2 ^ 31) (length b) in
    elim (Bool-cases (small || not (length b == len))) [
      | inl bad ↦ rw bad (inl e)
      | inr good ↦
          let m' : Machine = record m { download_size = len; download = b } in
          let whole = received_whole small (length b) len good in
          rw good (ack-IsDownloaded len (codes "OKAY") (some []) m' (inr (refl, l, whole)))
    ]

asked-IsDownloaded :
    (len : ℕ) (r : Option ℕ) (m : Machine)
    → IsAsked len m
    → Holds
        (IsDownloaded len)
        ((elim r as (λ _. M Unit) [ none ↦ pure tt | some n ↦ receive len ]) m)
asked-IsDownloaded len none m (e, l) = inl e
asked-IsDownloaded len (some n) m a =
    >>=-Holds (IsAsked len) (IsDownloaded len) (usb_read len m) _ (λ m' k. inl k.0)
      (read-IsAsked len (length m.completions) m (usb_read len m) a (usb_read-IsRead len m))
      (λ r m'. received-IsDownloaded len r m')

-- After `cmd_download`, whatever the host does, nothing counts as downloaded, or exactly so many
-- bytes as were asked for, which came whole and are no more than `download_max`.
pub cmd_download-IsDownloaded :
    (arg : Text) (m : Machine) → Holds (IsDownloaded (hex2unsigned arg)) (cmd_download arg m)
unfolding cmd_download
cmd_download-IsDownloaded arg m0 =
    let len = hex2unsigned arg in
    let m : Machine = record m0 { download_size = 0 } in
    let ask = response (codes "DATA" ++ print_hex 8 len) in
    elim (Bool-cases (ltb m.download_max len)) [
      | inl large ↦
          rw (cmd_download, large)
            (ack-IsDownloaded len (codes "FAIL") (some (codes "data too large")) m (inl refl))
      | inr fits ↦
          let a : IsAsked len m = (refl, ground (arith, fits)) in
          rw (cmd_download, fits)
            (>>=-Holds (IsSame m) (IsDownloaded len) (usb_write ask m) _ (λ m' k. inl k.size)
              (usb_write-IsSame ask m)
              (λ r m' k. asked-IsDownloaded len r m' (IsSame-IsAsked len m m' k a)))
    ]
