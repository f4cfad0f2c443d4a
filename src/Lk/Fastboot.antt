-- ===== src/Lk/Fastboot.antt =====
-- The fastboot protocol over USB: bootable/lk/app/aboot/fastboot.c.
--
-- What becomes of each request on an endpoint is an input, a list of completions in the order of
-- the requests; where it is used up, the thread waits for `txn_done`.
pub mod Commands
pub mod Digits
pub mod Transfer
pub mod Answers
pub mod Reads
pub mod Kept
pub mod Download
pub mod Dispatch
pub mod Loop
use android4_4_4_r.Prelude.{
  ℕ, zero, suc, ◌+◌, ◌-◌, ◌*◌, ◌/◌, ◌%◌, ◌^◌, List, [], ◌∷◌, ◌++◌, length, take, drop, Bool, true,
  false, not, ◌&&◌, ◌||◌, Option, none, some, ltb, leb, ◌==◌, if◌then◌else◌, Text, codes, text_eq,
  has_prefix, c_string,
}
use android4_4_4_r.Lk.Partition.{Table}

-- the value of a hexadecimal digit
unfoldable pub hex_digit : ℕ → Option ℕ
hex_digit c =
    if leb 48 c && leb c 57
    then some (c - 48)
    else if leb 97 c && leb c 102
    then some (c - 97 + 10)
    else if leb 65 c && leb c 70
    then some (c - 65 + 10)
    else none

-- the loop of `hex2unsigned`; the digit fills the four bits that the shift has cleared
unfoldable pub hex_from : ℕ → Text → ℕ
unfolding hex_digit
hex_from n [] = n
hex_from n (c ∷ x) = elim (hex_digit c) [ none ↦ n | some d ↦ hex_from (n * 16 % 2 ^ 32 + d) x ]

abbrev pub hex2unsigned : Text → ℕ
hex2unsigned x = hex_from 0 x

-- `struct fastboot_var`
pub record FastbootVar : Type 0 where
  pub name : Text
  pub value : Text

-- STATE_OFFLINE, STATE_COMMAND, STATE_COMPLETE and STATE_ERROR
pub data FastbootState : Type 0 where
  offline : FastbootState
  command : FastbootState
  complete : FastbootState
  error : FastbootState

abbrev pub is_command : FastbootState → Bool
is_command command = true
is_command _ = false

abbrev pub is_error : FastbootState → Bool
is_error error = true
is_error _ = false

-- What becomes of a request: `udc_request_queue` refuses it, it completes with a negative status, or
-- these bytes have been moved.
pub data Completion : Type 0 where
  refused : Completion
  broken : Completion
  moved : List ℕ → Completion

-- the flags of `struct device_info`
pub record DeviceInfo : Type 0 where
  pub is_unlocked : Bool
  pub is_tampered : Bool

-- The file's variables, what has been sent to the host, and what the commands of the loader work on:
-- the partition table, the writes to the card, the latest first, and the flags. `download` is what
-- the last read for a download has brought.
pub record Machine : Type 0 where
  pub fastboot_state : FastbootState
  pub download_max : ℕ
  pub download_size : ℕ
  pub download : List ℕ
  pub varlist : List FastbootVar
  pub completions : List Completion
  pub sent : List Text
  pub table : Table
  pub writes : List (ℕ × List ℕ)
  pub device : DeviceInfo

-- A call returns, or waits for a completion.
pub data Io (A : Type 0) : Type 0 where
  done : A → Machine → Io A
  waits : Machine → Io A

abbrev pub M : Type 0 → Type 0
M A = Machine → Io A

abbrev pub pure : {A : Type 0} → A → M A
pure a m = done a m

infixl 5 ◌>>=◌ ◌>>◌
abbrev pub ◌>>=◌ : {A B : Type 0} → M A → (A → M B) → M B
◌>>=◌ x f m = elim (x m) [ done a m' ↦ f a m' | waits m' ↦ waits m' ]

abbrev pub ◌>>◌ : {B : Type 0} → M (Unit {0}) → M B → M B
x >> k = x >>= λ _. k

-- `fastboot_publish`, where there is memory
abbrev pub fastboot_publish : Text → Text → Machine → Machine
fastboot_publish name value m = record m {
  varlist = (record { name = name; value = value }) ∷ m.varlist;
}

-- `oops`
abbrev pub oops : {A : Type 0} → M (Option A)
oops m = done none (record m { fastboot_state = error })

-- MAX_USBFS_BULK_SIZE, at most
abbrev pub bulk : ℕ → ℕ
bulk len = if ltb 16384 len then 16384 else len

-- the loop of `usb_read` on the completions that are left, with the bytes that have come
unfoldable pub read_loop : List Completion → ℕ → List ℕ → M (Option (List ℕ))
read_loop [] len got m =
    let m' : Machine = record m { completions = [] } in
    if len == 0 then done (some got) m' else waits m'
read_loop (c ∷ s) len got m =
    let m' : Machine = record m { completions = s } in
    let round : Io (Option (List ℕ)) = elim c [
      | refused ↦ oops m'
      | broken ↦ oops m'
      | moved b ↦
          let rest = read_loop s (len - bulk len) (got ++ b) m in
          if length b == bulk len then rest else done (some (got ++ b)) m'
    ] in
    if len == 0 then done (some got) (record m { completions = c ∷ s }) else round

-- `none` where -1 is returned, or else the bytes, whose number is returned
unfoldable pub usb_read : ℕ → M (Option (List ℕ))
unfolding read_loop
usb_read len m = if is_error m.fastboot_state then oops m else read_loop m.completions len [] m

-- the completion of a request on `in`
abbrev pub written : Text → List Completion → M (Option ℕ)
written buf [] m = waits m
written buf (refused ∷ s) m = oops (record m { completions = s })
written buf (broken ∷ s) m = oops (record m { completions = s })
written buf (moved b ∷ s) m =
    done (some (length b)) (record m { completions = s; sent = m.sent ++ buf ∷ [] })

unfoldable pub usb_write : Text → M (Option ℕ)
usb_write buf m = if is_error m.fastboot_state then oops m else written buf m.completions m

-- `snprintf` into a response of MAX_RSP_SIZE bytes, the terminator included
abbrev pub response : Text → Text
response x = take 63 x

abbrev pub or_empty : Option Text → Text
or_empty none = []
or_empty (some x) = x

unfoldable pub fastboot_ack : Text → Option Text → M (Unit {0})
unfolding usb_write
fastboot_ack status reason m =
    let answer : M Unit = (do r ← usb_write (response (status ++ or_empty reason)); pure tt) in
    if is_command m.fastboot_state
    then answer (record m { fastboot_state = complete })
    else done tt m

unfoldable pub fastboot_info : Option Text → M (Unit {0})
unfolding usb_write
fastboot_info none m = done tt m
fastboot_info (some reason) m =
    let inform : M Unit = (do r ← usb_write (response (codes "INFO" ++ reason)); pure tt) in
    if is_command m.fastboot_state then inform m else done tt m

abbrev pub fastboot_fail : Option Text → M (Unit {0})
fastboot_fail reason = fastboot_ack (codes "FAIL") reason

abbrev pub fastboot_okay : Option Text → M (Unit {0})
fastboot_okay info = fastboot_ack (codes "OKAY") info
