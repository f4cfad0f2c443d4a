-- ===== src/Tests/Fastboot.antt =====
-- The fastboot protocol: bootable/lk/app/aboot.
use android4_4_4_r.Prelude.{
  ◌≡◌, refl, arith, List, [], ◌∷◌, true, false, some, codes, text_eq, has_prefix,
}
use android4_4_4_r.Lk.Fastboot.{
  offline, command, Completion, broken, moved, Machine, Io, done, usb_read, hex2unsigned,
}
use android4_4_4_r.Lk.Fastboot.Commands.{cmd_download, dispatch, registered, fastboot_command_loop}
use android4_4_4_r.Lk.Fastboot.Transfer.{usb_read-pieces}
use android4_4_4_r.Lk.Fastboot.Answers.{cmd_getvar-IsKeptBy}
use android4_4_4_r.Lk.Fastboot.Kept.{cmd_download-IsKeptBy}
use android4_4_4_r.Lk.Fastboot.Download.{Holds, IsDownloaded, cmd_download-IsDownloaded}
use android4_4_4_r.Lk.Fastboot.Dispatch.{IsAnswered, is_known}
use android4_4_4_r.Lk.Fastboot.Loop.{IsEnd, fastboot_command_loop-IsEnd}
use android4_4_4_r.Lk.Flash.{Board, cmd_flash_mmc_img, card_commands}
use android4_4_4_r.Lk.Flash.Kept.{card_commands-IsAnswered}
use android4_4_4_r.Lk.Flash.Inside.{IsInside, cmd_flash_mmc_img-IsInside}
use android4_4_4_r.Tests.Partition.{two}

abbrev machine : List Completion → Machine
machine s = record {
  fastboot_state = offline;
  download_max = 4096;
  download_size = 3;
  download = 7 ∷ 8 ∷ 9 ∷ [];
  varlist = [];
  completions = s;
  sent = [];
  table = two;
  writes = [];
  device = record { is_unlocked = false; is_tampered = true };
}

usb_read-pieces_example :
    usb_read 3 (machine (moved (1 ∷ 2 ∷ 3 ∷ []) ∷ broken ∷ []))
    ≡ done (some (1 ∷ 2 ∷ 3 ∷ [])) (machine (broken ∷ []))
usb_read-pieces_example =
    usb_read-pieces (1 ∷ 2 ∷ 3 ∷ []) (broken ∷ []) (machine (moved (1 ∷ 2 ∷ 3 ∷ []) ∷ broken ∷ []))
      refl refl

-- The host takes the answer, sends three bytes, and takes the last answer.
abbrev sending : Machine
sending = record (machine (moved [] ∷ moved (1 ∷ 2 ∷ 3 ∷ []) ∷ moved [] ∷ [])) {
  fastboot_state = command;
}

cmd_download-IsDownloaded_example :
    Holds (IsDownloaded (hex2unsigned (codes "00000003"))) (cmd_download (codes "00000003") sending)
cmd_download-IsDownloaded_example = cmd_download-IsDownloaded (codes "00000003") sending

-- A card that takes every write.
abbrev board : Board
board = record {
  mmc_write = λ at b. 0;
  write_partition = λ m. (1, m.table, m.writes);
  beyond = λ i. 0;
  write_device_info = λ d writes. writes;
}

abbrev idle : Machine
idle = machine (moved [] ∷ [])

erase_is_known : is_known (card_commands board) (codes "erase:boot") ≡ true
unfolding is_known card_commands has_prefix
erase_is_known = refl

card_commands-IsAnswered_example :
    IsAnswered idle (dispatch (card_commands board) (codes "erase:boot") idle)
card_commands-IsAnswered_example =
    card_commands-IsAnswered board (codes "erase:boot") idle erase_is_known

-- The host asks for a variable, and takes the answer.
abbrev asking : Machine
asking = machine (moved (codes "getvar:version") ∷ moved [] ∷ [])

fastboot_command_loop-IsEnd_example :
    (x : Io (Unit {0})) × (fastboot_command_loop 3 registered asking ≡ some x) × IsEnd x
fastboot_command_loop-IsEnd_example =
    fastboot_command_loop-IsEnd 3 registered asking
      (cmd_download-IsKeptBy, (cmd_getvar-IsKeptBy, tt)) (omega arith)

boot_is_no_table : text_eq (codes "system") (codes "partition") ≡ false
unfolding text_eq
boot_is_no_table = refl

cmd_flash_mmc_img-IsInside_example :
    Holds (IsInside (codes "system") idle) (cmd_flash_mmc_img board (codes "system") idle)
cmd_flash_mmc_img-IsInside_example =
    cmd_flash_mmc_img-IsInside board (codes "system") idle boot_is_no_table (omega arith)
