-- ===== src/Lib.antt =====
-- The boot chain of Android 4.4.4: a verification library for its C code.
--
-- The repository follows a device from the boot loader (bootable/lk) over the start of the kernel
-- (kernel/linux-3.10.1), the first process (init) and the Zygote (app_process, ZygoteInit) to the
-- system server (SystemServer). Modelled here are init, the kernel of the boot loader, with its
-- threads, mutexes, events, deferred calls and timers, and what the boot loader reads of an eMMC
-- card and takes from a host: partition tables, and the commands of fastboot.
--
-- init reads its configuration by a lexer (init/init/parser.c), a table of keywords
-- (init/init/keywords.h) and a parser (init/init/init_parser.c) that builds the lists of services
-- and actions. Services are started, stopped and restarted by init/init/init.c, and reaped by
-- init/init/signal_handler.c when they exit. Actions are put in a queue by triggers, and init.c
-- executes their commands one by one. Properties are set through init/init/property_service.c,
-- which also takes requests from a socket.
--
-- The boot loader's kernel has a scheduler with 32 run queues and a bitmap of those that are not
-- empty (bootable/lk/kernel/thread.c); threads wait in wait queues, on which mutexes
-- (bootable/lk/kernel/mutex.c) and events (bootable/lk/kernel/event.c) are built, and the deferred
-- calls (bootable/lk/kernel/dpc.c) on an event. Timers (bootable/lk/kernel/timer.c) end sleeps and
-- waits. The partition table (bootable/lk/platform/msm_shared/partition_parser.c) is read once, and
-- searched by the commands (bootable/lk/app/aboot/aboot.c) that fastboot
-- (bootable/lk/app/aboot/fastboot.c) calls, each with the bytes that `download:` has brought.
--
-- Init.Keywords: `keyword_info`, `lookup_keyword`. Init.Tokens: `next_token`; the buffer is the
--   list of the bytes that are left, and the word, which the source writes over the bytes read, is
--   a list of its own. Init.Expand: `push_chars`, `expand_props`. Init.Service: the records of
--   init/init/init.h. Init.Options: `parse_line_service`. Init.Parser: `valid_name`,
--   `service_find_by_name`, `parse_service`, `parse_action`, `parse_line_action`, `parse_import`,
--   `parse_new_section`, `parse_config`; its child Imports: `init_parse_config_file`.
--   Init.Platform: `decode_uid`, and what comes from outside the repository.
-- Init.Control: the parent's part of `service_start`, then `service_stop_or_reset`,
--   `service_restart`, `restart_service_if_needed`, `restart_processes`; its children
--   Messages (`handle_control_message`) and Classes (`do_class_start`, `do_start` and their like of
--   init/init/builtins.c). Init.Reap: `wait_for_one_process`, `handle_signal`. Init.Queue:
--   `action_for_each_trigger`, `queue_property_triggers`, `queue_all_property_triggers`,
--   `queue_builtin_action`, `execute_one_command`, and what the commands do to the queue
--   (`do_trigger` of init/init/builtins.c; any other command queues what the system makes it ask
--   for, an argument). Init.Properties: `is_legal_property_name`, `property_set`; its children
--   Access (the tables of permissions, `check_perms`, `check_control_perms`,
--   `handle_property_set_fd`), Load (`load_properties`) and Files (property files as they are
--   written).
-- Lk.Timer: `timer_set`, `timer_cancel` and the loop of `timer_tick` of bootable/lk/kernel/timer.c,
--   and the comparison of times of bootable/lk/include/sys/types.h.
-- Lk.Thread: the scheduler (`thread_resched`, `thread_yield`, `thread_preempt`, `thread_resume`,
--   `thread_sleep` and others), its children Invariant, Choice and Kept the consistency of its
--   data. Lk.Wait: `wait_queue_block`, `wait_queue_wake_one`, `wait_queue_wake_all`,
--   `thread_unblock_from_wait_queue`, and what they keep and lose. Lk.Calls: sequences of all these
--   calls. Lk.Mutex: `mutex_acquire`, `mutex_acquire_timeout`, `mutex_release`, `mutex_destroy` on
--   one mutex, and in Steps, Exclusion, Stuck and Race what can happen to it in any order.
--   Lk.Event: `event_signal`, `event_wait_timeout`, `event_unsignal`, and in Rules the rules of
--   bootable/lk/include/kernel/event.h as a machine of its own. Lk.Dpc: `dpc_queue`, `thread_exit`
--   and the rounds of `dpc_thread_routine`.
-- Lk.Bytes: numbers in buffers. Lk.Partition: `mmc_boot_read_mbr` of
--   bootable/lk/platform/msm_shared/partition_parser.c, its children Gpt (`mmc_boot_read_gpt`,
--   `partition_read_table`, with a table as it is written in Gpt/Written, Array and Readback)
--   and Lookup (`partition_get_index` and what is asked by the index).
--   Lk.Fastboot: bootable/lk/app/aboot/fastboot.c, the transfers, the responses, and in Commands
--   `cmd_getvar` and `cmd_download` and `fastboot_command_loop`; a handler of a command keeps to the
--   rules of Lk.Fastboot.Answers. Lk.Flash: `cmd_erase_mmc`, `cmd_flash_mmc` and what they call,
--   `cmd_oem_unlock` and `cmd_oem_devinfo` of bootable/lk/app/aboot/aboot.c, as handlers over the
--   partition table.
-- Prelude has the shared names, Tests the runs at concrete inputs.
--
-- A thread and a wait queue are numbers, the places of their structures. An operation that gives
-- the cpu away is modelled up to the switch: what follows in the source runs when the thread is
-- next switched to. In Lk.Mutex a thread that waits is in the wait queue, or pending: taken off it
-- with a status, and not yet switched to. A bitmap is a function of the bit.
--
-- Texts are lists of bytes with no terminator. Loops recur on the text or the list, but for some
-- that take fuel: `expand_loop`, one round for each '$', `config_loop`, one round for each token,
-- `timer_tick`, one round for each timer fired and one more, `init_parse_config_file`, one for
-- each level of imports, `ebr_loop`, 32 rounds, since each adds an entry, `gpt_loop`, ten, since
-- eight blocks fill the array, and `fastboot_command_loop`, one for each completion and one more;
-- the list below says when the fuel is enough. Log messages are left out, but for the line of each
-- `parse_error`. Allocations succeed. What the system answers (files,
-- `fork`, the clock, SELinux, the property area of bionic) is an argument; calls whose effect lies
-- outside, such as `kill`, are returned as lists of effects. The child between `fork` and `exec`,
-- the devices and the files of persistent properties are not modelled, nor are the names, stacks
-- and local storage of threads, the drivers of the boot loader, its commands for NAND, and the
-- writing of a new partition table, which is an argument of Lk.Flash as is the card. What becomes of
-- each USB request is a list that is given; a read behind the block of a GPT is an outcome of its
-- own, and what stands in memory behind the download is an argument.
pub mod Prelude
pub mod Init
pub mod Lk
pub mod Tests
