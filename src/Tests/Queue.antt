-- ===== src/Tests/Queue.antt =====
-- Triggers and the action queue: init/init/init_parser.c and init/init/init.c.
use android4_4_4_r.Prelude.{
  has_prefix, ◌==◌, if◌then◌else◌, ℕ, List, [], ◌∷◌, ◌≡◌, inl, refl, Text, codes, none, true,
  text_eq,
}
use android4_4_4_r.Init.Keywords.{Keyword}
use android4_4_4_r.Init.Service.{Action, Command, builtin}
use android4_4_4_r.Init.Queue.{
  Executor, QueueRequest, queue_request, changed, queue_each, is_queued, is_property_trigger,
  action_for_each_trigger, is_done, commands_at, call_command, execute_one_command,
}
use android4_4_4_r.Init.Queue.Order.{unqueued, queue_each-unqueued}
use android4_4_4_r.Init.Queue.Triggers.{is_property_trigger_iff}
use android4_4_4_r.Init.Queue.Run.{run, calls, all_commands, run-all_commands}

abbrev start_adbd : Command
start_adbd = record { func = builtin Keyword.start; args = codes "start" ∷ codes "adbd" ∷ [] }

abbrev sync : Command
sync = record { func = builtin Keyword.write; args = codes "write" ∷ codes "/f" ∷ codes "1" ∷ [] }

abbrev on : Text → List Command → Action
on name commands = record { name = name; commands = commands }

abbrev trigger_charge : Command
trigger_charge = record {
  func = builtin Keyword.trigger;
  args = codes "trigger" ∷ codes "charge" ∷ [];
}

abbrev set_debug : Command
set_debug = record {
  func = builtin Keyword.setprop;
  args = codes "setprop" ∷ codes "debug" ∷ codes "1" ∷ [];
}

abbrev actions : List Action
actions =
    on (codes "boot") (start_adbd ∷ sync ∷ [])
    ∷ on (codes "init") []
    ∷ on (codes "boot") (sync ∷ [])
    ∷ []

boot_queued : action_for_each_trigger (codes "boot") actions (2 ∷ []) ≡ 2 ∷ 0 ∷ []
unfolding action_for_each_trigger queue_each is_queued text_eq
boot_queued = refl

boot_is_appended :
    queue_each (λ name. text_eq name (codes "boot")) 0 actions (2 ∷ [])
    ≡ 2 ∷ unqueued (λ name. text_eq name (codes "boot")) 0 actions (2 ∷ [])
boot_is_appended = queue_each-unqueued (λ name. text_eq name (codes "boot")) 0 actions (2 ∷ [])

is_property_trigger_iff_example :
    is_property_trigger (codes "ro.debuggable") (codes "1") (codes "property:ro.debuggable=1")
    ≡ true
is_property_trigger_iff_example =
    (is_property_trigger_iff (codes "ro.debuggable") (codes "1")
        (codes "property:ro.debuggable=1")).1
      (inl refl)

-- An action triggers `charge`, which is queued last in the file, and sets a property that an action
-- between them waits for.
abbrev charging : List Action
charging =
    on (codes "boot") (start_adbd ∷ set_debug ∷ trigger_charge ∷ [])
    ∷ on (codes "init") (sync ∷ [])
    ∷ on (codes "property:debug=1") (sync ∷ [])
    ∷ on (codes "charge") (sync ∷ [])
    ∷ []

-- The property is set by the second call, which has two calls behind it.
abbrev setting : ℕ → Command → List QueueRequest
setting n c = if n == 2 then changed (codes "debug") (codes "1") ∷ [] else []

abbrev at_boot : Executor
at_boot = record { queue = 0 ∷ 1 ∷ []; cur_action = none; cur_command = [] }

at_boot-is_done : is_done at_boot ≡ true
unfolding is_done
at_boot-is_done = refl

run-all_commands_example :
    let (last, (cs, new)) = run (calls charging (0 ∷ 1 ∷ [])) setting charging at_boot in
    (cs ≡ all_commands charging (0 ∷ 1 ∷ [])) × (last.queue ≡ new) × (is_done last ≡ true)
run-all_commands_example =
    run-all_commands setting charging (0 ∷ 1 ∷ []) at_boot at_boot-is_done refl

boot_commands :
    all_commands charging (0 ∷ 1 ∷ []) ≡ start_adbd ∷ set_debug ∷ trigger_charge ∷ sync ∷ []
unfolding all_commands commands_at
boot_commands = refl

queued_by_boot : (run (calls charging (0 ∷ 1 ∷ [])) setting charging at_boot).0.queue ≡ 2 ∷ 3 ∷ []
unfolding run execute_one_command calls commands_at call_command is_property_trigger text_eq
    queue_request queue_each has_prefix
queued_by_boot = refl
