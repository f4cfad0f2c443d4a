-- ===== src/Init/Queue.antt =====
-- Triggers and the action queue of init/init/init_parser.c, and the execution of commands by
-- init/init/init.c, with what the commands do to the action queue (init/init/builtins.c).
--
-- An action is its place in `action_list`; the queue is the list of places. An action is linked
-- into the queue exactly when its place is in the list, which is what `list_empty(&act->qlist)`
-- asks.
pub mod Order
pub mod Triggers
pub mod Run
use android4_4_4_r.Prelude.{
  ℕ, suc, ◌+◌, List, [], ◌∷◌, ◌++◌, length, get_elem?, drop, take, Bool, true, false, ◌||◌, ◌&&◌,
  Option, none, some, Text, codes, text_eq, has_prefix, peek, ltb, leb, ◌==◌, if◌then◌else◌,
}
use android4_4_4_r.Init.Platform.{Platform}
use android4_4_4_r.Init.Keywords.{Keyword}
use android4_4_4_r.Init.Service.{Command, Action, Func, builtin}
use android4_4_4_r.Init.Properties.Load.{split_at}

-- `!list_empty(&act->qlist)`
unfoldable pub is_queued : ℕ → List ℕ → Bool
is_queued i [] = false
is_queued i (j ∷ queue) = i == j || is_queued i queue

unfoldable pub action_add_queue_tail : ℕ → List ℕ → List ℕ
unfolding is_queued
action_add_queue_tail i queue = if is_queued i queue then queue else queue ++ i ∷ []

abbrev pub action_remove_queue_head : List ℕ → Option ℕ × List ℕ
action_remove_queue_head [] = (none, [])
action_remove_queue_head (i ∷ queue) = (some i, queue)

-- The loop over `action_list` that queues the actions whose name passes a test, from place `i`.
unfoldable pub queue_each : (Text → Bool) → ℕ → List Action → List ℕ → List ℕ
unfolding action_add_queue_tail
queue_each test i [] queue = queue
queue_each test i (act ∷ rest) queue =
    queue_each test (suc i) rest (if test act.name then action_add_queue_tail i queue else queue)

-- `action_for_each_trigger(trigger, action_add_queue_tail)`
unfoldable pub action_for_each_trigger : Text → List Action → List ℕ → List ℕ
action_for_each_trigger trigger actions queue =
    queue_each (λ name. text_eq name trigger) 0 actions queue

-- the test of `queue_property_triggers`
unfoldable pub is_property_trigger : Text → Text → Text → Bool
is_property_trigger name value trigger =
    has_prefix (codes "property:") trigger
    && (let test = drop 9 trigger in
        let expected = drop (suc (length name)) test in
        has_prefix name test
        && peek (drop (length name) test) == b'='
        && (text_eq expected value || text_eq expected (codes "*")))

unfoldable pub queue_property_triggers : Text → Text → List Action → List ℕ → List ℕ
queue_property_triggers name value actions queue =
    queue_each (is_property_trigger name value) 0 actions queue

-- the test of `queue_all_property_triggers`; `property_get` gives the empty text for no property
unfoldable pub is_current_trigger : Platform → (Text → Text) → Text → Bool
unfolding split_at
is_current_trigger pf property_get trigger =
    if has_prefix (codes "property:") trigger
    then elim (split_at b'=' (drop 9 trigger)) [
      | none ↦ false
      | some (name, expected) ↦
          if ltb pf.prop_name_max (length name)
          then false
          else text_eq expected (property_get name) || text_eq expected (codes "*")
    ]
    else false

unfoldable pub queue_all_property_triggers :
    Platform → (Text → Text) → List Action → List ℕ → List ℕ
queue_all_property_triggers pf property_get actions queue =
    queue_each (is_current_trigger pf property_get) 0 actions queue

-- The action is new: it is put at the end of both lists. The command has `nargs` 0; the name in its
-- `args[0]` is only logged.
unfoldable pub queue_builtin_action : Func → Text → List Action → List ℕ → List Action × List ℕ
queue_builtin_action func name actions queue = (
  actions ++ record { name = name; commands = record { func = func; args = [] } ∷ [] } ∷ [],
  action_add_queue_tail (length actions) queue,
)

-- `action_queue`, `cur_action` and `cur_command`. The current command is the commands of its action
-- from it on.
pub record Executor : Type 0 where
  pub queue : List ℕ
  pub cur_action : Option ℕ
  pub cur_command : List Command

-- the `commands` of the action at a place
unfoldable pub commands_at : List Action → ℕ → List Command
commands_at actions i = elim (get_elem? actions i) [ none ↦ [] | some act ↦ act.commands ]

-- `!cur_action || !cur_command || is_last_command(cur_action, cur_command)`
unfoldable pub is_done : Executor → Bool
is_done st = elim st.cur_action [
  | none ↦ true
  | some i ↦ elim st.cur_command [
    | [] ↦ true
    | c ∷ rest ↦ elim rest [ [] ↦ true | d ∷ later ↦ false ]
  ]
]

abbrev pub tail_of : List Command → List Command
tail_of [] = []
tail_of (c ∷ rest) = rest

abbrev pub head_of : List Command → Option Command
head_of [] = none
head_of (c ∷ rest) = some c

-- what is current after the head of the queue has been taken
unfoldable pub take_action : List Action → List ℕ → Executor
unfolding commands_at
take_action actions [] = record { queue = []; cur_action = none; cur_command = [] }
take_action actions (i ∷ queue) = record {
  queue = queue;
  cur_action = some i;
  cur_command = commands_at actions i;
}

-- A call by which a command queues actions: these three loops over `action_list` are all there are.
pub data QueueRequest : Type 0 where
  -- `action_for_each_trigger(trigger, action_add_queue_tail)`
  named : Text → QueueRequest
  -- `queue_property_triggers(name, value)`, behind a change of a property
  changed : Text → Text → QueueRequest
  -- `queue_all_property_triggers()`, with the properties there are
  current : Platform → (Text → Text) → QueueRequest

unfoldable pub queue_request : QueueRequest → List Action → List ℕ → List ℕ
unfolding action_for_each_trigger queue_property_triggers queue_all_property_triggers
queue_request (named trigger) actions queue = action_for_each_trigger trigger actions queue
queue_request (changed name value) actions queue = queue_property_triggers name value actions queue
queue_request (current pf property_get) actions queue =
    queue_all_property_triggers pf property_get actions queue

unfoldable pub queue_requests : List QueueRequest → List Action → List ℕ → List ℕ
queue_requests [] actions queue = queue
queue_requests (r ∷ rs) actions queue = queue_requests rs actions (queue_request r actions queue)

-- `do_trigger`; the parser accepts no `trigger` without `args[1]`.
unfoldable pub do_trigger : List Text → List QueueRequest
do_trigger args = elim (get_elem? args 1) [ none ↦ [] | some trigger ↦ named trigger ∷ [] ]

is_trigger : Func → Bool
is_trigger (builtin Keyword.trigger) = true
is_trigger _ = false

-- `cur_command->func(nargs, args)`: its calls that queue actions. Those of a command that is not
-- `trigger` depend on the system (has a file system been mounted, has the property been set, are
-- property triggers enabled) and are the argument `others`.
unfoldable pub call_command : (Command → List QueueRequest) → Command → List QueueRequest
unfolding is_trigger do_trigger
call_command others c = if is_trigger c.func then do_trigger c.args else others c

-- what is current when the command is called
unfoldable pub choose_command : List Action → Executor → Executor
unfolding is_done take_action
choose_command actions st =
    if is_done st
    then take_action actions st.queue
    else record st { cur_command = tail_of st.cur_command }

-- the end of `execute_one_command`: the call of the current command, if there is one
unfoldable pub call_current :
    (Command → List QueueRequest) → List Action → Executor → Executor × Option Command
unfolding queue_requests
call_current others actions st = elim (head_of st.cur_command) [
  | none ↦ (st, none)
  | some c ↦ (record st { queue = queue_requests (call_command others c) actions st.queue }, some c)
]

unfoldable pub execute_one_command :
    (Command → List QueueRequest) → List Action → Executor → Executor × Option Command
unfolding choose_command call_current
execute_one_command others actions st = call_current others actions (choose_command actions st)
