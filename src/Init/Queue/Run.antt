-- ===== src/Init/Queue/Run.antt =====
-- Every command of the queued actions is executed, in order, while the commands queue others.
use android4_4_4_r.Prelude.{
  ℕ, zero, suc, List, [], ◌∷◌, ◌++◌, ◌≡◌, ◌∙◌, refl, sym, subst, ap, true, Option, none, some,
  if◌then◌else◌,
}
use android4_4_4_r.Init.Service.{Action, Command}
use android4_4_4_r.Init.Queue.{
  Executor, QueueRequest, commands_at, is_done, take_action, tail_of, choose_command, call_current,
  call_command, execute_one_command,
}
use android4_4_4_r.Init.Queue.Order.{asked, append_nil, append-append, queue_requests-asked}

abbrev cons_called : Option Command → List Command → List Command
cons_called none cs = cs
cons_called (some c) cs = c ∷ cs

-- What the command that is called asks for, if any is.
abbrev asked_by : (Command → List QueueRequest) → List Action → List ℕ → Option Command → List ℕ
asked_by others actions queue none = []
asked_by others actions queue (some c) = asked (call_command others c) actions queue

-- Where so many calls of `execute_one_command` lead, the commands that they execute and the actions
-- that these commands ask for and that are not in the queue at the time, in order. What the system
-- makes a command ask for may differ from call to call: `others n` is that of the call that has `n`
-- calls behind it.
unfoldable pub run :
    ℕ
    → (ℕ → Command → List QueueRequest)
    → List Action
    → Executor
    → Executor × (List Command × List ℕ)
run zero others actions st = (st, ([], []))
run (suc n) others actions st =
    let (st', c) = execute_one_command (others n) actions st in
    let new = asked_by (others n) actions (choose_command actions st).queue c in
    let (last, (cs, later)) = run n others actions st' in (last, (cons_called c cs, new ++ later))

abbrev add_length : List Command → ℕ → ℕ
add_length [] n = n
add_length (c ∷ cs) n = suc (add_length cs n)

-- One call for each command, and one for an action that has none, on top of `n`.
abbrev pub add_calls : List Command → ℕ → ℕ
add_calls [] n = suc n
add_calls (c ∷ cs) n = suc (add_length cs n)

unfoldable pub calls : List Action → List ℕ → ℕ
calls actions [] = 0
calls actions (i ∷ queue) = add_calls (commands_at actions i) (calls actions queue)

unfoldable pub all_commands : List Action → List ℕ → List Command
all_commands actions [] = []
all_commands actions (i ∷ queue) = commands_at actions i ++ all_commands actions queue

abbrev last_of : Command → List Command → Command
last_of c [] = c
last_of c (d ∷ ds) = last_of d ds

abbrev at_last : List Command → List Command
at_last [] = []
at_last (c ∷ cs) = last_of c cs ∷ []

abbrev at : List ℕ → ℕ → List Command → Executor
at queue i cs = record { queue = queue; cur_action = some i; cur_command = cs }

abbrev behind :
    List Command → List ℕ → Executor × (List Command × List ℕ) → Executor × (List Command × List ℕ)
behind cs new r = (r.0, (cs ++ r.1.0, new ++ r.1.1))

-- what comes once the command to call is chosen
run_chosen :
    ℕ
    → (ℕ → Command → List QueueRequest)
    → List Action
    → Executor
    → Executor × (List Command × List ℕ)
unfolding call_current
run_chosen n others actions st =
    let (st', c) = call_current (others n) actions st in
    let new = asked_by (others n) actions st.queue c in
    let (last, (cs, later)) = run n others actions st' in (last, (cons_called c cs, new ++ later))

-- the call of a command, with `n` calls behind it
call :
    (n : ℕ)
    → (ℕ → Command → List QueueRequest)
    → List Action
    → List ℕ
    → ℕ
    → List Command
    → Executor × (List Command × List ℕ)
call n others actions queue i [] = run n others actions (at queue i [])
call n others actions queue i (c ∷ cs) =
    let new = asked (call_command (others n) c) actions queue in
    behind (c ∷ []) new (run n others actions (at (queue ++ new) i (c ∷ cs)))

run-call :
    (others : ℕ → Command → List QueueRequest) (actions : List Action) (st : Executor) (n i : ℕ)
    (queue : List ℕ) (cs : List Command)
    → choose_command actions st ≡ at queue i cs
    → run (suc n) others actions st ≡ call n others actions queue i cs
unfolding run run_chosen execute_one_command call_current call
run-call others actions st n i queue [] e = ap (run_chosen n others actions) e
run-call others actions st n i queue (c ∷ cs) e =
    let rs = call_command (others n) c in
    ap (run_chosen n others actions) e
    ∙ ap (λ q. behind (c ∷ []) (asked rs actions queue) (run n others actions (at q i (c ∷ cs))))
        (queue_requests-asked rs actions queue)

choose_command-is_done :
    (actions : List Action) (st : Executor) (i : ℕ) (queue : List ℕ) (cs : List Command)
    → is_done st ≡ true
    → st.queue ≡ i ∷ queue
    → commands_at actions i ≡ cs
    → choose_command actions st ≡ at queue i cs
unfolding choose_command take_action
choose_command-is_done actions st i queue cs h e l =
    ap
      (λ b.
        if b
        then take_action actions st.queue
        else record st { cur_command = tail_of st.cur_command })
      h
    ∙ ap (take_action actions) e
    ∙ ap (at queue i) l

-- The result of `run` where the commands executed are `cs` and what they ask for is put behind
-- `extra`.
Executes : List Command → List ℕ → Executor × (List Command × List ℕ) → Type 0
Executes cs extra r = (r.1.0 ≡ cs) × (r.0.queue ≡ extra ++ r.1.1) × (is_done r.0 ≡ true)

behind-Executes :
    (c : Command) (cs : List Command) (extra new : List ℕ) (r : Executor × (List Command × List ℕ))
    → Executes cs (extra ++ new) r
    → Executes (c ∷ cs) extra (behind (c ∷ []) new r)
unfolding Executes
behind-Executes c cs extra new r (e, q, d) =
    (ap (λ t. c ∷ t) e, q ∙ append-append extra new r.1.1, d)

-- One call, where what comes behind it executes the rest from the queue it leaves.
call-Executes :
    (others : ℕ → Command → List QueueRequest) (actions : List Action) (n i : ℕ)
    (queue extra : List ℕ) (c : Command) (cs later : List Command)
    → ((extra : List ℕ)
        → Executes later extra (run n others actions (at (queue ++ extra) i (c ∷ cs))))
    → Executes (c ∷ later) extra (call n others actions (queue ++ extra) i (c ∷ cs))
unfolding call
call-Executes others actions n i queue extra c cs later after =
    let new = asked (call_command (others n) c) actions (queue ++ extra) in
    behind-Executes c later extra new _ (
      subst (λ q. Executes later (extra ++ new) (run n others actions (at q i (c ∷ cs))))
        (sym (append-append queue extra new)) (after (extra ++ new)))

-- The calls of the commands of one action from `c` on, with `n` calls behind them.
call-add_length :
    (others : ℕ → Command → List QueueRequest) (actions : List Action) (n i : ℕ)
    (queue extra : List ℕ) (c : Command) (cs later : List Command)
    → ((extra : List ℕ)
        → Executes later extra (run n others actions (at (queue ++ extra) i (last_of c cs ∷ []))))
    → Executes
        (c ∷ cs ++ later)
        extra
        (call (add_length cs n) others actions (queue ++ extra) i (c ∷ cs))
unfolding choose_command is_done
call-add_length others actions n i queue extra c [] later after =
    call-Executes others actions n i queue extra c [] later after
call-add_length others actions n i queue extra c (d ∷ ds) later after =
    let m = add_length ds n in
    call-Executes others actions (suc m) i queue extra c (d ∷ ds) (d ∷ ds ++ later) (λ extra'.
      let st = at (queue ++ extra') i (c ∷ d ∷ ds) in
      subst (Executes (d ∷ ds ++ later) extra')
        (sym (run-call others actions st m i (queue ++ extra') (d ∷ ds) refl))
        (call-add_length others actions n i queue extra' d ds later after))

is_done-at_last :
    (queue : List ℕ) (i : ℕ) (cs : List Command) → is_done (at queue i (at_last cs)) ≡ true
unfolding is_done
is_done-at_last queue i [] = refl
is_done-at_last queue i (c ∷ cs) = refl

-- All the calls of one action, with `n` calls behind them.
call-add_calls :
    (others : ℕ → Command → List QueueRequest) (actions : List Action) (st : Executor) (n i : ℕ)
    (queue extra : List ℕ) (cs later : List Command)
    → choose_command actions st ≡ at (queue ++ extra) i cs
    → ((extra : List ℕ)
        → Executes later extra (run n others actions (at (queue ++ extra) i (at_last cs))))
    → Executes (cs ++ later) extra (run (add_calls cs n) others actions st)
unfolding call
call-add_calls others actions st n i queue extra [] later e after =
    subst (Executes later extra) (sym (run-call others actions st n i (queue ++ extra) [] e))
      (after extra)
call-add_calls others actions st n i queue extra (c ∷ cs) later e after =
    subst (Executes (c ∷ cs ++ later) extra)
      (sym (run-call others actions st (add_length cs n) i (queue ++ extra) (c ∷ cs) e))
      (call-add_length others actions n i queue extra c cs later after)

run-Executes :
    (others : ℕ → Command → List QueueRequest) (actions : List Action) (queue extra : List ℕ)
    (st : Executor)
    → is_done st ≡ true
    → st.queue ≡ queue ++ extra
    → Executes (all_commands actions queue) extra (run (calls actions queue) others actions st)
unfolding calls all_commands run Executes
run-Executes others actions [] extra st h e = (refl, e ∙ sym (append_nil extra), h)
run-Executes others actions (i ∷ queue) extra st h e =
    let cs = commands_at actions i in
    call-add_calls others actions st (calls actions queue) i queue extra cs
      (all_commands actions queue)
      (choose_command-is_done actions st i (queue ++ extra) cs h e refl)
      (λ extra'.
        run-Executes others actions queue extra' (at (queue ++ extra') i (at_last cs))
          (is_done-at_last (queue ++ extra') i cs) refl)

-- With no command under way, one call of `execute_one_command` for each command of the actions in
-- the queue, and one for each such action without commands, execute these commands, in the order
-- of the queue and each once. Meanwhile the commands queue actions: `trigger` those of its name,
-- any other command what the system makes it ask for at that call. After the calls no command is
-- under way, and the queue holds exactly the actions that the commands have asked for and that
-- were not in the queue at the time, in the order in which they asked.
pub run-all_commands :
    (others : ℕ → Command → List QueueRequest) (actions : List Action) (queue : List ℕ)
    (st : Executor)
    → is_done st ≡ true
    → st.queue ≡ queue
    → let (last, (cs, new)) = run (calls actions queue) others actions st in
      (cs ≡ all_commands actions queue) × (last.queue ≡ new) × (is_done last ≡ true)
unfolding Executes
run-all_commands others actions queue st h e =
    run-Executes others actions queue [] st h (e ∙ sym (append_nil queue))
