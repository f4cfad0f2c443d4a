-- ===== src/Init/Parser/Commands.antt =====
-- The commands that the parser stores, in actions and in the `onrestart` lists of services.
use android4_4_4_r.Prelude.{
  ℕ, zero, suc, ◌+◌, ◌-◌, ◌≤◌, List, [], ◌∷◌, All, All-append, All-set, All-get_elem?, ◌≡◌, ◌≢◌,
  subst, some-injective, refl, arith, Option, some, none, true, inl, inr, ◌==◌, Bool-cases, Text,
  length, length-take, length-drop, length-append, length-set, drop, get_elem?,
}
use android4_4_4_r.Init.Keywords.{Keyword, keyword_info, lookup_keyword}
use android4_4_4_r.Init.Platform.{Platform}
use android4_4_4_r.Init.Service.{builtin, native, Command, Action, Service, new_service, no_class}
use android4_4_4_r.Init.Options.{arg, words, is_command, service_option, parse_line_service}
use android4_4_4_r.Init.Tokens.{Token, eof, text, newline, next_token}
use android4_4_4_r.Init.Parser.Frame.{finish_line-Reads}
use android4_4_4_r.Init.Parser.{
  Config, Rc, Section, no_op, in_service, in_action, parse_service, parse_action, parse_import,
  parse_new_section, parse_line_action, service_line, action_line, parse_line, finish_line,
  on_newline, on_text, on_token, config_loop, parse_config, start, count_line, max_args,
}

-- A stored command is one that the table of keywords has as a command, with at least the words that
-- the table asks for, its own name included.
abbrev pub IsRunnable : Command → Type 0
IsRunnable c = elim (c.func) [
  | builtin kw ↦
      (is_command (keyword_info kw).flags ≡ true) × ((keyword_info kw).nargs ≤ length c.args)
  | native f ↦ Unit
]

length-words :
    (args : List Text) (i nargs : ℕ) → nargs + i ≤ length args → length (words args i nargs) ≡ nargs
length-words args i nargs h = omega (arith, length-take nargs (drop i args), length-drop i args)

-- `parse_line_action` stores only commands that can be run.
parse_line_action-IsRunnable :
    (nargs : ℕ) (args : List Text) (act : Action)
    → nargs ≤ length args
    → All IsRunnable act.commands
    → All IsRunnable (parse_line_action nargs args act).0.commands
unfolding parse_line_action
parse_line_action-IsRunnable nargs args act room h = ground (
  arith,
  length-words args 0 nargs (omega arith),
  All-append IsRunnable act.commands
      (record { func = builtin (lookup_keyword (arg args 0)); args = words args 0 nargs } ∷ []) h,
)

service_option-IsRunnable :
    (pf : Platform) (kw : Keyword) (nargs : ℕ) (args : List Text) (svc : Service)
    → nargs ≢ 0
    → nargs ≤ length args
    → All IsRunnable svc.onrestart
    → All IsRunnable (service_option pf kw nargs args svc).0.onrestart
unfolding service_option
service_option-IsRunnable pf Keyword.onrestart nargs args svc ne room h = ground (
  arith,
  length-words args 1 (nargs - 1) (omega arith),
  All-append IsRunnable svc.onrestart
      (record { func = builtin (lookup_keyword (arg args 1)); args = words args 1 (nargs - 1) }
        ∷ [])
      h,
)
service_option-IsRunnable pf _ nargs args svc ne room h = ground arith

parse_line_service-IsRunnable :
    (pf : Platform) (nargs : ℕ) (args : List Text) (svc : Service)
    → nargs ≤ length args
    → All IsRunnable svc.onrestart
    → All IsRunnable (parse_line_service pf nargs args svc).0.onrestart
unfolding parse_line_service
parse_line_service-IsRunnable pf nargs args svc room h = elim (Bool-cases (nargs == 0)) [
  | inl e ↦ rw e h
  | inr e ↦ rw e (
      service_option-IsRunnable pf (lookup_keyword (arg args 0)) nargs args
        (record svc { ioprio_class = no_class }) (ground arith) room h)
]

-- What the parser keeps between two tokens.
pub record AllRunnable (rc : Rc) : Type 0 where
  pub actions : All (λ (a : Action). All IsRunnable a.commands) rc.actions
  pub services : All (λ (s : Service). All IsRunnable s.onrestart) rc.services

record Inv (k : Config) : Type 0 where
  runnable : AllRunnable k.rc
  slots : k.nargs ≤ length k.args
  capped : length k.args ≤ max_args

module _ (pf : Platform) (property_get : Text → Text) where
  service_line-AllRunnable :
      (i n : ℕ) (args : List Text) (o : Option Service) (k : Config)
      → n ≤ length args
      → get_elem? k.rc.services i ≡ o
      → AllRunnable k.rc
      → AllRunnable (service_line pf i n args o k).rc
  unfolding service_line
  service_line-AllRunnable i n args none k room e h = h
  service_line-AllRunnable i n args (some svc) k room e h =
      let P = λ (s : Service). All IsRunnable s.onrestart in
      let old = All-get_elem? P k.rc.services i svc h.services e in
      let new = parse_line_service-IsRunnable pf n args svc room old in
      let svc' = (parse_line_service pf n args svc).0 in
      ground (arith, All-set P k.rc.services i svc' h.services new)

  action_line-AllRunnable :
      (i n : ℕ) (args : List Text) (o : Option Action) (k : Config)
      → n ≤ length args
      → get_elem? k.rc.actions i ≡ o
      → AllRunnable k.rc
      → AllRunnable (action_line i n args o k).rc
  unfolding action_line
  action_line-AllRunnable i n args none k room e h = h
  action_line-AllRunnable i n args (some act) k room e h =
      let P = λ (a : Action). All IsRunnable a.commands in
      let old = All-get_elem? P k.rc.actions i act h.actions e in
      let new = parse_line_action-IsRunnable n args act room old in
      let act' = (parse_line_action n args act).0 in
      ground (arith, All-set P k.rc.actions i act' h.actions new)

  parse_line-AllRunnable :
      (s : Section) (n : ℕ) (args : List Text) (k : Config)
      → n ≤ length args
      → AllRunnable k.rc
      → AllRunnable (parse_line pf s n args k).rc
  unfolding parse_line
  parse_line-AllRunnable no_op n args k room h = h
  parse_line-AllRunnable (in_service i) n args k room h =
      service_line-AllRunnable i n args (get_elem? k.rc.services i) k room refl h
  parse_line-AllRunnable (in_action i) n args k room h =
      action_line-AllRunnable i n args (get_elem? k.rc.actions i) k room refl h

  parse_service-AllRunnable : (k : Config) → AllRunnable k.rc → AllRunnable (parse_service k).rc
  unfolding parse_service
  parse_service-AllRunnable k h =
      let svc = new_service (arg k.args 1) (words k.args 2 (k.nargs - 2)) in
      let P = λ (s : Service). All IsRunnable s.onrestart in
      ground (arith, All-append P k.rc.services (svc ∷ []) h.services (tt, tt))

  parse_action-AllRunnable : (k : Config) → AllRunnable k.rc → AllRunnable (parse_action k).rc
  unfolding parse_action
  parse_action-AllRunnable k h =
      let act : Action = record { name = arg k.args 1; commands = [] } in
      let P = λ (a : Action). All IsRunnable a.commands in
      ground (arith, All-append P k.rc.actions (act ∷ []) h.actions (tt, tt))

  rc-parse_import : (k : Config) → (parse_import pf property_get k).rc ≡ k.rc
  unfolding parse_import
  rc-parse_import k = ground arith

  parse_new_section-AllRunnable :
      (kw : Keyword) (k : Config)
      → AllRunnable k.rc
      → AllRunnable (parse_new_section pf property_get kw k).rc
  unfolding parse_new_section
  parse_new_section-AllRunnable Keyword.service k h = parse_service-AllRunnable k h
  parse_new_section-AllRunnable Keyword.on k h = parse_action-AllRunnable k h
  parse_new_section-AllRunnable Keyword.import k h = rw rc-parse_import h
  parse_new_section-AllRunnable _ k h = h

  finish_line-AllRunnable :
      (k : Config)
      → k.nargs ≤ length k.args
      → AllRunnable k.rc
      → AllRunnable (finish_line pf property_get k).rc
  unfolding finish_line
  finish_line-AllRunnable k room h =
      let kw = lookup_keyword (arg k.args 0) in
      let closed = parse_line-AllRunnable k.section 0 [] k (omega arith) h in
      ground (
        arith,
        parse_new_section-AllRunnable kw (parse_line pf k.section 0 [] k) closed,
        parse_line-AllRunnable k.section k.nargs k.args k room h,
      )

  on_newline-Inv : (k : Config) → Inv k → Inv (on_newline pf property_get k)
  unfolding on_newline
  on_newline-Inv k v = ground (
    arith,
    finish_line-AllRunnable (count_line k) v.slots v.runnable,
    finish_line-Reads pf property_get (count_line k),
  )

  on_text-Inv : (k : Config) → Inv k → Inv (on_text k)
  unfolding on_text
  on_text-Inv k v =
      ground (
        arith,
        length-set k.args k.nargs k.lexer.word,
        length-append {0} k.args (k.lexer.word ∷ []),
      )

  on_token-AllRunnable :
      (token : Token) (k r : Config) (go : Config → Option Config)
      → Inv k
      → ((k' : Config) → Inv k' → go k' ≡ some r → AllRunnable r.rc)
      → on_token pf property_get token k go ≡ some r
      → AllRunnable r.rc
  unfolding on_token
  on_token-AllRunnable eof k r go v all e =
      subst (λ (k' : Config). AllRunnable k'.rc) (some-injective _ _ e)
        (parse_line-AllRunnable k.section 0 [] k (omega arith) v.runnable)
  on_token-AllRunnable newline k r go v all e = all _ (on_newline-Inv k v) e
  on_token-AllRunnable text k r go v all e = all _ (on_text-Inv k v) e

  config_loop-AllRunnable :
      (fuel : ℕ) (k : Config) {r : Config}
      → Inv k
      → config_loop pf property_get fuel k ≡ some r
      → AllRunnable r.rc
  unfolding config_loop
  config_loop-AllRunnable zero k v e = cc
  config_loop-AllRunnable (suc f) k {r} v e =
      on_token-AllRunnable (next_token k.lexer).1 (record k { lexer = (next_token k.lexer).0 }) r _
        (record { runnable = v.runnable; slots = v.slots; capped = v.capped })
        (λ k' v' e'. config_loop-AllRunnable f k' v' e') e

  -- A file that is parsed, from lists whose commands can all be run, leaves such lists.
  pub parse_config-AllRunnable :
      (s : Text) (rc : Rc) {r : Config}
      → AllRunnable rc
      → parse_config pf property_get s rc ≡ some r
      → AllRunnable r.rc
  unfolding parse_config
  parse_config-AllRunnable s rc h e =
      config_loop-AllRunnable (suc (length s + length s)) (start s rc)
        (record { runnable = h; slots = omega arith; capped = omega arith }) e
