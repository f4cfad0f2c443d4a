-- ===== src/Init/Parser.antt =====
-- Sections and files of the configuration: the rest of init/init/init_parser.c.
mod Frame
pub mod Total
pub mod Imports
pub mod Commands
use android4_4_4_r.Prelude.{
  ℕ, zero, suc, ◌+◌, ◌-◌, List, [], ◌∷◌, ◌++◌, Bool, true, false, not, ◌&&◌, Option, none, some,
  Text, text_eq, length, get_elem?, set, ltb, ◌==◌, if◌then◌else◌,
}
use android4_4_4_r.Init.Keywords.{Keyword, Kind, section, keyword_info, lookup_keyword}
use android4_4_4_r.Init.Platform.{Platform, is_alnum}
use android4_4_4_r.Init.Service.{builtin, Action, Service, new_service}
use android4_4_4_r.Init.Options.{arg, is_command, words, parse_line_service}
use android4_4_4_r.Init.Expand.{Expansion, done, expand_props}
use android4_4_4_r.Init.Tokens.{Lexer, Token, eof, text, newline, next_token}

-- `service_list` and `action_list`, in order. A service or an action is named by its place.
pub record Rc : Type 0 where
  pub services : List Service
  pub actions : List Action

-- `state->parse_line` with its `state->context`
pub data Section : Type 0 where
  no_op : Section
  in_service : ℕ → Section
  in_action : ℕ → Section

-- `struct parse_state` with the locals of `parse_config`. `args` is the array as far as it has been
-- written; `nargs` slots of it belong to the line. `errors` has the line of each `parse_error`.
pub record Config : Type 0 where
  pub lexer : Lexer
  pub section : Section
  pub args : List Text
  pub nargs : ℕ
  pub rc : Rc
  pub imports : List Text
  pub errors : List ℕ

all_name_bytes : Text → Bool
all_name_bytes [] = true
all_name_bytes (c ∷ s) =
    if not (is_alnum c) && not (c == b'_') && not (c == b'-') then false else all_name_bytes s

unfoldable pub valid_name : Text → Bool
unfolding all_name_bytes
valid_name name = if ltb 16 (length name) then false else all_name_bytes name

-- the place of the first service of that name, counted from `i` on
find_name_from : ℕ → List Service → Text → Option ℕ
find_name_from i [] name = none
find_name_from i (svc ∷ rest) name =
    if text_eq svc.name name then some i else find_name_from (suc i) rest name

unfoldable pub service_find_by_name : List Service → Text → Option ℕ
unfolding find_name_from
service_find_by_name = find_name_from 0

abbrev parse_error : Config → Config
parse_error k = record k { errors = k.errors ++ k.lexer.line ∷ [] }

abbrev report : Bool → Config → Config
report e k = if e then parse_error k else k

abbrev add_service : Service → Config → Config
add_service svc k = record k {
  rc = record (k.rc) { services = k.rc.services ++ svc ∷ [] };
  section = in_service (length k.rc.services);
}

define_service : Option ℕ → Config → Config
define_service (some i) k = record (parse_error k) { section = no_op }
define_service none k = add_service (new_service (arg k.args 1) (words k.args 2 (k.nargs - 2))) k

-- `parse_service`, with the `case K_service` of `parse_new_section`
unfoldable pub parse_service : Config → Config
unfolding define_service
parse_service k =
    if ltb k.nargs 3
    then record (parse_error k) { section = no_op }
    else if not (valid_name (arg k.args 1))
    then record (parse_error k) { section = no_op }
    else define_service (service_find_by_name k.rc.services (arg k.args 1)) k

-- `parse_action`, with the `case K_on` of `parse_new_section`
unfoldable pub parse_action : Config → Config
parse_action k =
    if ltb k.nargs 2
    then record (parse_error k) { section = no_op }
    else if ltb 2 k.nargs
    then record (parse_error k) { section = no_op }
    else record k {
      rc = record (k.rc) {
        actions = k.rc.actions ++ (record { name = arg k.args 1; commands = [] } ∷ []);
      };
      section = in_action (length k.rc.actions);
    }

add_import : Expansion → Config → Config
add_import (done file) k = record k { imports = k.imports ++ file ∷ [] }
add_import _ k = k

module _ (pf : Platform) (property_get : Text → Text) where
  -- the errors of an import are logged by `ERROR`, without the line
  unfoldable pub parse_import : Config → Config
  unfolding add_import
  parse_import k =
      if not (k.nargs == 2)
      then k
      else add_import (expand_props pf.prop_name_max property_get (arg k.args 1) pf.path_max) k

  unfoldable pub parse_new_section : Keyword → Config → Config
  unfolding parse_import
  parse_new_section Keyword.service k = parse_service k
  parse_new_section Keyword.on k = parse_action k
  parse_new_section Keyword.import k = record (parse_import k) { section = no_op }
  parse_new_section _ k = record k { section = no_op }

-- `parse_line_action`; the flag is set where `parse_error` is called
unfoldable pub parse_line_action : ℕ → List Text → Action → Action × Bool
parse_line_action nargs args act =
    let kw = lookup_keyword (arg args 0) in
    if nargs == 0
    then (act, false)
    else if not (is_command (keyword_info kw).flags)
    then (act, true)
    else if ltb nargs (keyword_info kw).nargs
    then (act, true)
    else (
      record act {
        commands = act.commands ++ (record { func = builtin kw; args = words args 0 nargs } ∷ []);
      },
      false,
    )

-- the context is a place of the list, since the section was opened by adding there
service_line : Platform → ℕ → ℕ → List Text → Option Service → Config → Config
service_line pf i nargs args none k = k
service_line pf i nargs args (some svc) k =
    let (svc', e) = parse_line_service pf nargs args svc in
    report e (record k { rc = record (k.rc) { services = set k.rc.services i svc' } })

action_line : ℕ → ℕ → List Text → Option Action → Config → Config
action_line i nargs args none k = k
action_line i nargs args (some act) k =
    let (act', e) = parse_line_action nargs args act in
    report e (record k { rc = record (k.rc) { actions = set k.rc.actions i act' } })

-- `state->parse_line(state, nargs, args)`
unfoldable pub parse_line : Platform → Section → ℕ → List Text → Config → Config
unfolding service_line action_line
parse_line pf no_op nargs args k = k
parse_line pf (in_service i) nargs args k =
    service_line pf i nargs args (get_elem? k.rc.services i) k
parse_line pf (in_action i) nargs args k = action_line i nargs args (get_elem? k.rc.actions i) k

abbrev pub count_line : Config → Config
count_line k = record k { lexer = record (k.lexer) { line = k.lexer.line + 1 } }

abbrev is_section : Kind → Bool
is_section section = true
is_section _ = false

module _ (pf : Platform) (property_get : Text → Text) where
  -- the words of a line, at its newline
  unfoldable pub finish_line : Config → Config
  finish_line k =
      let kw = lookup_keyword (arg k.args 0) in
      if is_section (keyword_info kw).flags
      then parse_new_section pf property_get kw (parse_line pf k.section 0 [] k)
      else parse_line pf k.section k.nargs k.args k

  -- `case T_NEWLINE`
  unfoldable pub on_newline : Config → Config
  unfolding finish_line
  on_newline k =
      let k' = count_line k in if k.nargs == 0 then k' else record (finish_line k') { nargs = 0 }

abbrev pub max_args : ℕ
max_args = 64

-- the assignment to `args[nargs]`
unfoldable pub put_slot : List Text → ℕ → Text → List Text
put_slot args i w = if ltb i (length args) then set args i w else args ++ w ∷ []

-- `case T_TEXT`
unfoldable pub on_text : Config → Config
unfolding put_slot
on_text k =
    if ltb k.nargs max_args
    then record k { args = put_slot k.args k.nargs k.lexer.word; nargs = k.nargs + 1 }
    else k

-- the locals of `parse_config` at its start
abbrev pub start : Text → Rc → Config
start s rc = record {
  lexer = record { ptr = s; word = []; line = 0; pending = false };
  section = no_op;
  args = [];
  nargs = 0;
  rc = rc;
  imports = [];
  errors = [];
}

module _ (pf : Platform) (property_get : Text → Text) where
  on_token : Token → Config → (Config → Option Config) → Option Config
  on_token eof k go = some (parse_line pf k.section 0 [] k)
  on_token newline k go = go (on_newline pf property_get k)
  on_token text k go = go (on_text k)

  -- the loop of `parse_config`; `none` where the fuel runs out
  unfoldable pub config_loop : ℕ → Config → Option Config
  unfolding on_token
  config_loop zero k = none
  config_loop (suc f) k =
      let (t, token) = next_token k.lexer in
      on_token token (record k { lexer = t }) (λ k'. config_loop f k')

  -- `parse_config` up to `parser_done`. Each round takes a byte or the newline that is held back.
  unfoldable pub parse_config : Text → Rc → Option Config
  unfolding config_loop
  parse_config s rc = config_loop (suc (length s + length s)) (start s rc)
