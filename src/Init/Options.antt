-- ===== src/Init/Options.antt =====
-- The lines of a service section: `parse_line_service` of init/init/init_parser.c.
--
-- `args` holds the slots of the caller's array from its start on, more than `nargs` where earlier
-- lines of the file were longer. A handler returns the new service, and whether it called
-- `parse_error`. Allocations succeed.
pub mod Laws
use mathlib.Core.List.{map}
use android4_4_4_r.Prelude.{
  ℕ, ◌+◌, ◌-◌, ◌^◌, ◌%◌, List, [], ◌∷◌, ◌++◌, Bool, true, false, not, ◌||◌, ◌&&◌, some, Text, codes,
  text_eq, get_or, get_elem?, take, drop, ltb, leb, ◌==◌, if◌then◌else◌,
}
use android4_4_4_r.Init.Keywords.{Keyword, Kind, command, keyword_info, lookup_keyword}
use android4_4_4_r.Init.Platform.{Platform, decode_uid}
use android4_4_4_r.Init.Service.{builtin, no_class, rt, be, idle, Service}

abbrev pub arg : List Text → ℕ → Text
arg args i = get_or args i []

-- `kw_is(kw, COMMAND)`
abbrev pub is_command : Kind → Bool
is_command command = true
is_command _ = false

-- `memcpy` of the `nargs` words from slot `i` on
abbrev pub words : List Text → ℕ → ℕ → List Text
words args i nargs = take nargs (drop i args)

abbrev set_ioprio_class : Text → Service → Service × Bool
set_ioprio_class s svc =
    if text_eq s (codes "rt")
    then (record svc { ioprio_class = rt }, false)
    else if text_eq s (codes "be")
    then (record svc { ioprio_class = be }, false)
    else if text_eq s (codes "idle")
    then (record svc { ioprio_class = idle }, false)
    else (svc, true)

-- `case K_ioprio`; a negative `ioprio_pri` is a bit pattern from 2 ^ 31 on
ioprio_option : Platform → ℕ → List Text → Service → Service × Bool
ioprio_option pf nargs args svc =
    if not (nargs == 3)
    then (svc, true)
    else (let pri = pf.strtoul_octal (arg args 2) % 2 ^ 32 in
        let svc' = record svc { ioprio_pri = pri } in
        if leb (2 ^ 31) pri || ltb 7 pri then (svc', true) else set_ioprio_class (arg args 1) svc')

-- `case K_group`
group_option : Platform → ℕ → List Text → Service → Service × Bool
group_option pf nargs args svc =
    if ltb nargs 2 then (svc, true) else if ltb (12 + 2) nargs then (svc, true) else (
      record svc {
        gid = decode_uid pf (arg args 1);
        supp_gids = map (decode_uid pf) (words args 2 (nargs - 2));
      },
      false,
    )

-- `case K_onrestart`
onrestart_option : ℕ → List Text → Service → Service × Bool
onrestart_option nargs args svc =
    let kw = lookup_keyword (arg args 1) in
    if not (is_command (keyword_info kw).flags)
    then (svc, true)
    else if ltb (nargs - 1) (keyword_info kw).nargs
    then (svc, true)
    else (
      record svc {
        onrestart =
            svc.onrestart ++ (record { func = builtin kw; args = words args 1 (nargs - 1) } ∷ []);
      },
      false,
    )

-- `case K_setenv`
setenv_option : ℕ → List Text → Service → Service × Bool
setenv_option nargs args svc = if ltb nargs 2 then (svc, true) else (
  record svc { envvars = record { name = arg args 1; value = get_elem? args 2 } ∷ svc.envvars },
  false,
)

-- `case K_socket`
socket_option : Platform → ℕ → List Text → Service → Service × Bool
socket_option pf nargs args svc =
    if ltb nargs 4
    then (svc, true)
    else if not (text_eq (arg args 2) (codes "dgram"))
        && not (text_eq (arg args 2) (codes "stream"))
        && not (text_eq (arg args 2) (codes "seqpacket"))
    then (svc, true)
    else (
      record svc {
        sockets =
            record {
              name = arg args 1;
              kind = arg args 2;
              perm = pf.strtoul_octal (arg args 3) % 2 ^ 32;
              uid = if ltb 4 nargs then decode_uid pf (arg args 4) else 0;
              gid = if ltb 5 nargs then decode_uid pf (arg args 5) else 0;
            }
            ∷ svc.sockets;
      },
      false,
    )

-- the `switch (kw)`
unfoldable pub service_option : Platform → Keyword → ℕ → List Text → Service → Service × Bool
unfolding ioprio_option group_option onrestart_option setenv_option socket_option
service_option pf Keyword.capability nargs args svc = (svc, false)
service_option pf Keyword.class nargs args svc =
    if not (nargs == 2) then (svc, true) else (record svc { classname = arg args 1 }, false)
service_option pf Keyword.console nargs args svc =
    (record svc { flags = record (svc.flags) { console = true } }, false)
service_option pf Keyword.disabled nargs args svc =
    (record svc { flags = record (svc.flags) { disabled = true; rc_disabled = true } }, false)
service_option pf Keyword.ioprio nargs args svc = ioprio_option pf nargs args svc
service_option pf Keyword.group nargs args svc = group_option pf nargs args svc
service_option pf Keyword.keycodes nargs args svc =
    if ltb nargs 2
    then (svc, true)
    else (record svc { keycodes = map pf.atoi (words args 1 (nargs - 1)) }, false)
service_option pf Keyword.oneshot nargs args svc =
    (record svc { flags = record (svc.flags) { oneshot = true } }, false)
service_option pf Keyword.onrestart nargs args svc = onrestart_option nargs args svc
service_option pf Keyword.critical nargs args svc =
    (record svc { flags = record (svc.flags) { critical = true } }, false)
service_option pf Keyword.setenv nargs args svc = setenv_option nargs args svc
service_option pf Keyword.socket nargs args svc = socket_option pf nargs args svc
service_option pf Keyword.user nargs args svc =
    if not (nargs == 2)
    then (svc, true)
    else (record svc { uid = decode_uid pf (arg args 1) }, false)
service_option pf Keyword.seclabel nargs args svc =
    if not (nargs == 2) then (svc, true) else (record svc { seclabel = some (arg args 1) }, false)
service_option pf _ nargs args svc = (svc, true)

unfoldable pub parse_line_service : Platform → ℕ → List Text → Service → Service × Bool
unfolding service_option
parse_line_service pf nargs args svc =
    if nargs == 0
    then (svc, false)
    else service_option pf (lookup_keyword (arg args 0)) nargs args
        (record svc { ioprio_class = no_class })
