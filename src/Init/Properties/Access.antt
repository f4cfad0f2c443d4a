-- ===== src/Init/Properties/Access.antt =====
-- Who may set a property or control a service: the tables and checks of
-- init/init/property_service.c, and the handler of its socket.
use android4_4_4_r.Prelude.{
  c_string, ℕ, ◌+◌, ◌-◌, List, [], ◌∷◌, ◌++◌, length, take, drop, Bool, true, false, not, ◌||◌,
  ◌&&◌, Option, none, some, Text, codes, text_eq, has_prefix, leb, ◌==◌, if◌then◌else◌,
}
use android4_4_4_r.Init.Platform.{Platform}
use android4_4_4_r.Init.Properties.{is_legal_property_name}

-- The user ids of <private/android_filesystem_config.h>, `multiuser_get_app_id`, and the calls of
-- libselinux. AID_ROOT is 0.
pub record Security : Type 0 where
  pub aid_system : ℕ
  pub aid_radio : ℕ
  pub aid_bluetooth : ℕ
  pub aid_dhcp : ℕ
  pub aid_log : ℕ
  pub aid_shell : ℕ
  pub multiuser_get_app_id : ℕ → ℕ
  -- `is_selinux_enabled() > 0`
  pub selinux_enabled : Bool
  -- `sehandle_prop` is set
  pub sehandle_prop : Bool
  -- `selabel_lookup`, for a name
  pub selabel_lookup : Text → Option Text
  -- `selinux_check_access(sctx, tctx, "property_service", "set", name) == 0`
  pub selinux_check_access : Text → Text → Text → Bool

pub record Perm : Type 0 where
  pub prefix : Text
  pub uid : ℕ
  pub gid : ℕ

abbrev perm : Text → ℕ → ℕ → Perm
perm prefix uid gid = record { prefix = prefix; uid = uid; gid = gid }

module _ (sec : Security) where
  unfoldable pub property_perms : List Perm
  property_perms =
      perm (codes "net.rmnet0.") sec.aid_radio 0
      ∷ perm (codes "net.gprs.") sec.aid_radio 0
      ∷ perm (codes "net.ppp") sec.aid_radio 0
      ∷ perm (codes "net.qmi") sec.aid_radio 0
      ∷ perm (codes "net.lte") sec.aid_radio 0
      ∷ perm (codes "net.cdma") sec.aid_radio 0
      ∷ perm (codes "ril.") sec.aid_radio 0
      ∷ perm (codes "gsm.") sec.aid_radio 0
      ∷ perm (codes "persist.radio") sec.aid_radio 0
      ∷ perm (codes "net.dns") sec.aid_radio 0
      ∷ perm (codes "sys.usb.config") sec.aid_radio 0
      ∷ perm (codes "net.") sec.aid_system 0
      ∷ perm (codes "dev.") sec.aid_system 0
      ∷ perm (codes "runtime.") sec.aid_system 0
      ∷ perm (codes "hw.") sec.aid_system 0
      ∷ perm (codes "sys.") sec.aid_system 0
      ∷ perm (codes "sys.powerctl") sec.aid_shell 0
      ∷ perm (codes "service.") sec.aid_system 0
      ∷ perm (codes "wlan.") sec.aid_system 0
      ∷ perm (codes "bluetooth.") sec.aid_bluetooth 0
      ∷ perm (codes "dhcp.") sec.aid_system 0
      ∷ perm (codes "dhcp.") sec.aid_dhcp 0
      ∷ perm (codes "debug.") sec.aid_system 0
      ∷ perm (codes "debug.") sec.aid_shell 0
      ∷ perm (codes "log.") sec.aid_shell 0
      ∷ perm (codes "service.adb.root") sec.aid_shell 0
      ∷ perm (codes "service.adb.tcp.port") sec.aid_shell 0
      ∷ perm (codes "persist.sys.") sec.aid_system 0
      ∷ perm (codes "persist.service.") sec.aid_system 0
      ∷ perm (codes "persist.security.") sec.aid_system 0
      ∷ perm (codes "persist.service.bdroid.") sec.aid_bluetooth 0
      ∷ perm (codes "selinux.") sec.aid_system 0
      ∷ []

  -- here `prefix` is the whole name of the service
  unfoldable pub control_perms : List Perm
  control_perms =
      perm (codes "dumpstate") sec.aid_shell sec.aid_log
      ∷ perm (codes "ril-daemon") sec.aid_radio sec.aid_radio
      ∷ []

  unfoldable pub check_mac_perms : Text → Option Text → Bool
  check_mac_perms name sctx = if not sec.selinux_enabled then true else elim sctx [
    | none ↦ false
    | some source ↦ if not sec.sehandle_prop then false else elim (sec.selabel_lookup name) [
      | none ↦ false
      | some tctx ↦ sec.selinux_check_access source tctx name
    ]
  ]

  -- `ctl_name` has room for PROP_VALUE_MAX + 4 bytes
  unfoldable pub check_control_mac_perms : Platform → Text → Option Text → Bool
  check_control_mac_perms pf name sctx =
      let ctl_name = codes "ctl." ++ name in
      if leb (pf.prop_value_max + 4) (length ctl_name) then false else check_mac_perms ctl_name sctx

  -- `(uid && perm.uid == uid) || (gid && perm.gid == gid)`
  abbrev pub grants : Perm → ℕ → ℕ → Bool
  grants p uid gid = not (uid == 0) && p.uid == uid || not (gid == 0) && p.gid == gid

  -- the loops: whether an entry that fits the name grants it to the caller
  unfoldable pub control_entry : List Perm → Text → ℕ → ℕ → Bool
  control_entry [] name uid gid = false
  control_entry (p ∷ ps) name uid gid =
      text_eq p.prefix name && grants p uid gid || control_entry ps name uid gid

  unfoldable pub property_entry : List Perm → Text → ℕ → ℕ → Bool
  property_entry [] name uid gid = false
  property_entry (p ∷ ps) name uid gid =
      has_prefix p.prefix name && grants p uid gid || property_entry ps name uid gid

  unfoldable pub check_control_perms : Platform → Text → ℕ → ℕ → Option Text → Bool
  check_control_perms pf name uid gid sctx =
      if uid == sec.aid_system || uid == 0
      then check_control_mac_perms pf name sctx
      else if control_entry control_perms name uid gid
      then check_control_mac_perms pf name sctx
      else false

  -- `if(!strncmp(name, "ro.", 3)) name += 3;`
  abbrev pub without_ro : Text → Text
  without_ro name = if has_prefix (codes "ro.") name then drop 3 name else name

  unfoldable pub check_perms : Text → ℕ → ℕ → Option Text → Bool
  check_perms full uid0 gid sctx =
      let name = without_ro full in
      let app_id = sec.multiuser_get_app_id uid0 in
      let uid = if app_id == sec.aid_bluetooth then app_id else uid0 in
      if uid0 == 0
      then check_mac_perms name sctx
      else if property_entry property_perms name uid gid
      then check_mac_perms name sctx
      else false

-- A connection to the property socket, as the system calls report it. `name` and `value` are the
-- arrays of the message, PROP_NAME_MAX and PROP_VALUE_MAX bytes long.
pub record Request : Type 0 where
  pub accepted : Bool
  -- `getsockopt` with SO_PEERCRED: uid and gid
  pub peercred : Option (ℕ × ℕ)
  -- `recv` gives `sizeof(prop_msg)` bytes
  pub whole : Bool
  -- `msg.cmd == PROP_MSG_SETPROP`
  pub is_setprop : Bool
  pub name : List ℕ
  pub value : List ℕ
  -- `getpeercon`
  pub source_ctx : Option Text

-- What the handler does: nothing, a call of `handle_control_message`, or a call of `property_set`.
pub data Reply : Type 0 where
  ignored : Reply
  control : Text → Text → Reply
  set_property : Text → Text → Reply

-- the handler from the call of `recv` on, for a caller of this uid and gid
unfoldable pub serve : Platform → Security → Request → ℕ → ℕ → Reply
unfolding c_string
serve pf sec req uid gid =
    let name = c_string (take (pf.prop_name_max - 1) req.name) in
    let value = c_string (take (pf.prop_value_max - 1) req.value) in
    if not req.whole
    then ignored
    else if not req.is_setprop
    then ignored
    else if not (is_legal_property_name pf name)
    then ignored
    else if has_prefix (codes "ctl.") name
    then (if check_control_perms sec pf value uid gid req.source_ctx
        then control (drop 4 name) value
        else ignored)
    else if check_perms sec name uid gid req.source_ctx
    then set_property name value
    else ignored

unfoldable pub handle_property_set_fd : Platform → Security → Request → Reply
unfolding serve
handle_property_set_fd pf sec req =
    if not req.accepted
    then ignored
    else elim req.peercred [ none ↦ ignored | some cr ↦ serve pf sec req cr.0 cr.1 ]
