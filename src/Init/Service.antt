-- ===== src/Init/Service.antt =====
-- The records of init/init/init.h: commands, actions, services and what a service owns.
use android4_4_4_r.Prelude.{ℕ, List, [], Bool, false, Option, none, Text, codes}
use android4_4_4_r.Init.Keywords.{Keyword}

-- `int (*func)(int nargs, char **args)`: the `do_…` function of a keyword, or a function that
-- `queue_builtin_action` is given.
pub data Func : Type 0 where
  builtin : Keyword → Func
  native : ℕ → Func

-- `nargs` is the length of `args`.
pub record Command : Type 0 where
  pub func : Func
  pub args : List Text

pub record Action : Type 0 where
  pub name : Text
  pub commands : List Command

pub record Socketinfo : Type 0 where
  pub name : Text
  pub kind : Text
  pub uid : ℕ
  pub gid : ℕ
  pub perm : ℕ

-- `value` is `none` where the source reads a slot of `args` that was never written.
pub record Svcenvinfo : Type 0 where
  pub name : Text
  pub value : Option Text

-- `flags`: one field for each `SVC_…` bit
pub record Flags : Type 0 where
  pub disabled : Bool
  pub oneshot : Bool
  pub running : Bool
  pub restarting : Bool
  pub console : Bool
  pub critical : Bool
  pub reset : Bool
  pub rc_disabled : Bool
  pub restart : Bool

pub data IoSchedClass : Type 0 where
  no_class rt be idle : IoSchedClass

-- `sockets` and `envvars` are the linked lists from their heads, `supp_gids` holds the
-- `nr_supp_gids` groups in use. `nargs` is the length of `args`.
pub record Service : Type 0 where
  pub name : Text
  pub classname : Text
  pub flags : Flags
  pub pid : ℕ
  pub time_started : ℕ
  pub time_crashed : ℕ
  pub nr_crashed : ℕ
  pub uid : ℕ
  pub gid : ℕ
  pub supp_gids : List ℕ
  pub seclabel : Option Text
  pub sockets : List Socketinfo
  pub envvars : List Svcenvinfo
  pub onrestart : List Command
  pub keycodes : List ℕ
  pub ioprio_class : IoSchedClass
  pub ioprio_pri : ℕ
  pub args : List Text

abbrev pub no_flags : Flags
no_flags = record {
  disabled = false;
  oneshot = false;
  running = false;
  restarting = false;
  console = false;
  critical = false;
  reset = false;
  rc_disabled = false;
  restart = false;
}

-- `calloc`, and the fields that `parse_service` sets
abbrev pub new_service : Text → List Text → Service
new_service name args = record {
  name = name;
  classname = codes "default";
  flags = no_flags;
  pid = 0;
  time_started = 0;
  time_crashed = 0;
  nr_crashed = 0;
  uid = 0;
  gid = 0;
  supp_gids = [];
  seclabel = none;
  sockets = [];
  envvars = [];
  onrestart = [];
  keycodes = [];
  ioprio_class = IoSchedClass.no_class;
  ioprio_pri = 0;
  args = args;
}
