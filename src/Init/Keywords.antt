-- ===== src/Init/Keywords.antt =====
-- The keywords of the configuration language: init/init/keywords.h, and `keyword_info` and
-- `lookup_keyword` of init/init/init_parser.c.
pub mod Lookup
use android4_4_4_r.Prelude.{
  ℕ, ◌+◌, List, [], ◌∷◌, Bool, true, false, Text, codes, text_eq, ◌==◌, if◌then◌else◌,
}

-- `K_…`, in the order of keywords.h
pub data Keyword : Type 0 where
  unknown capability chdir chroot class class_start class_stop class_reset console critical :
      Keyword
  disabled domainname exec export group hostname ifup insmod import keycodes mkdir : Keyword
  mount_all mount on oneshot onrestart powerctl restart restorecon rm rmdir seclabel : Keyword
  service setcon setenforce setenv setkey setprop setrlimit setsebool socket start stop : Keyword
  swapon_all trigger symlink sysclktz user wait write copy chown chmod loglevel : Keyword
  load_persist_props ioprio : Keyword

-- `SECTION`, `COMMAND`, `OPTION`; `no_kind` is a flag word of 0
pub data Kind : Type 0 where
  no_kind section command option : Kind

pub record KeywordInfo : Type 0 where
  pub name : Text
  pub flags : Kind
  pub nargs : ℕ

-- `KEYWORD(symbol, flags, nargs, func)`
abbrev entry : Text → Kind → ℕ → KeywordInfo
entry s k n = record { name = s; flags = k; nargs = n + 1 }

unfoldable pub keyword_info : Keyword → KeywordInfo
keyword_info unknown = record { name = codes "unknown"; flags = no_kind; nargs = 0 }
keyword_info capability = entry (codes "capability") option 0
keyword_info chdir = entry (codes "chdir") command 1
keyword_info chroot = entry (codes "chroot") command 1
keyword_info class = entry (codes "class") option 0
keyword_info class_start = entry (codes "class_start") command 1
keyword_info class_stop = entry (codes "class_stop") command 1
keyword_info class_reset = entry (codes "class_reset") command 1
keyword_info console = entry (codes "console") option 0
keyword_info critical = entry (codes "critical") option 0
keyword_info disabled = entry (codes "disabled") option 0
keyword_info domainname = entry (codes "domainname") command 1
keyword_info exec = entry (codes "exec") command 1
keyword_info export = entry (codes "export") command 2
keyword_info group = entry (codes "group") option 0
keyword_info hostname = entry (codes "hostname") command 1
keyword_info ifup = entry (codes "ifup") command 1
keyword_info insmod = entry (codes "insmod") command 1
keyword_info import = entry (codes "import") section 1
keyword_info keycodes = entry (codes "keycodes") option 0
keyword_info mkdir = entry (codes "mkdir") command 1
keyword_info mount_all = entry (codes "mount_all") command 1
keyword_info mount = entry (codes "mount") command 3
keyword_info on = entry (codes "on") section 0
keyword_info oneshot = entry (codes "oneshot") option 0
keyword_info onrestart = entry (codes "onrestart") option 0
keyword_info powerctl = entry (codes "powerctl") command 1
keyword_info restart = entry (codes "restart") command 1
keyword_info restorecon = entry (codes "restorecon") command 1
keyword_info rm = entry (codes "rm") command 1
keyword_info rmdir = entry (codes "rmdir") command 1
keyword_info seclabel = entry (codes "seclabel") option 0
keyword_info service = entry (codes "service") section 0
keyword_info setcon = entry (codes "setcon") command 1
keyword_info setenforce = entry (codes "setenforce") command 1
keyword_info setenv = entry (codes "setenv") option 2
keyword_info setkey = entry (codes "setkey") command 0
keyword_info setprop = entry (codes "setprop") command 2
keyword_info setrlimit = entry (codes "setrlimit") command 3
keyword_info setsebool = entry (codes "setsebool") command 2
keyword_info socket = entry (codes "socket") option 0
keyword_info start = entry (codes "start") command 1
keyword_info stop = entry (codes "stop") command 1
keyword_info swapon_all = entry (codes "swapon_all") command 1
keyword_info trigger = entry (codes "trigger") command 1
keyword_info symlink = entry (codes "symlink") command 1
keyword_info sysclktz = entry (codes "sysclktz") command 1
keyword_info user = entry (codes "user") option 0
keyword_info wait = entry (codes "wait") command 1
keyword_info write = entry (codes "write") command 2
keyword_info copy = entry (codes "copy") command 2
keyword_info chown = entry (codes "chown") command 2
keyword_info chmod = entry (codes "chmod") command 2
keyword_info loglevel = entry (codes "loglevel") command 1
keyword_info load_persist_props = entry (codes "load_persist_props") command 0
keyword_info ioprio = entry (codes "ioprio") option 0

-- The tests of one `case`, in order: `if (!strcmp(s, "…")) return K_…;`
pub lookup_in : List (Text × Keyword) → Text → Keyword → Keyword
lookup_in [] s otherwise = otherwise
lookup_in ((t, k) ∷ rows) s otherwise = if text_eq s t then k else lookup_in rows s otherwise

abbrev pub rows_c : List (Text × Keyword)
rows_c =
    (codes "opy", copy)
    ∷ (codes "apability", capability)
    ∷ (codes "hdir", chdir)
    ∷ (codes "hroot", chroot)
    ∷ (codes "lass", class)
    ∷ (codes "lass_start", class_start)
    ∷ (codes "lass_stop", class_stop)
    ∷ (codes "lass_reset", class_reset)
    ∷ (codes "onsole", console)
    ∷ (codes "hown", chown)
    ∷ (codes "hmod", chmod)
    ∷ (codes "ritical", critical)
    ∷ []

abbrev pub rows_d : List (Text × Keyword)
rows_d = (codes "isabled", disabled) ∷ (codes "omainname", domainname) ∷ []

abbrev pub rows_e : List (Text × Keyword)
rows_e = (codes "xec", exec) ∷ (codes "xport", export) ∷ []

abbrev pub rows_g : List (Text × Keyword)
rows_g = (codes "roup", group) ∷ []

abbrev pub rows_h : List (Text × Keyword)
rows_h = (codes "ostname", hostname) ∷ []

abbrev pub rows_i : List (Text × Keyword)
rows_i =
    (codes "oprio", ioprio)
    ∷ (codes "fup", ifup)
    ∷ (codes "nsmod", insmod)
    ∷ (codes "mport", import)
    ∷ []

abbrev pub rows_k : List (Text × Keyword)
rows_k = (codes "eycodes", keycodes) ∷ []

abbrev pub rows_l : List (Text × Keyword)
rows_l = (codes "oglevel", loglevel) ∷ (codes "oad_persist_props", load_persist_props) ∷ []

abbrev pub rows_m : List (Text × Keyword)
rows_m = (codes "kdir", mkdir) ∷ (codes "ount_all", mount_all) ∷ (codes "ount", mount) ∷ []

abbrev pub rows_o : List (Text × Keyword)
rows_o = (codes "n", on) ∷ (codes "neshot", oneshot) ∷ (codes "nrestart", onrestart) ∷ []

abbrev pub rows_p : List (Text × Keyword)
rows_p = (codes "owerctl", powerctl) ∷ []

abbrev pub rows_r : List (Text × Keyword)
rows_r =
    (codes "estart", restart)
    ∷ (codes "estorecon", restorecon)
    ∷ (codes "mdir", rmdir)
    ∷ (codes "m", rm)
    ∷ []

abbrev pub rows_s : List (Text × Keyword)
rows_s =
    (codes "eclabel", seclabel)
    ∷ (codes "ervice", service)
    ∷ (codes "etcon", setcon)
    ∷ (codes "etenforce", setenforce)
    ∷ (codes "etenv", setenv)
    ∷ (codes "etkey", setkey)
    ∷ (codes "etprop", setprop)
    ∷ (codes "etrlimit", setrlimit)
    ∷ (codes "etsebool", setsebool)
    ∷ (codes "ocket", socket)
    ∷ (codes "tart", start)
    ∷ (codes "top", stop)
    ∷ (codes "wapon_all", swapon_all)
    ∷ (codes "ymlink", symlink)
    ∷ (codes "ysclktz", sysclktz)
    ∷ []

abbrev pub rows_t : List (Text × Keyword)
rows_t = (codes "rigger", trigger) ∷ []

abbrev pub rows_u : List (Text × Keyword)
rows_u = (codes "ser", user) ∷ []

abbrev pub rows_w : List (Text × Keyword)
rows_w = (codes "rite", write) ∷ (codes "ait", wait) ∷ []

-- `switch (*s++)`. The case of 'p' has no `break`, and goes on with the tests of 'r'.
unfoldable pub lookup_keyword : Text → Keyword
unfolding lookup_in text_eq
lookup_keyword [] = unknown
lookup_keyword (c ∷ s) =
    if c == b'c'
    then lookup_in rows_c s unknown
    else if c == b'd'
    then lookup_in rows_d s unknown
    else if c == b'e'
    then lookup_in rows_e s unknown
    else if c == b'g'
    then lookup_in rows_g s unknown
    else if c == b'h'
    then lookup_in rows_h s unknown
    else if c == b'i'
    then lookup_in rows_i s unknown
    else if c == b'k'
    then lookup_in rows_k s unknown
    else if c == b'l'
    then lookup_in rows_l s unknown
    else if c == b'm'
    then lookup_in rows_m s unknown
    else if c == b'o'
    then lookup_in rows_o s unknown
    else if c == b'p'
    then lookup_in rows_p s (lookup_in rows_r s unknown)
    else if c == b'r'
    then lookup_in rows_r s unknown
    else if c == b's'
    then lookup_in rows_s s unknown
    else if c == b't'
    then lookup_in rows_t s unknown
    else if c == b'u'
    then lookup_in rows_u s unknown
    else if c == b'w'
    then lookup_in rows_w s unknown
    else unknown
