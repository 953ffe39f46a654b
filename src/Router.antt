-- ===== src/Router.antt =====
-- src/manager/router.cpp: the syntax of the command line. `ParseArgs` gives the command, or the
-- code and the message with which it refuses the words; `*out` counts only where it answers kOk.
pub mod Help
pub mod Hex
pub mod Uint
pub mod Words
pub mod Typed
pub mod Accepted
pub mod Dispatch
use nexus_db.Prelude.{
  ℕ, zero, suc, ◌+◌, ◌-◌, ◌*◌, ◌/◌, ◌%◌, ◌^◌, Bool, true, false, not, ◌&&◌, ◌||◌, Option, none,
  some, List, [], ◌∷◌, ◌++◌, ltb, leb, ◌==◌, if◌then◌else◌, String, Str, codes, str_eq, length,
  get_or,
}
use nexus_db.Db.Page.{invalid_id}
use nexus_db.Router.Hex.{hex_decode}
use nexus_db.Router.Uint.{parse_uint}

-- `CliExit`
pub data Exit : Type 0 where
  ok : Exit
  error : Exit
  usage : Exit
  invalid : Exit
  not_found : Exit

pub data CommandKind : Type 0 where
  help : CommandKind
  container_create : CommandKind
  container_start : CommandKind
  container_stop : CommandKind
  container_status : CommandKind
  container_delete : CommandKind
  db_init : CommandKind
  table_create : CommandKind
  table_list : CommandKind
  insert : CommandKind
  get : CommandKind
  update : CommandKind
  delete : CommandKind
  scan : CommandKind

pub record Command : Type 0 where
  pub kind : CommandKind
  pub name : Str
  pub table : Str
  pub payload : List ℕ
  pub page : ℕ
  pub slot : ℕ
  pub memory : ℕ
  pub cpu : ℕ
  pub engine : Str

-- The initial values of the members.
abbrev pub no_command : Command
no_command = record {
  kind = CommandKind.help;
  name = [];
  table = [];
  payload = [];
  page = 0;
  slot = 0;
  memory = 0;
  cpu = 0;
  engine = [];
}

pub data Parsed : Type 0 where
  accepted : Command → Parsed
  refused : Exit → Str → Parsed

-- A message of the source.
unfoldable pub text : String → Str
text s = codes s

-- `Usage` and `Invalid`
abbrev pub bad_usage : Str → Parsed
bad_usage message = Parsed.refused Exit.usage message

abbrev pub invalid_value : Str → Parsed
invalid_value message = Parsed.refused Exit.invalid message

-- A flag of `container create` and its value.
unfoldable pub parse_flag : Str → Str → Command → Parsed
parse_flag flag val out =
    if str_eq flag (codes "--memory")
    then elim (parse_uint val 0xFFFFFFFFFFFF) [
      | none ↦ invalid_value (text "invalid --memory value: " ++ val)
      | some v ↦
          if ltb (2 ^ 64 - 1) v
          then invalid_value (text "invalid --memory value: " ++ val)
          else Parsed.accepted (record out { memory = v })
    ]
    else if str_eq flag (codes "--cpu")
    then elim (parse_uint val 100) [
      | none ↦ invalid_value (text "invalid --cpu value (0..100): " ++ val)
      | some v ↦ Parsed.accepted (record out { cpu = v % 2 ^ 32 })
    ]
    else if str_eq flag (codes "--engine")
    then Parsed.accepted (record out { engine = val })
    else bad_usage (text "unknown flag: " ++ flag)

-- The loop over the flags of `container create`.
unfoldable pub parse_flags : List Str → Command → Parsed
parse_flags [] out = Parsed.accepted out
parse_flags (flag ∷ []) out = bad_usage (text "missing value for " ++ flag)
parse_flags (flag ∷ val ∷ rest) out = elim (parse_flag flag val out) [
  | accepted out' ↦ parse_flags rest out'
  | refused code message ↦ Parsed.refused code message
]

abbrev pub is_lifecycle : Str → Bool
is_lifecycle sub =
    str_eq sub (codes "start")
    || str_eq sub (codes "stop")
    || str_eq sub (codes "status")
    || str_eq sub (codes "delete")

abbrev pub lifecycle_kind : Str → CommandKind
lifecycle_kind sub =
    if str_eq sub (codes "start")
    then CommandKind.container_start
    else if str_eq sub (codes "stop")
    then CommandKind.container_stop
    else if str_eq sub (codes "status")
    then CommandKind.container_status
    else CommandKind.container_delete

-- `container create <name> [flags]`
unfoldable pub parse_create : List Str → Command → Parsed
parse_create [] out = bad_usage (
    text
      "usage: nexusdb container create <name> [--memory <bytes>] [--cpu <percent>] [--engine <path>]")
parse_create (name ∷ flags) out =
    parse_flags flags (record out { kind = CommandKind.container_create; name = name })

unfoldable pub parse_lifecycle : Str → List Str → Command → Parsed
parse_lifecycle sub (name ∷ []) out =
    Parsed.accepted (record out { name = name; kind = lifecycle_kind sub })
parse_lifecycle sub args out = bad_usage (text "usage: nexusdb container " ++ sub ++ text " <name>")

-- The words behind `container`.
unfoldable pub parse_container : List Str → Command → Parsed
parse_container [] out =
    bad_usage (text "usage: nexusdb container <create|start|stop|status|delete> <name>")
parse_container (sub ∷ args) out =
    if str_eq sub (codes "create")
    then parse_create args out
    else if is_lifecycle sub
    then parse_lifecycle sub args out
    else bad_usage (text "unknown container subcommand: " ++ sub)

-- The words behind `db`.
unfoldable pub parse_db : List Str → Command → Parsed
parse_db (sub ∷ name ∷ []) out =
    if str_eq sub (codes "init")
    then Parsed.accepted (record out { kind = CommandKind.db_init; name = name })
    else bad_usage (text "usage: nexusdb db init <name>")
parse_db args out = bad_usage (text "usage: nexusdb db init <name>")

unfoldable pub parse_table_create : List Str → Command → Parsed
parse_table_create (name ∷ table ∷ []) out =
    Parsed.accepted (record out { kind = CommandKind.table_create; name = name; table = table })
parse_table_create args out = bad_usage (text "usage: nexusdb table create <name> <table>")

unfoldable pub parse_table_list : List Str → Command → Parsed
parse_table_list (name ∷ []) out =
    Parsed.accepted (record out { kind = CommandKind.table_list; name = name })
parse_table_list args out = bad_usage (text "usage: nexusdb table list <name>")

-- The words behind `table`.
unfoldable pub parse_table : List Str → Command → Parsed
parse_table [] out = bad_usage (text "usage: nexusdb table <create|list> ...")
parse_table (sub ∷ args) out =
    if str_eq sub (codes "create")
    then parse_table_create args out
    else if str_eq sub (codes "list")
    then parse_table_list args out
    else bad_usage (text "unknown table subcommand: " ++ sub)

-- A record's bytes, which may not be none.
unfoldable pub parse_payload : Str → Command → Parsed
parse_payload hex out = elim (hex_decode hex) [
  | none ↦ invalid_value (text "malformed hex data: " ++ hex)
  | some bytes ↦
      if length bytes == 0
      then invalid_value (text "record data must be non-empty")
      else Parsed.accepted (record out { payload = bytes })
]

-- A page id and a slot id.
unfoldable pub parse_id : Str → Str → Command → Parsed
parse_id page slot out = elim (parse_uint page (invalid_id - 1)) [
  | none ↦ invalid_value (text "invalid page id: " ++ page)
  | some p ↦ elim (parse_uint slot 0xFFFF) [
    | none ↦ invalid_value (text "invalid slot id: " ++ slot)
    | some s ↦ Parsed.accepted (record out { page = p % 2 ^ 32; slot = s % 2 ^ 16 })
  ]
]

-- The words behind `insert`.
unfoldable pub parse_insert : List Str → Command → Parsed
parse_insert (name ∷ table ∷ hex ∷ []) out =
    parse_payload hex (record out { kind = CommandKind.insert; name = name; table = table })
parse_insert args out = bad_usage (text "usage: nexusdb insert <name> <table> <hex-data>")

-- The words behind `get` or `delete`.
unfoldable pub parse_record : CommandKind → Str → List Str → Command → Parsed
parse_record kind message (name ∷ table ∷ page ∷ slot ∷ []) out =
    parse_id page slot (record out { kind = kind; name = name; table = table })
parse_record kind message args out = bad_usage message

-- The words behind `update`.
unfoldable pub parse_update : List Str → Command → Parsed
parse_update (name ∷ table ∷ page ∷ slot ∷ hex ∷ []) out =
    elim (parse_id page slot
      (record out { kind = CommandKind.update; name = name; table = table })) [
        | accepted out' ↦ parse_payload hex out'
        | refused code message ↦ Parsed.refused code message
      ]
parse_update args out =
    bad_usage (text "usage: nexusdb update <name> <table> <page-id> <slot-id> <hex-data>")

-- The words behind `scan`.
unfoldable pub parse_scan : List Str → Command → Parsed
parse_scan (name ∷ table ∷ []) out =
    Parsed.accepted (record out { kind = CommandKind.scan; name = name; table = table })
parse_scan args out = bad_usage (text "usage: nexusdb scan <name> <table>")

-- `ParseArgs` with a command that is not NULL.
unfoldable pub parse_args : List Str → Command → Parsed
parse_args [] out = bad_usage (text "no command given (try `nexusdb help`)")
parse_args (cmd ∷ args) out =
    if str_eq cmd (codes "help") || str_eq cmd (codes "--help") || str_eq cmd (codes "-h")
    then Parsed.accepted (record out { kind = CommandKind.help })
    else if str_eq cmd (codes "container")
    then parse_container args out
    else if str_eq cmd (codes "db")
    then parse_db args out
    else if str_eq cmd (codes "table")
    then parse_table args out
    else if str_eq cmd (codes "insert")
    then parse_insert args out
    else if str_eq cmd (codes "get")
    then parse_record CommandKind.get (text "usage: nexusdb get <name> <table> <page-id> <slot-id>")
        args out
    else if str_eq cmd (codes "update")
    then parse_update args out
    else if str_eq cmd (codes "delete")
    then parse_record CommandKind.delete
        (text "usage: nexusdb delete <name> <table> <page-id> <slot-id>") args out
    else if str_eq cmd (codes "scan")
    then parse_scan args out
    else bad_usage (text "unknown command: " ++ cmd)
