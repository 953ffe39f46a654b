-- ===== src/Router/Words.antt =====
-- The command line of a command, which `ParseArgs` reads back.
use nexus_db.Prelude.{
  ℕ, ◌-◌, ◌%◌, ◌^◌, ◌≤◌, ◌<◌, ◌≡◌, refl, ◌∙◌, true, false, List, [], ◌∷◌, ltb, ◌==◌, Str, codes,
  length, arith,
}
use nexus_db.Prelude.Numerals.{show_ulong}
use nexus_db.Db.Page.{invalid_id}
use nexus_db.Router.{
  CommandKind, Command, no_command, Parsed, parse_flag, parse_flags, parse_create, parse_lifecycle,
  parse_container, parse_db, parse_table_create, parse_table_list, parse_table, parse_payload,
  parse_id, parse_insert, parse_record, parse_update, parse_scan, parse_args,
}
use nexus_db.Router.Hex.{hex_encode, hex_decode-hex_encode}
use nexus_db.Router.Uint.{parse_uint-show_ulong}
use nexus_db.Router.Typed.{has_payload, Ranges}

-- The words of a command of this kind.
unfoldable pub words : CommandKind → Command → List Str
words CommandKind.help c = codes "help" ∷ []
words CommandKind.container_create c =
    codes "container"
    ∷ codes "create"
    ∷ c.name
    ∷ codes "--memory"
    ∷ show_ulong c.memory
    ∷ codes "--cpu"
    ∷ show_ulong c.cpu
    ∷ codes "--engine"
    ∷ c.engine
    ∷ []
words CommandKind.container_start c = codes "container" ∷ codes "start" ∷ c.name ∷ []
words CommandKind.container_stop c = codes "container" ∷ codes "stop" ∷ c.name ∷ []
words CommandKind.container_status c = codes "container" ∷ codes "status" ∷ c.name ∷ []
words CommandKind.container_delete c = codes "container" ∷ codes "delete" ∷ c.name ∷ []
words CommandKind.db_init c = codes "db" ∷ codes "init" ∷ c.name ∷ []
words CommandKind.table_create c = codes "table" ∷ codes "create" ∷ c.name ∷ c.table ∷ []
words CommandKind.table_list c = codes "table" ∷ codes "list" ∷ c.name ∷ []
words CommandKind.insert c = codes "insert" ∷ c.name ∷ c.table ∷ hex_encode c.payload ∷ []
words CommandKind.get c =
    codes "get" ∷ c.name ∷ c.table ∷ show_ulong c.page ∷ show_ulong c.slot ∷ []
words CommandKind.update c =
    codes "update"
    ∷ c.name
    ∷ c.table
    ∷ show_ulong c.page
    ∷ show_ulong c.slot
    ∷ hex_encode c.payload
    ∷ []
words CommandKind.delete c =
    codes "delete" ∷ c.name ∷ c.table ∷ show_ulong c.page ∷ show_ulong c.slot ∷ []
words CommandKind.scan c = codes "scan" ∷ c.name ∷ c.table ∷ []

-- A command with the fields of its kind alone; the others have their initial values.
abbrev pub of_kind : CommandKind → Command → Command
of_kind CommandKind.help c = no_command
of_kind CommandKind.container_create c = record no_command {
  kind = CommandKind.container_create;
  name = c.name;
  memory = c.memory;
  cpu = c.cpu;
  engine = c.engine;
}
of_kind CommandKind.insert c = record no_command {
  kind = CommandKind.insert;
  name = c.name;
  table = c.table;
  payload = c.payload;
}
of_kind CommandKind.get c = record no_command {
  kind = CommandKind.get;
  name = c.name;
  table = c.table;
  page = c.page;
  slot = c.slot;
}
of_kind CommandKind.update c = record no_command {
  kind = CommandKind.update;
  name = c.name;
  table = c.table;
  page = c.page;
  slot = c.slot;
  payload = c.payload;
}
of_kind CommandKind.delete c = record no_command {
  kind = CommandKind.delete;
  name = c.name;
  table = c.table;
  page = c.page;
  slot = c.slot;
}
of_kind CommandKind.table_create c = record no_command {
  kind = CommandKind.table_create;
  name = c.name;
  table = c.table;
}
of_kind CommandKind.scan c = record no_command {
  kind = CommandKind.scan;
  name = c.name;
  table = c.table;
}
of_kind k c = record no_command { kind = k; name = c.name }

parse_id-show_ulong :
    (c out : Command)
    → Ranges c
    → parse_id (show_ulong c.page) (show_ulong c.slot) out
      ≡ Parsed.accepted (record out { page = c.page; slot = c.slot })
unfolding parse_id
parse_id-show_ulong c out r =
    let valid = r.page_valid in
    let fits = r.slot_fits in
    let page : c.page % 2 ^ 32 ≡ c.page = omega arith in
    let slot : c.slot % 2 ^ 16 ≡ c.slot = omega arith in
    rw
      (
        parse_id,
        parse_uint-show_ulong c.page (invalid_id - 1) (omega arith) (omega arith),
        parse_uint-show_ulong c.slot 0xFFFF (omega arith) (omega arith),
      )
      (simp (page, slot) refl)

parse_payload-hex_encode :
    (c out : Command)
    → Ranges c
    → 0 < length c.payload
    → parse_payload (hex_encode c.payload) out
      ≡ Parsed.accepted (record out { payload = c.payload })
unfolding parse_payload
parse_payload-hex_encode c out r given =
    let some_bytes : (length c.payload == 0) ≡ false = ground arith in
    rw (parse_payload, hex_decode-hex_encode c.payload r.of_bytes) (simp some_bytes refl)

parse_flag_memory :
    (n : ℕ) (out : Command)
    → n < 2 ^ 48
    → parse_flag (codes "--memory") (show_ulong n) out ≡ Parsed.accepted (record out { memory = n })
unfolding parse_flag
parse_flag_memory n out h =
    let fits : ltb (2 ^ 64 - 1) n ≡ false = ground arith in
    rw (parse_flag, parse_uint-show_ulong n 0xFFFFFFFFFFFF (omega arith) (omega arith))
      (simp fits refl)

parse_flag_cpu :
    (n : ℕ) (out : Command)
    → n ≤ 100
    → parse_flag (codes "--cpu") (show_ulong n) out ≡ Parsed.accepted (record out { cpu = n })
unfolding parse_flag
parse_flag_cpu n out h =
    let fits : n % 2 ^ 32 ≡ n = omega arith in
    rw (parse_flag, parse_uint-show_ulong n 100 h (omega arith)) (simp fits refl)

parse_flags-step :
    (flag val : Str) (rest : List Str) (out out' : Command)
    → parse_flag flag val out ≡ Parsed.accepted out'
    → parse_flags (flag ∷ val ∷ rest) out ≡ parse_flags rest out'
unfolding parse_flags
parse_flags-step flag val rest out out' e = rw (parse_flags, e) refl

parse_create-words :
    (c : Command)
    → Ranges c
    → parse_flags
        (codes "--memory"
          ∷ show_ulong c.memory
          ∷ codes "--cpu"
          ∷ show_ulong c.cpu
          ∷ codes "--engine"
          ∷ c.engine
          ∷ [])
        (record no_command { kind = CommandKind.container_create; name = c.name })
      ≡ Parsed.accepted (of_kind CommandKind.container_create c)
unfolding parse_flags parse_flag
parse_create-words c r =
    let named : Command = record no_command {
      kind = CommandKind.container_create;
      name = c.name;
    } in
    let sized : Command = record named { memory = c.memory } in
    parse_flags-step (codes "--memory") (show_ulong c.memory)
      (codes "--cpu" ∷ show_ulong c.cpu ∷ codes "--engine" ∷ c.engine ∷ []) named sized
      (parse_flag_memory c.memory named r.memory_fits)
    ∙ parse_flags-step (codes "--cpu") (show_ulong c.cpu) (codes "--engine" ∷ c.engine ∷ []) sized
        (record sized { cpu = c.cpu }) (parse_flag_cpu c.cpu sized r.cpu_percent)

-- `ParseArgs` reads the command line of every command whose fields keep to their ranges and whose
-- record is not empty where it inserts or updates: it gives back the fields that its kind has.
pub parse_args-words :
    (k : CommandKind) (c : Command)
    → Ranges c
    → (has_payload k ≡ true → 0 < length c.payload)
    → parse_args (words k c) no_command ≡ Parsed.accepted (of_kind k c)
unfolding parse_args words parse_container parse_create parse_lifecycle parse_db parse_table
    parse_table_create parse_table_list parse_insert parse_record parse_scan parse_update
parse_args-words CommandKind.help c r given = refl
parse_args-words CommandKind.container_create c r given = parse_create-words c r
parse_args-words CommandKind.container_start c r given = refl
parse_args-words CommandKind.container_stop c r given = refl
parse_args-words CommandKind.container_status c r given = refl
parse_args-words CommandKind.container_delete c r given = refl
parse_args-words CommandKind.db_init c r given = refl
parse_args-words CommandKind.table_create c r given = refl
parse_args-words CommandKind.table_list c r given = refl
parse_args-words CommandKind.insert c r given =
    parse_payload-hex_encode c
      (record no_command { kind = CommandKind.insert; name = c.name; table = c.table }) r
      (given refl)
parse_args-words CommandKind.get c r given =
    parse_id-show_ulong c
      (record no_command { kind = CommandKind.get; name = c.name; table = c.table }) r
parse_args-words CommandKind.update c r given =
    let named : Command = record no_command {
      kind = CommandKind.update;
      name = c.name;
      table = c.table;
    } in
    rw (parse_update, parse_id-show_ulong c named r)
      (parse_payload-hex_encode c (record named { page = c.page; slot = c.slot }) r (given refl))
parse_args-words CommandKind.delete c r given =
    parse_id-show_ulong c
      (record no_command { kind = CommandKind.delete; name = c.name; table = c.table }) r
parse_args-words CommandKind.scan c r given = refl
