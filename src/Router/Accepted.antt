-- ===== src/Router/Accepted.antt =====
-- Every command that `ParseArgs` accepts keeps to the ranges of its fields.
use nexus_db.Prelude.{
  ◌-◌, ◌≡◌, refl, sym, ◌∙◌, inl, inr, false, ◌||◌, List, [], ◌∷◌, ◌==◌, Bool-cases, Option-cases,
  Str, codes, str_eq, length, arith,
}
use nexus_db.Db.Page.{invalid_id}
use nexus_db.Router.{
  CommandKind, Command, no_command, Parsed, text, parse_db, parse_table_create, parse_table_list,
  parse_table, parse_payload, parse_id, parse_insert, parse_record, parse_update, parse_scan,
  parse_args,
}
use nexus_db.Router.Hex.{hex_decode, hex_decode-Printed}
use nexus_db.Router.Uint.{parse_uint, parse_uint-le}
use nexus_db.Router.Typed.{
  has_payload, Ranges, Fits, Keeps, Keeps-Fits, relabel, parse_container-Fits,
}

parse_payload-Fits : (hex : Str) (out : Command) → Ranges out → Fits (parse_payload hex out)
unfolding parse_payload
parse_payload-Fits hex out r = elim (Option-cases (hex_decode hex)) [
  | inl n ↦ rw (Fits, parse_payload, n) (inr refl)
  | inr (bytes, p) ↦ elim (Bool-cases (length bytes == 0)) [
    | inl z ↦ rw (Fits, parse_payload, p, z) (inr refl)
    | inr z ↦
        rw (Fits, parse_payload, p, z)
          (
            record {
              page_valid = r.page_valid;
              slot_fits = r.slot_fits;
              memory_fits = r.memory_fits;
              cpu_percent = r.cpu_percent;
              of_bytes = ((hex_decode-Printed hex bytes).0 p).0;
            },
            λ needs. ground arith,
          )
  ]
]

parse_id-Keeps :
    (page slot : Str) (out : Command) → Ranges out → Keeps out.kind (parse_id page slot out)
unfolding parse_id
parse_id-Keeps page slot out r = elim (Option-cases (parse_uint page (invalid_id - 1))) [
  | inl n ↦ rw (Keeps, parse_id, n) (inr refl)
  | inr (p, ep) ↦ elim (Option-cases (parse_uint slot 0xFFFF)) [
    | inl n ↦ rw (Keeps, parse_id, ep, n) (inr refl)
    | inr (s, es) ↦
        let page_le = parse_uint-le page (invalid_id - 1) p (omega arith) ep in
        let slot_le = parse_uint-le slot 0xFFFF s (omega arith) es in
        rw (Keeps, parse_id, ep, es)
          (
            record {
              page_valid = omega arith;
              slot_fits = omega arith;
              memory_fits = r.memory_fits;
              cpu_percent = r.cpu_percent;
              of_bytes = r.of_bytes;
            },
            refl,
          )
  ]
]

-- A command whose kind wants no record.
plain :
    (out : Command) (k : CommandKind) (name table : Str)
    → has_payload k ≡ false
    → Ranges out
    → Fits (Parsed.accepted (record out { kind = k; name = name; table = table }))
plain out k name table none_wanted r = (
  relabel out k name table out.engine r,
  λ needs. let wrong = sym none_wanted ∙ needs in absurd (cc),
)

parse_db-Fits : (args : List Str) (out : Command) → Ranges out → Fits (parse_db args out)
unfolding parse_db
parse_db-Fits [] out r = inl refl
parse_db-Fits (sub ∷ []) out r = inl refl
parse_db-Fits (sub ∷ name ∷ []) out r = elim (Bool-cases (str_eq sub (codes "init"))) [
  | inl e ↦ rw e (plain out CommandKind.db_init name out.table refl r)
  | inr e ↦ rw e (inl refl)
]
parse_db-Fits (sub ∷ name ∷ more ∷ args) out r = inl refl

parse_table_create-Fits :
    (args : List Str) (out : Command) → Ranges out → Fits (parse_table_create args out)
unfolding parse_table_create
parse_table_create-Fits [] out r = inl refl
parse_table_create-Fits (name ∷ []) out r = inl refl
parse_table_create-Fits (name ∷ table ∷ []) out r =
    plain out CommandKind.table_create name table refl r
parse_table_create-Fits (name ∷ table ∷ more ∷ args) out r = inl refl

parse_table_list-Fits :
    (args : List Str) (out : Command) → Ranges out → Fits (parse_table_list args out)
unfolding parse_table_list
parse_table_list-Fits [] out r = inl refl
parse_table_list-Fits (name ∷ []) out r = plain out CommandKind.table_list name out.table refl r
parse_table_list-Fits (name ∷ more ∷ args) out r = inl refl

parse_table-Fits : (args : List Str) (out : Command) → Ranges out → Fits (parse_table args out)
unfolding parse_table
parse_table-Fits [] out r = inl refl
parse_table-Fits (sub ∷ args) out r = elim (Bool-cases (str_eq sub (codes "create"))) [
  | inl e ↦ rw e (parse_table_create-Fits args out r)
  | inr e ↦ elim (Bool-cases (str_eq sub (codes "list"))) [
    | inl e1 ↦ rw (e, e1) (parse_table_list-Fits args out r)
    | inr e1 ↦ rw (e, e1) (inl refl)
  ]
]

parse_scan-Fits : (args : List Str) (out : Command) → Ranges out → Fits (parse_scan args out)
unfolding parse_scan
parse_scan-Fits [] out r = inl refl
parse_scan-Fits (name ∷ []) out r = inl refl
parse_scan-Fits (name ∷ table ∷ []) out r = plain out CommandKind.scan name table refl r
parse_scan-Fits (name ∷ table ∷ more ∷ args) out r = inl refl

parse_insert-Fits : (args : List Str) (out : Command) → Ranges out → Fits (parse_insert args out)
unfolding parse_insert
parse_insert-Fits [] out r = inl refl
parse_insert-Fits (name ∷ []) out r = inl refl
parse_insert-Fits (name ∷ table ∷ []) out r = inl refl
parse_insert-Fits (name ∷ table ∷ hex ∷ []) out r =
    parse_payload-Fits hex (record out { kind = CommandKind.insert; name = name; table = table })
      (relabel out CommandKind.insert name table out.engine r)
parse_insert-Fits (name ∷ table ∷ hex ∷ more ∷ args) out r = inl refl

parse_record-Fits :
    (k : CommandKind) (message : Str) (args : List Str) (out : Command)
    → has_payload k ≡ false
    → Ranges out
    → Fits (parse_record k message args out)
unfolding parse_record
parse_record-Fits k message [] out e r = inl refl
parse_record-Fits k message (a ∷ []) out e r = inl refl
parse_record-Fits k message (a ∷ b ∷ []) out e r = inl refl
parse_record-Fits k message (a ∷ b ∷ c ∷ []) out e r = inl refl
parse_record-Fits k message (name ∷ table ∷ page ∷ slot ∷ []) out e r =
    let out' : Command = record out { kind = k; name = name; table = table } in
    Keeps-Fits k (parse_id page slot out') e
      (parse_id-Keeps page slot out' (relabel out k name table out.engine r))
parse_record-Fits k message (a ∷ b ∷ c ∷ d ∷ more ∷ args) out e r = inl refl

-- What follows the ids of an `update`.
then_payload :
    (k : CommandKind) (hex : Str) (p : Parsed)
    → Keeps k p
    → Fits (elim p as (λ _. Parsed) [
      | Parsed.accepted out ↦ parse_payload hex out
      | Parsed.refused code message ↦ Parsed.refused code message
    ])
then_payload k hex (Parsed.accepted out) h = parse_payload-Fits hex out h.0
then_payload k hex (Parsed.refused code message) h = h

parse_update-Fits : (args : List Str) (out : Command) → Ranges out → Fits (parse_update args out)
unfolding parse_update
parse_update-Fits [] out r = inl refl
parse_update-Fits (a ∷ []) out r = inl refl
parse_update-Fits (a ∷ b ∷ []) out r = inl refl
parse_update-Fits (a ∷ b ∷ c ∷ []) out r = inl refl
parse_update-Fits (a ∷ b ∷ c ∷ d ∷ []) out r = inl refl
parse_update-Fits (name ∷ table ∷ page ∷ slot ∷ hex ∷ []) out r =
    let out' : Command = record out { kind = CommandKind.update; name = name; table = table } in
    then_payload CommandKind.update hex (parse_id page slot out')
      (parse_id-Keeps page slot out' (relabel out CommandKind.update name table out.engine r))
parse_update-Fits (a ∷ b ∷ c ∷ d ∷ e ∷ more ∷ args) out r = inl refl

parse_args-Fits_from :
    (cmd : Str) (args : List Str) (out : Command) → Ranges out → Fits (parse_args (cmd ∷ args) out)
unfolding parse_args
parse_args-Fits_from cmd args out r =
    elim (Bool-cases
      (str_eq cmd (codes "help") || str_eq cmd (codes "--help") || str_eq cmd (codes "-h"))) [
        | inl e ↦ rw e (plain out CommandKind.help out.name out.table refl r)
        | inr e0 ↦ elim (Bool-cases (str_eq cmd (codes "container"))) [
          | inl e ↦ rw (e0, e) (parse_container-Fits args out r)
          | inr e1 ↦ elim (Bool-cases (str_eq cmd (codes "db"))) [
            | inl e ↦ rw (e0, e1, e) (parse_db-Fits args out r)
            | inr e2 ↦ elim (Bool-cases (str_eq cmd (codes "table"))) [
              | inl e ↦ rw (e0, e1, e2, e) (parse_table-Fits args out r)
              | inr e3 ↦ elim (Bool-cases (str_eq cmd (codes "insert"))) [
                | inl e ↦ rw (e0, e1, e2, e3, e) (parse_insert-Fits args out r)
                | inr e4 ↦ elim (Bool-cases (str_eq cmd (codes "get"))) [
                  | inl e ↦
                      rw (e0, e1, e2, e3, e4, e)
                        (parse_record-Fits CommandKind.get
                          (text "usage: nexusdb get <name> <table> <page-id> <slot-id>") args out
                          refl r)
                  | inr e5 ↦ elim (Bool-cases (str_eq cmd (codes "update"))) [
                    | inl e ↦ rw (e0, e1, e2, e3, e4, e5, e) (parse_update-Fits args out r)
                    | inr e6 ↦ elim (Bool-cases (str_eq cmd (codes "delete"))) [
                      | inl e ↦
                          rw (e0, e1, e2, e3, e4, e5, e6, e)
                            (parse_record-Fits CommandKind.delete
                              (text "usage: nexusdb delete <name> <table> <page-id> <slot-id>") args
                              out refl r)
                      | inr e7 ↦ elim (Bool-cases (str_eq cmd (codes "scan"))) [
                        | inl e ↦
                            rw (e0, e1, e2, e3, e4, e5, e6, e7, e) (parse_scan-Fits args out r)
                        | inr e8 ↦ rw (e0, e1, e2, e3, e4, e5, e6, e7, e8) (inl refl)
                      ]
                    ]
                  ]
                ]
              ]
            ]
          ]
        ]
      ]

no_command-Ranges : Ranges no_command
no_command-Ranges = record {
  page_valid = omega arith;
  slot_fits = omega arith;
  memory_fits = omega arith;
  cpu_percent = omega arith;
  of_bytes = tt;
}

-- Every command that `ParseArgs` accepts, started from the initial values, has a valid page id, a
-- slot id of 16 bits, a memory limit below 2^48, at most 100 percent of CPU, a record of bytes, and
-- one that is not empty where it inserts or updates. What it refuses, it refuses with kUsage or
-- kInvalid.
pub parse_args-Fits : (args : List Str) → Fits (parse_args args no_command)
unfolding parse_args
parse_args-Fits [] = inl refl
parse_args-Fits (cmd ∷ args) = parse_args-Fits_from cmd args no_command no_command-Ranges
