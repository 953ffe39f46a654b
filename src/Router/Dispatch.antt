-- ===== src/Router/Dispatch.antt =====
-- The second half of src/manager/router.cpp: a command is one call of the manager, whose status and
-- values become the exit code and the output. The manager is a record of functions.
use nexus_db.Prelude.{
  subst, ℕ, ◌≡◌, ◌≢◌, ◌⊎◌, refl, sym, inl, inr, List, [], ◌∷◌, ◌++◌, if◌then◌else◌, Bool-cases,
  String, Str, codes, copy_into, length,
}
use nexus_db.Prelude.Numerals.{show_ulong}
use nexus_db.Db.Status.{DbError, is_ok, is_ok→ok}
use nexus_db.Router.{Exit, CommandKind, Command, no_command, Parsed, parse_args}
use nexus_db.Router.Help.{help_text}
use nexus_db.Router.Typed.{Fits}
use nexus_db.Router.Accepted.{parse_args-Fits}
use nexus_db.Router.Hex.{hex_encode}

-- `Status` with its message.
pub record Status : Type 0 where
  pub code : DbError
  pub message : Str

pub record Result : Type 0 where
  pub exit_code : Exit
  pub output : Str

pub record ScanRecord : Type 0 where
  pub page : ℕ
  pub slot : ℕ
  pub payload : List ℕ

pub record Manager : Type 1 where
  pub World : Type 0
  pub container_create : Str → ℕ → ℕ → Str → World → Status × World
  pub container_start : Str → World → Status × World
  pub container_stop : Str → World → Status × World
  pub container_delete : Str → World → Status × World
  pub container_status : Str → World → Status × Str × World
  pub db_init : Str → World → Status × World
  pub table_create : Str → Str → World → Status × World
  pub table_list : Str → World → Status × List Str × World
  pub insert : Str → Str → List ℕ → World → Status × ℕ × ℕ × World
  pub get : Str → Str → ℕ → ℕ → World → Status × List ℕ × World
  pub update : Str → Str → ℕ → ℕ → List ℕ → World → Status × World
  pub delete : Str → Str → ℕ → ℕ → World → Status × World
  pub scan : Str → Str → World → Status × List ScanRecord × World

-- `MapStatus` of a status that is not kOk.
abbrev pub exit_of : DbError → Exit
exit_of DbError.ok = Exit.ok
exit_of DbError.invalid_argument = Exit.invalid
exit_of DbError.not_found = Exit.not_found
exit_of _ = Exit.error

unfoldable pub map_status : Status → Result
map_status s = record { exit_code = exit_of s.code; output = s.message }

-- What each case of `Dispatch` gives for its status and the output that it has ready.
unfoldable pub reply : Status → Str → Result
reply s output =
    if is_ok s.code then record { exit_code = Exit.ok; output = output } else map_status s

-- `snprintf` into `buf` with `page=%u slot=%u`.
unfoldable pub placed : String → ℕ → ℕ → Str
placed what page slot =
    copy_into 64
      (codes what ++ codes "page=" ++ show_ulong page ++ codes " slot=" ++ show_ulong slot)

unfoldable pub record_head : ℕ → ℕ → List ℕ → Str
record_head page slot bytes = copy_into 64 (
    codes "page="
    ++ show_ulong page
    ++ codes " slot="
    ++ show_ulong slot
    ++ codes " len="
    ++ show_ulong (length bytes)
    ++ codes " hex=")

-- The lines of `scan`.
unfoldable pub record_lines : List ScanRecord → Str
record_lines [] = []
record_lines (r ∷ rs) =
    record_head r.page r.slot r.payload ++ hex_encode r.payload ++ 10 ∷ record_lines rs

unfoldable pub scan_output : List ScanRecord → Str
scan_output [] = codes "no records"
scan_output (r ∷ rs) = record_lines (r ∷ rs)

-- The tables behind the first, each on a line of its own.
unfoldable pub more_lines : List Str → Str
more_lines [] = []
more_lines (t ∷ ts) = 10 ∷ (t ++ more_lines ts)

unfoldable pub table_lines : List Str → Str
table_lines [] = codes "no tables"
table_lines (t ∷ ts) = t ++ more_lines ts

-- The exit code that the router's header gives a status.
pub data ExitFor : DbError → Exit → Type 0 where
  ok : ExitFor DbError.ok Exit.ok
  invalid : ExitFor DbError.invalid_argument Exit.invalid
  not_found : ExitFor DbError.not_found Exit.not_found
  other :
      {code : DbError}
      → code ≢ DbError.ok
      → code ≢ DbError.invalid_argument
      → code ≢ DbError.not_found
      → ExitFor code Exit.error

exit_of-ExitFor : (code : DbError) → ExitFor code (exit_of code)
exit_of-ExitFor DbError.ok = ExitFor.ok
exit_of-ExitFor DbError.invalid_argument = ExitFor.invalid
exit_of-ExitFor DbError.not_found = ExitFor.not_found
exit_of-ExitFor DbError.io_error = ExitFor.other (λ h. cc) (λ h. cc) (λ h. cc)
exit_of-ExitFor DbError.bad_state = ExitFor.other (λ h. cc) (λ h. cc) (λ h. cc)
exit_of-ExitFor DbError.buffer_full = ExitFor.other (λ h. cc) (λ h. cc) (λ h. cc)
exit_of-ExitFor DbError.out_of_memory = ExitFor.other (λ h. cc) (λ h. cc) (λ h. cc)

-- What a command gives for a status of the manager: the exit code of the status, and the message of
-- one that is not kOk.
abbrev pub Replied : Status → Result → Type 0
Replied s r = ExitFor s.code r.exit_code × (s.code ≢ DbError.ok → r.output ≡ s.message)

reply-Replied : (s : Status) (output : Str) → Replied s (reply s output)
unfolding reply map_status
reply-Replied s output = elim (Bool-cases (is_ok s.code)) [
  | inl e ↦
      let good = is_ok→ok s.code e in
      rw (reply, e) (subst (λ c. ExitFor c Exit.ok) (sym good) ExitFor.ok, λ bad. absurd (bad good))
  | inr e ↦ rw (reply, e) (exit_of-ExitFor s.code, λ bad. refl)
]

Parsed-cases :
    (p : Parsed)
    → ((code : Exit) × (message : Str) × (p ≡ Parsed.refused code message))
      ⊎ ((c : Command) × (p ≡ Parsed.accepted c))
Parsed-cases (Parsed.accepted c) = inr (c, refl)
Parsed-cases (Parsed.refused code message) = inl (code, message, refl)

module _ (m : Manager) where
  open m use {World}

  -- `Dispatch` with a manager that is not NULL.
  unfoldable pub dispatch_kind : CommandKind → Command → World → Result × World
  dispatch_kind CommandKind.help c w = (record { exit_code = Exit.ok; output = help_text }, w)
  dispatch_kind CommandKind.container_create c w =
      let (s, w') = m.container_create c.name c.memory c.cpu c.engine w in
      (reply s (codes "created container " ++ c.name), w')
  dispatch_kind CommandKind.container_start c w =
      let (s, w') = m.container_start c.name w in
      (reply s (codes "started container " ++ c.name), w')
  dispatch_kind CommandKind.container_stop c w =
      let (s, w') = m.container_stop c.name w in
      (reply s (codes "stopped container " ++ c.name), w')
  dispatch_kind CommandKind.container_delete c w =
      let (s, w') = m.container_delete c.name w in
      (reply s (codes "deleted container " ++ c.name), w')
  dispatch_kind CommandKind.container_status c w =
      let (s, status, w') = m.container_status c.name w in (reply s status, w')
  dispatch_kind CommandKind.db_init c w =
      let (s, w') = m.db_init c.name w in (reply s (codes "initialized database " ++ c.name), w')
  dispatch_kind CommandKind.table_create c w =
      let (s, w') = m.table_create c.name c.table w in
      (reply s (codes "created table " ++ c.name ++ codes "." ++ c.table), w')
  dispatch_kind CommandKind.table_list c w =
      let (s, tables, w') = m.table_list c.name w in (reply s (table_lines tables), w')
  dispatch_kind CommandKind.insert c w =
      let (s, page, slot, w') = m.insert c.name c.table c.payload w in
      (reply s (placed "inserted " page slot), w')
  dispatch_kind CommandKind.get c w =
      let (s, bytes, w') = m.get c.name c.table c.page c.slot w in
      (reply s (record_head c.page c.slot bytes ++ hex_encode bytes), w')
  dispatch_kind CommandKind.update c w =
      let (s, w') = m.update c.name c.table c.page c.slot c.payload w in
      (reply s (placed "updated " c.page c.slot), w')
  dispatch_kind CommandKind.delete c w =
      let (s, w') = m.delete c.name c.table c.page c.slot w in
      (reply s (placed "deleted " c.page c.slot), w')
  dispatch_kind CommandKind.scan c w =
      let (s, records, w') = m.scan c.name c.table w in (reply s (scan_output records), w')

  unfoldable pub dispatch : Command → World → Result × World
  dispatch c w = dispatch_kind c.kind c w

  -- `Run`
  unfoldable pub run : List Str → World → Result × World
  run args w = elim (parse_args args no_command) [
    | Parsed.refused code message ↦ (record { exit_code = code; output = message }, w)
    | Parsed.accepted c ↦ dispatch c w
  ]

  -- The call of the manager that a command stands for: its status, and the manager after it.
  abbrev pub called : CommandKind → Command → World → Status × World
  called CommandKind.help c w = (record { code = DbError.ok; message = [] }, w)
  called CommandKind.container_create c w = m.container_create c.name c.memory c.cpu c.engine w
  called CommandKind.container_start c w = m.container_start c.name w
  called CommandKind.container_stop c w = m.container_stop c.name w
  called CommandKind.container_delete c w = m.container_delete c.name w
  called CommandKind.container_status c w = let (s, _, w') = m.container_status c.name w in (s, w')
  called CommandKind.db_init c w = m.db_init c.name w
  called CommandKind.table_create c w = m.table_create c.name c.table w
  called CommandKind.table_list c w = let (s, _, w') = m.table_list c.name w in (s, w')
  called CommandKind.insert c w = let (s, _, _, w') = m.insert c.name c.table c.payload w in (s, w')
  called CommandKind.get c w = let (s, _, w') = m.get c.name c.table c.page c.slot w in (s, w')
  called CommandKind.update c w = m.update c.name c.table c.page c.slot c.payload w
  called CommandKind.delete c w = m.delete c.name c.table c.page c.slot w
  called CommandKind.scan c w = let (s, _, w') = m.scan c.name c.table w in (s, w')

  dispatch_kind-Replied :
      (k : CommandKind) (c : Command) (w : World)
      → Replied (called k c w).0 (dispatch_kind k c w).0
        × ((dispatch_kind k c w).1 ≡ (called k c w).1)
  unfolding dispatch_kind
  dispatch_kind-Replied CommandKind.help c w = ((ExitFor.ok, λ bad. absurd (bad refl)), refl)
  dispatch_kind-Replied CommandKind.container_create c w =
      (reply-Replied (called CommandKind.container_create c w).0 _, refl)
  dispatch_kind-Replied CommandKind.container_start c w =
      (reply-Replied (called CommandKind.container_start c w).0 _, refl)
  dispatch_kind-Replied CommandKind.container_stop c w =
      (reply-Replied (called CommandKind.container_stop c w).0 _, refl)
  dispatch_kind-Replied CommandKind.container_delete c w =
      (reply-Replied (called CommandKind.container_delete c w).0 _, refl)
  dispatch_kind-Replied CommandKind.container_status c w =
      (reply-Replied (called CommandKind.container_status c w).0 _, refl)
  dispatch_kind-Replied CommandKind.db_init c w =
      (reply-Replied (called CommandKind.db_init c w).0 _, refl)
  dispatch_kind-Replied CommandKind.table_create c w =
      (reply-Replied (called CommandKind.table_create c w).0 _, refl)
  dispatch_kind-Replied CommandKind.table_list c w =
      (reply-Replied (called CommandKind.table_list c w).0 _, refl)
  dispatch_kind-Replied CommandKind.insert c w =
      (reply-Replied (called CommandKind.insert c w).0 _, refl)
  dispatch_kind-Replied CommandKind.get c w = (reply-Replied (called CommandKind.get c w).0 _, refl)
  dispatch_kind-Replied CommandKind.update c w =
      (reply-Replied (called CommandKind.update c w).0 _, refl)
  dispatch_kind-Replied CommandKind.delete c w =
      (reply-Replied (called CommandKind.delete c w).0 _, refl)
  dispatch_kind-Replied CommandKind.scan c w =
      (reply-Replied (called CommandKind.scan c w).0 _, refl)

  -- What a command line does. Either no command is read from it, the exit code is that of a usage
  -- error or of an invalid value, and the manager is not called; or a command is read, the manager
  -- is as its call leaves it, and the exit code and a message of an error are those of the status
  -- of the call.
  pub run-Answered :
      (args : List Str) (w : World)
      → let (result, w') = run args w in
        (((c : Command) → parse_args args no_command ≢ Parsed.accepted c)
          × ((result.exit_code ≡ Exit.usage) ⊎ (result.exit_code ≡ Exit.invalid))
          × (w' ≡ w))
        ⊎ ((c : Command) × (parse_args args no_command ≡ Parsed.accepted c)
            × Replied (called c.kind c w).0 result
            × (w' ≡ (called c.kind c w).1))
  unfolding run dispatch
  run-Answered args w = elim (Parsed-cases (parse_args args no_command)) [
    | inl (code, message, e) ↦
        let coded = subst Fits e (parse_args-Fits args) in
        rw (run, e) (inl ((λ c h. cc), coded, refl))
    | inr (c, e) ↦
        let (replied, world) = dispatch_kind-Replied c.kind c w in
        rw (run, e) (inr (c, refl, replied, world))
  ]
