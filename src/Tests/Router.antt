-- ===== src/Tests/Router.antt =====
-- Command lines, and the theorems on the router at a concrete command.
use nexus_db.Prelude.{
  ℕ, ◌≡◌, ◌≢◌, ◌<◌, ◌^◌, ◌-◌, ◌⊎◌, refl, none, some, List, [], ◌∷◌, map, All, Str, codes, arith,
}
use nexus_db.Db.Status.{DbError}
use nexus_db.Router.{Exit, CommandKind, Command, no_command, Parsed, parse_args}
use nexus_db.Router.Hex.{hex_decode, hex_encode, lower_hex, hex_decode-Printed}
use nexus_db.Router.Uint.{parse_uint, uint_loop, at_most, number, parse_uint-number}
use nexus_db.Router.Typed.{Ranges, Fits}
use nexus_db.Router.Accepted.{parse_args-Fits}
use nexus_db.Router.Words.{words, of_kind, parse_args-words}
use nexus_db.Router.Dispatch.{Manager, Status, Replied, called, run, run-Answered}

-- A manager that counts the calls and finds nothing.
abbrev missing : Status
missing = record { code = DbError.not_found; message = codes "no such table" }

abbrev counting : Manager
counting = record {
  World = ℕ;
  container_create = λ _ _ _ _ w. (missing, w);
  container_start = λ _ w. (missing, w);
  container_stop = λ _ w. (missing, w);
  container_delete = λ _ w. (missing, w);
  container_status = λ _ w. (missing, [], w);
  db_init = λ _ w. (missing, w);
  table_create = λ _ _ w. (missing, w);
  table_list = λ _ w. (missing, [], w);
  insert = λ _ _ _ w. (missing, 0, 0, w);
  get = λ _ _ _ _ w. (missing, [], w);
  update = λ _ _ _ _ _ w. (missing, w);
  delete = λ _ _ _ _ w. (missing, w);
  scan = λ _ _ w. (missing, [], w);
}

abbrev update_line : List Str
update_line =
    codes "update" ∷ codes "shop" ∷ codes "items" ∷ codes "7" ∷ codes "2" ∷ codes "beEf" ∷ []

abbrev updated : Command
updated = record no_command {
  kind = CommandKind.update;
  name = codes "shop";
  table = codes "items";
  page = 7;
  slot = 2;
  payload = 190 ∷ 239 ∷ [];
}

overflow_is_refused : parse_uint (codes "18446744073709551616") (2 ^ 64 - 1) ≡ none
unfolding parse_uint uint_loop
overflow_is_refused = refl

odd_hex_is_refused : hex_decode (codes "abc") ≡ none
unfolding hex_decode
odd_hex_is_refused = refl

hex_decode-Printed_example :
    (hex_decode (codes "beEf") ≡ some (190 ∷ 239 ∷ [])
      → All (λ b. b < 256) (190 ∷ 239 ∷ [])
        × (hex_encode (190 ∷ 239 ∷ []) ≡ map lower_hex (codes "beEf")))
    × (All (λ b. b < 256) (190 ∷ 239 ∷ [])
        → hex_decode (hex_encode (190 ∷ 239 ∷ [])) ≡ some (190 ∷ 239 ∷ []))
hex_decode-Printed_example = hex_decode-Printed (codes "beEf") (190 ∷ 239 ∷ [])

parse_uint-number_example :
    parse_uint (codes "65535") 0xFFFF ≡ at_most 0xFFFF (number (codes "65535"))
parse_uint-number_example = parse_uint-number (codes "65535") 0xFFFF (omega arith)

parse_args-Fits_example : Fits (parse_args update_line no_command)
parse_args-Fits_example = parse_args-Fits update_line

updated-Ranges : Ranges updated
updated-Ranges = record {
  page_valid = omega arith;
  slot_fits = omega arith;
  memory_fits = omega arith;
  cpu_percent = omega arith;
  of_bytes = omega arith;
}

parse_args-words_example :
    parse_args (words CommandKind.update updated) no_command
    ≡ Parsed.accepted (of_kind CommandKind.update updated)
parse_args-words_example =
    parse_args-words CommandKind.update updated updated-Ranges (λ _. omega arith)

run-Answered_example :
    let (result, w') = run counting update_line 5 in
    (((c : Command) → parse_args update_line no_command ≢ Parsed.accepted c)
      × ((result.exit_code ≡ Exit.usage) ⊎ (result.exit_code ≡ Exit.invalid))
      × (w' ≡ 5))
    ⊎ ((c : Command) × (parse_args update_line no_command ≡ Parsed.accepted c)
        × Replied (called counting c.kind c 5).0 result
        × (w' ≡ (called counting c.kind c 5).1))
run-Answered_example = run-Answered counting update_line 5
