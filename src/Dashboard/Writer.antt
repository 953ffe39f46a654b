-- ===== src/Dashboard/Writer.antt =====
-- The bounded writer `sb_t` of src/dashboard/dashboard_text.c.
use nexus_db.Prelude.{
  ℕ, ◌+◌, ◌-◌, ◌++◌, Bool, true, false, List, [], ◌∷◌, Str, length, leb, if◌then◌else◌, copy_into,
}

-- `text` is what the array `buf` holds up to its NUL.
pub record Sb : Type 0 where
  pub cap : ℕ
  pub text : Str
  pub used : ℕ
  pub overflow : Bool

-- `sb_line` with the text of its format; `vsnprintf` does not fail.
unfoldable pub sb_line : Sb → Str → Sb
sb_line sb line =
    let room = sb.cap - sb.used in
    if sb.overflow
    then sb
    else if leb room (length line)
    then record sb { overflow = true; text = sb.text ++ copy_into room line }
    else record sb { used = sb.used + length line; text = sb.text ++ line }

unfoldable pub sb_lines : Sb → List Str → Sb
sb_lines sb [] = sb
sb_lines sb (line ∷ lines) = sb_lines (sb_line sb line) lines

abbrev pub sb_start : ℕ → Sb
sb_start len = record { cap = len; text = []; used = 0; overflow = false }
