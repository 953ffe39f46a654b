-- ===== src/Dashboard/Format.antt =====
-- The formatting helpers of src/dashboard/metrics.c. A helper gives the number that it returns and
-- what the array holds, `none` for the -1 of an array that is NULL or empty.
use nexus_db.Prelude.{
  ℕ, zero, suc, ◌+◌, ◌++◌, Option, none, some, List, [], ◌∷◌, Str, codes, length, get_or, copy_into,
  ◌==◌, if◌then◌else◌,
}
use nexus_db.Prelude.Numerals.{show_ulong}
use nexus_db.Double.{Double}

-- `snprintf(buf, len, ...)` of this text, behind `if (buf == NULL || len == 0) return -1;`.
abbrev pub printed : Option ℕ → Str → Option (ℕ × Str)
printed none text = none
printed (some zero) text = none
printed (some (suc n)) text = some (length text, copy_into (suc n) text)

abbrev pub units : List Str
units = codes "B" ∷ codes "KiB" ∷ codes "MiB" ∷ codes "GiB" ∷ codes "TiB" ∷ codes "PiB" ∷ []

module _ (D : Double) where
  open D use {F, lt, le, lit, of_ulong, add, mul, div, show}

  -- The loop `while (value >= 1024.0 && unit < 5)`, with `5 - unit` rounds left.
  unfoldable pub scale : ℕ → F → ℕ → F × ℕ
  scale zero value unit = (value, unit)
  scale (suc left) value unit =
      let reduced = scale left (div value (lit 10240 1)) (unit + 1) in
      if le (lit 10240 1) value then reduced else (value, unit)

  -- The text of `nexus_format_bytes`.
  unfoldable pub bytes_text : ℕ → Str
  bytes_text bytes =
      let (value, unit) = scale 5 (of_ulong bytes) 0 in
      if unit == 0
      then show_ulong bytes ++ codes " B"
      else show 1 value ++ (32 ∷ get_or units unit [])

  unfoldable pub format_bytes : ℕ → Option ℕ → Option (ℕ × Str)
  format_bytes bytes len = printed len (bytes_text bytes)

  -- `none` for the -1.0 of a ratio that is not defined.
  unfoldable pub hit_ratio : ℕ → ℕ → Option F
  hit_ratio hits misses =
      let total = add (of_ulong hits) (of_ulong misses) in
      if le total (lit 0 1) then none else some (div (of_ulong hits) total)

  -- A ratio below 0 is shown as not available; a defined one is not below 0.
  abbrev pub ratio_text : Option F → Str
  ratio_text none = codes "n/a"
  ratio_text (some ratio) =
      if lt ratio (lit 0 1) then codes "n/a" else show 1 (mul ratio (lit 1000 1)) ++ codes "%"

  unfoldable pub format_hit_ratio : ℕ → ℕ → Option ℕ → Option (ℕ × Str)
  format_hit_ratio hits misses len = printed len (ratio_text (hit_ratio hits misses))

  unfoldable pub format_percent : F → Option ℕ → Option (ℕ × Str)
  format_percent percent len = printed len (show 1 percent ++ codes "%")

  unfoldable pub format_latency_ms : F → Option ℕ → Option (ℕ × Str)
  format_latency_ms ms len = printed len (show 2 ms ++ codes " ms")
