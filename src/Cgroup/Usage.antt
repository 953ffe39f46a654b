-- ===== src/Cgroup/Usage.antt =====
-- The loop over cpu.stat ends.
use nexus_db.Prelude.{
  ℕ, zero, suc, ◌<◌, ◌≡◌, refl, inl, inr, none, some, Str, codes, length, str_eq, arith,
  Option-cases, Bool-cases, if◌then◌else◌,
}
use nexus_db.Prelude.Scan.{Scanned, strtoul, scan_word}
use nexus_db.Prelude.Scan.RoundTrip.{scan_word-lt}
use nexus_db.Prelude.Scan.Rest.{strtoul-le}
use nexus_db.Cgroup.Metrics.{usage_loop}

-- The three ways of a round.
at_end :
    (fuel : ℕ) (text : Str)
    → length text < fuel
    → scan_word 63 text ≡ none
    → usage_loop fuel text ≡ some 0
unfolding usage_loop
at_end zero text h e = absurd (omega arith)
at_end (suc fuel) text h e = rw (e, usage_loop) refl

at_no_number :
    (fuel : ℕ) (text key rest : Str)
    → length text < fuel
    → scan_word 63 text ≡ some (key, rest)
    → strtoul rest ≡ none
    → usage_loop fuel text ≡ some 0
unfolding usage_loop
at_no_number zero text key rest h e n = absurd (omega arith)
at_no_number (suc fuel) text key rest h e n = rw (e, n, usage_loop) refl

at_number :
    (fuel n : ℕ) (text key rest : Str) (val : Scanned ℕ)
    → length text < fuel
    → scan_word 63 text ≡ some (key, rest)
    → strtoul rest ≡ some val
    → ((fuel' : ℕ) → length val.rest < fuel' → usage_loop fuel' val.rest ≡ some n)
    → usage_loop fuel text ≡ some (if str_eq key (codes "usage_usec") then val.value else n)
unfolding usage_loop
at_number zero n text key rest val h e num more = absurd (omega arith)
at_number (suc fuel) n text key rest val h e num more =
    let shorter = scan_word-lt 63 text key rest e in
    let left = strtoul-le rest val num in
    let same = more fuel (omega arith) in
    elim (Bool-cases (str_eq key (codes "usage_usec"))) [
      | inl k ↦ rw (e, num, k, usage_loop) refl
      | inr k ↦ rw (e, num, k, usage_loop) same
    ]

usage_ends :
    (bound : ℕ) (text : Str)
    → length text < bound
    → (n : ℕ) × ((fuel : ℕ) → length text < fuel → usage_loop fuel text ≡ some n)
usage_ends zero text h = absurd (omega arith)
usage_ends (suc bound) text h = elim (Option-cases (scan_word 63 text)) [
  | inl e ↦ (0, λ fuel lt. at_end fuel text lt e)
  | inr ((key, rest), e) ↦ elim (Option-cases (strtoul rest)) [
    | inl n ↦ (0, λ fuel lt. at_no_number fuel text key rest lt e n)
    | inr (val, num) ↦
        let shorter = scan_word-lt 63 text key rest e in
        let left = strtoul-le rest val num in
        let (n, more) = usage_ends bound val.rest (omega arith) in
        (
          if str_eq key (codes "usage_usec") then val.value else n,
          λ fuel lt. at_number fuel n text key rest val lt e num more,
        )
  ]
]

-- Whatever a text of cpu.stat is, there is a number that the loop ends with, in every number of
-- rounds that is more than the text has characters.
pub usage_loop_enough :
    (text : Str) → (n : ℕ) × ((fuel : ℕ) → length text < fuel → usage_loop fuel text ≡ some n)
usage_loop_enough text = usage_ends (suc (length text)) text (omega arith)
