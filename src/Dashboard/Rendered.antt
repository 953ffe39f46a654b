-- ===== src/Dashboard/Rendered.antt =====
-- The bounded writer keeps a prefix of the whole text, and knows whether it is all of it.
use nexus_db.Prelude.{
  ℕ, zero, suc, ◌+◌, ◌-◌, ◌<◌, ◌≤◌, ◌≡◌, refl, sym, ap, ◌∙◌, ◌⊎◌, inl, inr, ◌++◌, true, false, some,
  List, [], ◌∷◌, Str, length, take, take_self, leb, arith, copy_into, Bool-cases, length-append,
  subst,
}
use nexus_db.Rc.{Rc}
use nexus_db.Double.{Double}
use nexus_db.Dashboard.Metrics.{DashboardMetrics}
use nexus_db.Dashboard.Writer.{Sb, sb_line, sb_lines, sb_start}
use nexus_db.Dashboard.Text.{dashboard_lines, dashboard_render_text}

take-append : (n : ℕ) (t s : Str) → length t ≤ n → take n (t ++ s) ≡ t ++ take (n - length t) s
take-append n [] s h = ap (λ m. take m s) (omega arith)
take-append zero (c ∷ t) s h = absurd (omega arith)
take-append (suc n) (c ∷ t) s h =
    ap (λ u. c ∷ u) (take-append n t s (omega arith)) ∙ ap (λ m. c ∷ (t ++ take m s)) (omega arith)

take-append_le : (n : ℕ) (t s : Str) → n ≤ length t → take n (t ++ s) ≡ take n t
take-append_le zero t s h = refl
take-append_le (suc n) [] s h = absurd (omega arith)
take-append_le (suc n) (c ∷ t) s h = ap (λ u. c ∷ u) (take-append_le n t s (omega arith))

abbrev pub joined : List Str → Str
joined [] = []
joined (line ∷ lines) = line ++ joined lines

append_assoc : (s t u : Str) → (s ++ t) ++ u ≡ s ++ (t ++ u)
append_assoc [] t u = refl
append_assoc (c ∷ s) t u = ap (λ v. c ∷ v) (append_assoc s t u)

append_nil : (t : Str) → t ++ [] ≡ t
append_nil [] = refl
append_nil (c ∷ t) = ap (λ v. c ∷ v) (append_nil t)

-- The writer of an array of `size` bytes holds the text, or its prefix that fits.
abbrev Complete : ℕ → Str → Sb → Type 0
Complete size t sb =
    (sb.overflow ≡ false) × (sb.text ≡ t) × (sb.used ≡ length t) × (length t < size)

abbrev Cut : ℕ → Str → Sb → Type 0
Cut size t sb = (sb.overflow ≡ true) × (sb.text ≡ copy_into size t) × (size ≤ length t)

abbrev Writes : ℕ → Str → Sb → Type 0
Writes size t sb = (sb.cap ≡ size) × (Complete size t sb ⊎ Cut size t sb)

module _ (sb : Sb) (line : Str) where
  sb_line_over : sb.overflow ≡ true → sb_line sb line ≡ sb
  unfolding sb_line
  sb_line_over o = simp o refl

  sb_line_cut :
      sb.overflow ≡ false
      → leb (sb.cap - sb.used) (length line) ≡ true
      → sb_line sb line
        ≡ record sb { overflow = true; text = sb.text ++ copy_into (sb.cap - sb.used) line }
  unfolding sb_line
  sb_line_cut o k = simp (o, k) refl

  sb_line_fits :
      sb.overflow ≡ false
      → leb (sb.cap - sb.used) (length line) ≡ false
      → sb_line sb line ≡ record sb { used = sb.used + length line; text = sb.text ++ line }
  unfolding sb_line
  sb_line_fits o k = simp (o, k) refl

sb_line-Writes :
    (size : ℕ) (t line : Str) (sb : Sb)
    → Writes size t sb
    → Writes size (t ++ line) (sb_line sb line)
sb_line-Writes size t line sb (c, inr (o, e, h)) =
    let long = length-append t line in
    rw (sb_line_over sb line o)
      (c, inr (o, e ∙ sym (take-append_le (size - 1) t line (omega arith)), omega arith))
sb_line-Writes size t line sb (c, inl (o, e, u, h)) =
    let long = length-append t line in
    elim (Bool-cases (leb (sb.cap - sb.used) (length line))) [
      | inl k ↦
          let room : sb.cap - sb.used - 1 ≡ size - 1 - length t = omega arith in
          rw (sb_line_cut sb line o k) (
            c,
            inr (
              refl,
              ap (λ x. x ++ copy_into (sb.cap - sb.used) line) e
                  ∙ ap (λ n. t ++ take n line) room
                  ∙ sym (take-append (size - 1) t line (omega arith)),
              ground arith,
            ),
          )
      | inr k ↦
          rw (sb_line_fits sb line o k)
            (c, inl (o, ap (λ x. x ++ line) e, omega arith, ground arith))
    ]

sb_lines-Writes :
    (size : ℕ) (t : Str) (lines : List Str) (sb : Sb)
    → Writes size t sb
    → Writes size (t ++ joined lines) (sb_lines sb lines)
unfolding sb_lines
sb_lines-Writes size t [] sb h = subst (λ x. Writes size x sb) (sym (append_nil t)) h
sb_lines-Writes size t (line ∷ lines) sb h =
    subst (λ x. Writes size x (sb_lines (sb_line sb line) lines))
      (append_assoc t line (joined lines))
      (sb_lines-Writes size (t ++ line) lines (sb_line sb line) (sb_line-Writes size t line sb h))

-- For an array of at least one byte, `nexus_dashboard_render_text` leaves the longest prefix of the
-- whole frame that fits beside the NUL; it returns NEXUS_OK if that is the whole frame, and
-- NEXUS_ERR_PROCESS if it is not.
pub render_text-Bounded :
    (D : Double) (m : DashboardMetrics D.F) (n : ℕ)
    → (let (rc, text) = dashboard_render_text D m (some (suc n)) in
        let frame = joined (dashboard_lines D m) in
        (text ≡ some (take n frame))
        × (((rc ≡ Rc.ok) × (length frame ≤ n) × (text ≡ some frame))
            ⊎ ((rc ≡ Rc.process) × (n < length frame))))
unfolding dashboard_render_text
render_text-Bounded D m n =
    let frame = joined (dashboard_lines D m) in
    elim (sb_lines-Writes (suc n) [] (dashboard_lines D m) (sb_start (suc n))
      (refl, inl (refl, refl, refl, omega arith))).1 [
        | inl (o, e, _, h) ↦ rw o (
          ap some (e ∙ sym (take_self n frame (omega arith))),
          inl (refl, omega arith, ap some e),
        )
        | inr (o, e, h) ↦
            rw o (ap some (e ∙ ap (λ k. take k frame) (omega arith)), inr (refl, omega arith))
      ]
