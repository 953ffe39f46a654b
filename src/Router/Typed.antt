-- ===== src/Router/Typed.antt =====
-- What `ParseArgs` lets through fits the C types of the command and the limits of the manager.
use nexus_db.Prelude.{
  ◌%◌, ℕ, ◌-◌, ◌^◌, ◌≤◌, ◌<◌, ◌≡◌, ◌⊎◌, refl, sym, ap, ◌∙◌, inl, inr, Bool, true, false, List, [],
  ◌∷◌, ltb, Bool-cases, Option-cases, Str, codes, str_eq, length, All, arith,
}
use nexus_db.Db.Page.{invalid_id}
use nexus_db.Router.{
  Exit, CommandKind, Command, Parsed, parse_flag, parse_flags, lifecycle_kind, is_lifecycle,
  parse_create, parse_lifecycle, parse_container,
}
use nexus_db.Router.Uint.{parse_uint, parse_uint-le}

abbrev pub has_payload : CommandKind → Bool
has_payload CommandKind.insert = true
has_payload CommandKind.update = true
has_payload _ = false

pub record Ranges (c : Command) : Type 0 where
  pub page_valid : c.page < invalid_id
  pub slot_fits : c.slot < 2 ^ 16
  pub memory_fits : c.memory < 2 ^ 48
  pub cpu_percent : c.cpu ≤ 100
  pub of_bytes : All (λ b. b < 256) c.payload

-- A command that keeps to the ranges, with a record where it needs one, or a refusal with one of
-- the two codes for it.
abbrev pub Fits : Parsed → Type 0
Fits (Parsed.accepted c) = Ranges c × (has_payload c.kind ≡ true → 0 < length c.payload)
Fits (Parsed.refused code message) = (code ≡ Exit.usage) ⊎ (code ≡ Exit.invalid)

abbrev pub Keeps : CommandKind → Parsed → Type 0
Keeps k (Parsed.accepted c) = Ranges c × (c.kind ≡ k)
Keeps k (Parsed.refused code message) = (code ≡ Exit.usage) ⊎ (code ≡ Exit.invalid)

pub Keeps-Fits : (k : CommandKind) (p : Parsed) → has_payload k ≡ false → Keeps k p → Fits p
Keeps-Fits k (Parsed.accepted c) e h = (
  h.0,
  λ needs. let wrong : false ≡ true = sym e ∙ ap has_payload (sym h.1) ∙ needs in absurd (cc),
)
Keeps-Fits k (Parsed.refused code message) e h = h

pub relabel :
    (c : Command) (k : CommandKind) (name table engine : Str)
    → Ranges c
    → Ranges (record c { kind = k; name = name; table = table; engine = engine })
relabel c k name table engine r = record {
  page_valid = r.page_valid;
  slot_fits = r.slot_fits;
  memory_fits = r.memory_fits;
  cpu_percent = r.cpu_percent;
  of_bytes = r.of_bytes;
}

with_memory : (c : Command) (v : ℕ) → Ranges c → v < 2 ^ 48 → Ranges (record c { memory = v })
with_memory c v r small = record {
  page_valid = r.page_valid;
  slot_fits = r.slot_fits;
  memory_fits = small;
  cpu_percent = r.cpu_percent;
  of_bytes = r.of_bytes;
}

with_cpu : (c : Command) (v : ℕ) → Ranges c → v ≤ 100 → Ranges (record c { cpu = v })
with_cpu c v r small = record {
  page_valid = r.page_valid;
  slot_fits = r.slot_fits;
  memory_fits = r.memory_fits;
  cpu_percent = small;
  of_bytes = r.of_bytes;
}

parse_flag-Keeps :
    (flag val : Str) (out : Command) → Ranges out → Keeps out.kind (parse_flag flag val out)
unfolding parse_flag
parse_flag-Keeps flag val out r = elim (Bool-cases (str_eq flag (codes "--memory"))) [
  | inl e ↦ elim (Option-cases (parse_uint val 0xFFFFFFFFFFFF)) [
    | inl n ↦ rw (e, n) (inr refl)
    | inr (v, p) ↦
        let small = parse_uint-le val 0xFFFFFFFFFFFF v (omega arith) p in
        let fits : ltb (2 ^ 64 - 1) v ≡ false = ground arith in
        rw (e, p, fits) (with_memory out v r (omega arith), refl)
  ]
  | inr e ↦ elim (Bool-cases (str_eq flag (codes "--cpu"))) [
    | inl e1 ↦ elim (Option-cases (parse_uint val 100)) [
      | inl n ↦ rw (e, e1, n) (inr refl)
      | inr (v, p) ↦
          let small = parse_uint-le val 100 v (omega arith) p in
          rw (e, e1, p) (with_cpu out (v % 2 ^ 32) r (omega arith), refl)
    ]
    | inr e1 ↦ elim (Bool-cases (str_eq flag (codes "--engine"))) [
      | inl e2 ↦ rw (e, e1, e2) (relabel out out.kind out.name out.table val r, refl)
      | inr e2 ↦ rw (e, e1, e2) (inl refl)
    ]
  ]
]

parse_flags-Keeps :
    (args : List Str) (k : CommandKind) (out : Command)
    → Ranges out
    → out.kind ≡ k
    → Keeps k (parse_flags args out)
unfolding parse_flags
parse_flags-Keeps [] k out r e = (r, e)
parse_flags-Keeps (flag ∷ []) k out r e = inl refl
parse_flags-Keeps (flag ∷ val ∷ rest) k out r e =
    elim (parse_flag flag val out)
        as (λ p.
          Keeps out.kind p
          → Keeps k (elim p [
            | Parsed.accepted out' ↦ parse_flags rest out'
            | Parsed.refused code message ↦ Parsed.refused code message
          ])) [
            | Parsed.accepted out' ↦ λ h. parse_flags-Keeps rest k out' h.0 (h.1 ∙ e)
            | Parsed.refused code message ↦ λ h. h
          ]
      (parse_flag-Keeps flag val out r)

lifecycle-payload : (sub : Str) → has_payload (lifecycle_kind sub) ≡ false
lifecycle-payload sub = ground arith

pub parse_container-Fits :
    (args : List Str) (out : Command) → Ranges out → Fits (parse_container args out)
unfolding parse_container parse_create parse_lifecycle
parse_container-Fits [] out r = inl refl
parse_container-Fits (sub ∷ args) out r = elim (Bool-cases (str_eq sub (codes "create"))) [
  | inl e ↦ rw e (create_fits args)
  | inr e ↦ elim (Bool-cases (is_lifecycle sub)) [
    | inl e1 ↦ rw (e, e1) (lifecycle_fits args)
    | inr e1 ↦ rw (e, e1) (inl refl)
  ]
]
  where
    create_fits : (args : List Str) → Fits (parse_create args out)
    create_fits [] = inl refl
    create_fits (name ∷ flags) =
        Keeps-Fits CommandKind.container_create
          (parse_flags flags (record out { kind = CommandKind.container_create; name = name })) refl
          (parse_flags-Keeps flags CommandKind.container_create
            (record out { kind = CommandKind.container_create; name = name })
            (relabel out CommandKind.container_create name out.table out.engine r) refl)

    lifecycle_fits : (args : List Str) → Fits (parse_lifecycle sub args out)
    lifecycle_fits [] = inl refl
    lifecycle_fits (name ∷ []) = (
      relabel out (lifecycle_kind sub) name out.table out.engine r,
      λ needs. let wrong = sym (lifecycle-payload sub) ∙ needs in absurd (cc),
    )
    lifecycle_fits (name ∷ more ∷ args) = inl refl
