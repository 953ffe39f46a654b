-- ===== src/Bridge/Policy.antt =====
-- src/bridge/adaptation_policy.c: which capacity the bridge asks the buffer pool to take.
pub mod Branches
pub mod Bounds
pub mod Rounds
pub mod Retry
pub mod Names
use nexus_db.Prelude.{
  ℕ, ◌+◌, ◌-◌, Bool, true, false, not, ◌&&◌, ◌||◌, Option, none, some, ltb, leb, ◌==◌,
  if◌then◌else◌,
}
use nexus_db.Rc.{Rc, is_ok}
use nexus_db.Double.{Double, ulong_max}
use nexus_db.Bridge.Snapshot.{Snapshot}

pub record PolicyConfig (F : Type 0) : Type 0 where
  pub shrink_threshold : F
  pub grow_threshold : F
  pub pool_fraction : F
  pub page_size : ℕ
  pub min_frames : ℕ
  pub max_frames : ℕ
  pub max_step_down : ℕ
  pub max_step_up : ℕ

pub data Action : Type 0 where
  hold grow shrink : Action

pub data Reason : Type 0 where
  ok no_metrics unlimited within_band at_min at_max duplicate request_failed invalid_config : Reason

pub record Decision (F : Type 0) : Type 0 where
  pub action : Action
  pub target_frames : ℕ
  pub pressure : F
  pub reason : Reason

pub record Policy : Type 0 where
  pub last_target : ℕ
  pub have_last : Bool

-- `nexus_policy_init`
unfoldable pub policy_init : Policy
policy_init = record { last_target = 0; have_last = false }

unfoldable pub sub_floor : ℕ → ℕ → ℕ
sub_floor a b = if ltb b a then a - b else 0

unfoldable pub add_sat : ℕ → ℕ → ℕ
add_sat a b = if ltb (ulong_max - b) a then ulong_max else a + b

abbrev pub is_hold : Action → Bool
is_hold Action.hold = true
is_hold _ = false

module _ (D : Double) where
  open D use {F, lt, le, lit, of_ulong, to_ulong, mul, div}

  -- `nexus_policy_config_default`
  unfoldable pub policy_config_default : PolicyConfig F
  policy_config_default = record {
    shrink_threshold = lit 85 2;
    grow_threshold = lit 60 2;
    pool_fraction = lit 6 1;
    page_size = 4096;
    min_frames = 16;
    max_frames = 0;
    max_step_down = 256;
    max_step_up = 256;
  }

  -- `nexus_policy_config_valid`, for a configuration that is not NULL.
  unfoldable pub policy_config_valid : PolicyConfig F → Bool
  policy_config_valid cfg =
      if not (lt (lit 0 1) cfg.shrink_threshold)
      then false
      else if lt cfg.grow_threshold (lit 0 1)
      then false
      else if le cfg.shrink_threshold cfg.grow_threshold
      then false
      else if not (lt (lit 0 1) cfg.pool_fraction && le cfg.pool_fraction (lit 1 0))
      then false
      else if cfg.page_size == 0
      then false
      else if cfg.min_frames == 0
      then false
      else if not (cfg.max_frames == 0) && ltb cfg.max_frames cfg.min_frames
      then false
      else if cfg.max_step_down == 0 && cfg.max_step_up == 0
      then false
      else true

  -- `ceiling = (unsigned long)ceiling_d`, saturated.
  unfoldable pub ceiling_raw : PolicyConfig F → ℕ → ℕ
  ceiling_raw cfg limit_bytes =
      let ceiling_d = mul (div (of_ulong limit_bytes) (of_ulong cfg.page_size)) cfg.pool_fraction in
      if le (of_ulong ulong_max) ceiling_d then ulong_max else to_ulong ceiling_d

  abbrev pub at_least : ℕ → ℕ → ℕ
  at_least floor n = if ltb n floor then floor else n

  -- `max_frames` is no cap where it is 0.
  abbrev pub capped : ℕ → ℕ → ℕ
  capped cap n = if not (cap == 0) && ltb cap n then cap else n

  unfoldable pub ceiling_frames : PolicyConfig F → ℕ → ℕ
  ceiling_frames cfg limit_bytes =
      capped cfg.max_frames (at_least cfg.min_frames (ceiling_raw cfg limit_bytes))

  -- A decision that leaves the pool alone.
  abbrev pub holding : ℕ → F → Reason → Decision F
  holding current pressure reason = record {
    action = Action.hold;
    target_frames = current;
    pressure = pressure;
    reason = reason;
  }

  abbrev pub is_duplicate : Policy → ℕ → Bool
  is_duplicate policy target = policy.have_last && policy.last_target == target

  abbrev pub issued : ℕ → Policy
  issued target = record { last_target = target; have_last = true }

  -- The branch of `nexus_policy_evaluate` for `pressure >= shrink_threshold`.
  unfoldable pub decide_shrink : Policy → PolicyConfig F → ℕ → F → Policy × Decision F
  decide_shrink policy cfg current pressure =
      let target = at_least cfg.min_frames (sub_floor current cfg.max_step_down) in
      if leb current target
      then (policy, holding current pressure Reason.at_min)
      else if is_duplicate policy target
      then (policy, holding current pressure Reason.duplicate)
      else (
        issued target,
        record {
          action = Action.shrink;
          target_frames = target;
          pressure = pressure;
          reason = Reason.ok;
        },
      )

  -- The branch for `pressure <= grow_threshold`.
  unfoldable pub decide_grow : Policy → PolicyConfig F → ℕ → ℕ → F → Policy × Decision F
  decide_grow policy cfg ceiling current pressure =
      let raised = add_sat current cfg.max_step_up in
      let target = if ltb ceiling raised then ceiling else raised in
      if leb ceiling current
      then (policy, holding current pressure Reason.at_max)
      else if leb target current
      then (policy, holding current pressure Reason.at_max)
      else if is_duplicate policy target
      then (policy, holding current pressure Reason.duplicate)
      else (
        issued target,
        record {
          action = Action.grow;
          target_frames = target;
          pressure = pressure;
          reason = Reason.ok;
        },
      )

  -- The branches behind the checks of the snapshot.
  unfoldable pub decide : Policy → PolicyConfig F → Snapshot F → ℕ → F → Policy × Decision F
  decide policy cfg s current pressure =
      if not s.has_limit
      then (policy, holding current pressure Reason.unlimited)
      else if le cfg.shrink_threshold pressure
      then decide_shrink policy cfg current pressure
      else if le pressure cfg.grow_threshold
      then decide_grow policy cfg (ceiling_frames cfg s.memory_max) current pressure
      else (policy, holding current pressure Reason.within_band)

  -- `if (pressure < 0.0) pressure = 0.0;`
  abbrev pub clamped : F → F
  clamped pressure = if lt pressure (lit 0 1) then lit 0 1 else pressure

  abbrev pub is_measured : Snapshot F → Bool
  is_measured s = s.valid && s.has_memory

  -- `nexus_policy_evaluate` for arguments that are not NULL but for the snapshot.
  unfoldable pub evaluate :
      Policy → PolicyConfig F → Option (Snapshot F) → ℕ → Rc × Policy × Decision F
  evaluate policy cfg none current =
      if not (policy_config_valid cfg)
      then (Rc.invalid, policy, holding current (lit 0 1) Reason.invalid_config)
      else (Rc.ok, policy, holding current (lit 0 1) Reason.no_metrics)
  evaluate policy cfg (some s) current =
      if not (policy_config_valid cfg)
      then (Rc.invalid, policy, holding current (lit 0 1) Reason.invalid_config)
      else if not (is_measured s)
      then (Rc.ok, policy, holding current (lit 0 1) Reason.no_metrics)
      else (let (policy', d) = decide policy cfg s current (clamped s.memory_pressure) in
          (Rc.ok, policy', d))

  -- `nexus_policy_evaluate`: `out` is what `*out` holds before and after.
  unfoldable pub policy_evaluate :
      Option Policy
      → Option (PolicyConfig F)
      → Option (Snapshot F)
      → ℕ
      → Option (Decision F)
      → Rc × Option Policy × Option (Decision F)
  policy_evaluate none cfg s current out = (Rc.invalid, none, out)
  policy_evaluate (some p) none s current out = (Rc.invalid, some p, out)
  policy_evaluate (some p) (some cfg) s current none = (Rc.invalid, some p, none)
  policy_evaluate (some p) (some cfg) s current (some _) =
      let (rc, p', d) = evaluate p cfg s current in (rc, some p', some d)

  -- `nexus_resize_request_fn`: the call may change the engine behind `context`, an `E`.
  abbrev pub Request : Type 0 → Type 0
  Request E = E → ℕ → Rc × E

  -- `nexus_policy_apply` for arguments that are not NULL but for the snapshot and the callback.
  unfoldable pub apply :
      {E : Type 0}
      → Policy
      → PolicyConfig F
      → Option (Snapshot F)
      → ℕ
      → Option (Request E)
      → E
      → Rc × Policy × Decision F × E
  apply policy cfg s current request engine =
      let (rc, policy', d) = evaluate policy cfg s current in
      if not (is_ok rc)
      then (rc, policy', d, engine)
      else if is_hold d.action
      then (Rc.ok, policy', d, engine)
      else elim request [
        | none ↦ (Rc.invalid, policy', d, engine)
        | some ask ↦
            let (answer, engine') = ask engine d.target_frames in
            if is_ok answer
            then (Rc.ok, policy', d, engine')
            else (answer, policy_init, record d { reason = Reason.request_failed }, engine')
      ]
