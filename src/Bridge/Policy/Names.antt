-- ===== src/Bridge/Policy/Names.antt =====
-- `nexus_adapt_action_str` and `nexus_adapt_reason_str`. Their defaults are for numbers outside the
-- enumerations.
use nexus_db.Prelude.{Str, codes}
use nexus_db.Bridge.Policy.{Action, Reason}

abbrev pub adapt_action_str : Action → Str
adapt_action_str Action.hold = codes "HOLD"
adapt_action_str Action.grow = codes "GROW"
adapt_action_str Action.shrink = codes "SHRINK"

abbrev pub adapt_reason_str : Reason → Str
adapt_reason_str Reason.ok = codes "ok"
adapt_reason_str Reason.no_metrics = codes "no metrics"
adapt_reason_str Reason.unlimited = codes "unlimited memory"
adapt_reason_str Reason.within_band = codes "within hysteresis band"
adapt_reason_str Reason.at_min = codes "at minimum capacity"
adapt_reason_str Reason.at_max = codes "at maximum capacity"
adapt_reason_str Reason.duplicate = codes "duplicate request suppressed"
adapt_reason_str Reason.request_failed = codes "resize request failed"
adapt_reason_str Reason.invalid_config = codes "invalid configuration"
