-- ===== src/Strategy.antt =====
-- `StrategyRegistry` of backend/modules/strategy/src/strategy_registry.cpp: the block that it keeps
-- for each strategy, the alarms and the transitions. The audit log is left out.
pub mod Registry
pub mod Lifecycle
pub mod Ticks
pub mod Blocked
pub mod History
pub mod Pending
mod Examples
use axiotick.Common.{
  ℕ, ◌+◌, ◌-◌, ◌%◌, ◌^◌, Bool, true, false, ◌&&◌, ◌||◌, if◌then◌else◌, ltb, leb, ◌==◌, List, [],
  ◌∷◌, ◌++◌, length, pos,
}
use axiotick.Common.Decimal.{Bytes, codes}
use axiotick.Core.Float.{Float}

-- What the code asks of the C++ library besides the operations of `Float`: the square root, the cast to
-- `uint64_t`, and the literals 1e-9 and 1e-12.
pub record RegistryMath (D : Type 0) : Type 0 where
  pub sqrt : D → D
  pub to_u64 : D → ℕ
  pub nano : D
  pub pico : D

pub data StrategyState : Type 0 where
  active under_observation quarantined disabled : StrategyState

abbrev pub same_state : StrategyState → StrategyState → Bool
same_state active active = true
same_state under_observation under_observation = true
same_state quarantined quarantined = true
same_state disabled disabled = true
same_state a b = false

pub record StrategyRegistryConfig (D : Type 0) : Type 0 where
  pub cusum_delta_bps : D
  pub cusum_lambda_bps : D
  pub sharpe_window : ℕ
  pub sharpe_floor_ratio : D
  pub ev_decay_window : ℕ
  pub ev_decay_min_samples : ℕ
  pub ev_decay_t_threshold : D
  pub max_strategy_drawdown_notional : D
  pub recovery_clean_evaluations : ℕ
  pub max_quarantines_in_lookback : ℕ
  pub quarantine_lookback_ns : ℕ
  pub max_resolved_history : ℕ

pub record ResolvedEvaluation (D : Type 0) : Type 0 where
  pub signal_id : ℕ
  pub symbol : Bytes
  pub predicted_ev_net_bps : D
  pub realized_bps : D
  pub notional : D
  pub regime : ℕ
  pub entry_ts_ns : ℕ
  pub resolved_ts_ns : ℕ

pub record TransitionEvent : Type 0 where
  pub origin : StrategyState
  pub target : StrategyState
  pub reason : Bytes
  pub timestamp_ns : ℕ

pub record StrategyBlock (D : Type 0) : Type 0 where
  pub baseline_sharpe : D
  pub state : StrategyState
  pub ph_count : ℕ
  pub ph_mean : D
  pub ph_m : D
  pub ph_max_m : D
  pub realized_window : List D
  pub diff_window : List D
  pub cum_pnl : D
  pub peak_pnl : D
  pub clean_evaluations : ℕ
  pub quarantine_timestamps : List ℕ
  pub resolved : List (ResolvedEvaluation D)
  pub transitions : List TransitionEvent

pub record Alarms : Type 0 where
  pub cusum : Bool
  pub sharpe : Bool
  pub ev_decay : Bool
  pub drawdown : Bool

-- The loop that leaves out quarantines before the lookback.
unfoldable pub recent : ℕ → ℕ → List ℕ → List ℕ
recent lookback now [] = []
recent lookback now (ts ∷ rest) =
    let later = recent lookback now rest in
    if ltb ts now && ltb lookback (now - ts) then later else ts ∷ rest

module _ {D : Type 0} ⦃f : Float D⦄ (math : RegistryMath D)
    (config : StrategyRegistryConfig D) where
  open f use {nought, gt, le, add, sub, mul, div, neg, of_int}

  abbrev pub count : ℕ → D
  count n = of_int (pos n)

  -- `std::max(a, b)`.
  abbrev pub max_of : D → D → D
  max_of a b = if gt b a then b else a

  abbrev pub sum_from : D → List D → D
  sum_from sum [] = sum
  sum_from sum (v ∷ vs) = sum_from (add sum v) vs

  abbrev pub squares_from : D → D → List D → D
  squares_from mean sum [] = sum
  squares_from mean sum (v ∷ vs) = squares_from mean (add sum (mul (sub v mean) (sub v mean))) vs

  unfoldable pub window_mean : List D → D
  window_mean [] = nought
  window_mean (v ∷ vs) = div (sum_from nought (v ∷ vs)) (count (length (v ∷ vs)))

  unfoldable pub rolling_sharpe : StrategyBlock D → D
  rolling_sharpe b =
      let window = b.realized_window in
      let n = length window in
      let mean = window_mean window in
      let stddev = math.sqrt (div (squares_from mean nought window) (count n)) in
      if ltb n config.sharpe_window || ltb n 2
      then nought
      else if gt math.nano stddev
      then if le nought mean then count 1_000_000_000 else neg (count 1_000_000_000)
      else div mean stddev

  unfoldable pub ev_decay_t : StrategyBlock D → D
  ev_decay_t b =
      let window = b.diff_window in
      let n = length window in
      let mean = window_mean window in
      let variance = div (squares_from mean nought window) (count (n - 1)) in
      if ltb n config.ev_decay_min_samples || ltb n 2
      then nought
      else div mean (max_of (div (math.sqrt variance) (math.sqrt (count n))) math.pico)

  unfoldable pub compute_alarms : StrategyBlock D → Alarms
  compute_alarms b = record {
    cusum = gt (sub b.ph_max_m b.ph_m) config.cusum_lambda_bps;
    sharpe =
        gt b.baseline_sharpe nought
        && leb config.sharpe_window (length b.realized_window)
        && gt (mul config.sharpe_floor_ratio b.baseline_sharpe) (rolling_sharpe b);
    ev_decay =
        leb config.ev_decay_min_samples (length b.diff_window)
        && gt (neg config.ev_decay_t_threshold) (ev_decay_t b);
    drawdown =
        gt config.max_strategy_drawdown_notional nought
        && gt (sub b.peak_pnl b.cum_pnl) config.max_strategy_drawdown_notional;
  }

  -- The part of `transition_locked` that every transition has.
  unfoldable pub move_state : StrategyState → Bytes → ℕ → StrategyBlock D → StrategyBlock D
  move_state to reason timestamp_ns b = record b {
    state = to;
    transitions =
        b.transitions
        ++ (record { origin = b.state; target = to; reason = reason; timestamp_ns = timestamp_ns })
          ∷ [];
    ph_count = 0;
    ph_mean = nought;
    ph_m = nought;
    ph_max_m = nought;
    clean_evaluations = 0;
  }

  -- A quarantine is counted, and disables the strategy if there are too many.
  unfoldable pub count_quarantine : ℕ → StrategyBlock D → StrategyBlock D
  count_quarantine timestamp_ns b =
      let kept =
        recent config.quarantine_lookback_ns timestamp_ns
          (b.quarantine_timestamps ++ timestamp_ns ∷ []) in
      let counted = record b { quarantine_timestamps = kept } in
      if leb config.max_quarantines_in_lookback (length kept)
      then move_state disabled (codes "repeated_quarantines") timestamp_ns counted
      else counted

  unfoldable pub transition : StrategyState → Bytes → ℕ → StrategyBlock D → StrategyBlock D
  transition to reason timestamp_ns b =
      let moved = move_state to reason timestamp_ns b in
      if same_state b.state to
      then b
      else if same_state to quarantined
      then count_quarantine timestamp_ns moved
      else moved

  unfoldable pub apply_governance : ℕ → StrategyBlock D → StrategyBlock D
  apply_governance timestamp_ns b =
      let alarms = compute_alarms b in
      let clean = b.clean_evaluations + 1 in
      elim b.state [
        | active ↦
            if alarms.drawdown
            then transition quarantined (codes "strategy_drawdown_breach") timestamp_ns b
            else if alarms.cusum || alarms.sharpe
            then transition under_observation
                (if alarms.cusum then codes "cusum_alarm" else codes "rolling_sharpe_floor")
                timestamp_ns b
            else b
        | under_observation ↦
            if alarms.drawdown || alarms.ev_decay
            then transition quarantined
                (if alarms.drawdown then codes "strategy_drawdown_breach" else codes "ev_decay")
                timestamp_ns b
            else if alarms.cusum || alarms.sharpe
            then record b { clean_evaluations = 0 }
            else if leb config.recovery_clean_evaluations clean
            then transition active (codes "recovery") timestamp_ns
                (record b { clean_evaluations = clean })
            else record b { clean_evaluations = clean }
        | quarantined ↦ b
        | disabled ↦ b
      ]
