-- ===== src/Strategy/Registry.antt =====
-- The operations of `StrategyRegistry` of backend/modules/strategy/src/strategy_registry.cpp, each one
-- step under its mutex.
use axiotick.Common.{
  ℕ, ◌+◌, ◌%◌, ◌^◌, Bool, not, ◌&&◌, ◌||◌, if◌then◌else◌, ltb, leb, ◌==◌, Option, none, some, List,
  [], ◌∷◌, ◌++◌, length, drop, pos,
}
use mathlib.Core.Option.{get_or}
use axiotick.Common.Decimal.{Bytes, codes}
use axiotick.Core.Float.{Float}
use axiotick.Core.Order.{side_buy}
use axiotick.Risk.{same_symbol, update_symbol}
use axiotick.Strategy.{
  RegistryMath, StrategyState, active, StrategyRegistryConfig, StrategyBlock, max_of,
  apply_governance, transition,
}

pub record PendingEvaluation (D : Type 0) : Type 0 where
  pub signal_id : ℕ
  pub strategy_id : Bytes
  pub symbol : Bytes
  pub side : ℕ
  pub entry_price : D
  pub notional : D
  pub predicted_ev_net_bps : D
  pub regime : ℕ
  pub entry_ts_ns : ℕ

-- The pending evaluations stand in the order of the times at which they are due.
pub record StrategyRegistry (D : Type 0) : Type 0 where
  pub strategies : Bytes → Option (StrategyBlock D)
  pub pending_by_resolve_ns : List (ℕ × PendingEvaluation D)

-- The deques and the vector keep at most so many of their last elements, of which one is new.
abbrev pub push_capped : {A : Type 0} → ℕ → List A → A → List A
push_capped cap window v =
    let longer = window ++ v ∷ [] in if ltb cap (length longer) then drop 1 longer else longer

-- `emplace` of a multimap, which puts an equal key behind the others.
unfoldable pub emplace : {A : Type 0} → ℕ → A → List (ℕ × A) → List (ℕ × A)
emplace key value [] = (key, value) ∷ []
emplace key value ((k, v) ∷ rest) =
    let later = emplace key value rest in
    if ltb key k then (key, value) ∷ (k, v) ∷ rest else (k, v) ∷ later

module _ {D : Type 0} ⦃f : Float D⦄ (math : RegistryMath D)
    (config : StrategyRegistryConfig D) where
  open f use {nought, is_finite, gt, add, sub, mul, div, neg, of_int}

  abbrev pub new_block : StrategyBlock D
  new_block = record {
    baseline_sharpe = nought;
    state = active;
    ph_count = 0;
    ph_mean = nought;
    ph_m = nought;
    ph_max_m = nought;
    realized_window = [];
    diff_window = [];
    cum_pnl = nought;
    peak_pnl = nought;
    clean_evaluations = 0;
    quarantine_timestamps = [];
    resolved = [];
    transitions = [];
  }

  abbrev pub block_for : Bytes → StrategyRegistry D → StrategyBlock D
  block_for id r = get_or (r.strategies id) new_block

  abbrev pub set_block : Bytes → StrategyBlock D → StrategyRegistry D → StrategyRegistry D
  set_block id b r = record r { strategies = update_symbol r.strategies id b }

  unfoldable pub register_strategy : Bytes → D → StrategyRegistry D → StrategyRegistry D
  register_strategy id baseline r =
      let b = block_for id r in set_block id (record b { baseline_sharpe = baseline }) r

  abbrev pub is_price : D → Bool
  is_price price = gt price nought && is_finite price

  unfoldable pub record_signal_open :
      PendingEvaluation D → D → StrategyRegistry D → StrategyRegistry D
  record_signal_open p expected_holding_hours r =
      let hours =
        if is_finite expected_holding_hours && gt expected_holding_hours nought
        then expected_holding_hours
        else nought in
      let horizon_ns =
        math.to_u64 (mul (mul hours (of_int (pos 3600))) (of_int (pos 1_000_000_000))) in
      let known = set_block p.strategy_id (block_for p.strategy_id r) r in
      if not (is_price p.entry_price) || same_symbol p.strategy_id [] then r else record known {
        pending_by_resolve_ns =
            emplace ((p.entry_ts_ns + horizon_ns) % 2 ^ 64) p r.pending_by_resolve_ns;
      }

  unfoldable pub evaluate : PendingEvaluation D → D → ℕ → StrategyBlock D → StrategyBlock D
  evaluate p price timestamp_ns b =
      let direction = if p.side == side_buy then of_int (pos 1) else neg (of_int (pos 1)) in
      let x =
        mul (mul (sub (div price p.entry_price) (of_int (pos 1))) (of_int (pos 10_000)))
          direction in
      let count = (b.ph_count + 1) % 2 ^ 64 in
      let mean = add b.ph_mean (div (sub x b.ph_mean) (of_int (pos count))) in
      let m = add b.ph_m (add (sub x mean) config.cusum_delta_bps) in
      let pnl = add b.cum_pnl (div (mul p.notional x) (of_int (pos 10_000))) in
      record b {
        ph_count = count;
        ph_mean = mean;
        ph_m = m;
        ph_max_m = max_of math config b.ph_max_m m;
        realized_window = push_capped config.sharpe_window b.realized_window x;
        diff_window =
            push_capped config.ev_decay_window b.diff_window (sub x p.predicted_ev_net_bps);
        cum_pnl = pnl;
        peak_pnl = max_of math config b.peak_pnl pnl;
        resolved = push_capped config.max_resolved_history b.resolved (record {
          signal_id = p.signal_id;
          symbol = p.symbol;
          predicted_ev_net_bps = p.predicted_ev_net_bps;
          realized_bps = x;
          notional = p.notional;
          regime = p.regime;
          entry_ts_ns = p.entry_ts_ns;
          resolved_ts_ns = timestamp_ns;
        });
      }

  unfoldable pub resolve : PendingEvaluation D → D → ℕ → StrategyRegistry D → StrategyRegistry D
  resolve p price timestamp_ns r =
      let b = evaluate p price timestamp_ns (block_for p.strategy_id r) in
      set_block p.strategy_id (apply_governance math config timestamp_ns b) r

  -- The loop of `on_market_tick` over the pending evaluations: those that it leaves, and the registry.
  unfoldable pub tick_from :
      Bytes
      → D
      → ℕ
      → List (ℕ × PendingEvaluation D)
      → StrategyRegistry D
      → List (ℕ × PendingEvaluation D) × StrategyRegistry D
  tick_from symbol price timestamp_ns [] r = ([], r)
  tick_from symbol price timestamp_ns ((due, p) ∷ rest) r =
      let same = same_symbol p.symbol symbol in
      let (left, after) =
        tick_from symbol price timestamp_ns rest
          (if same then resolve p price timestamp_ns r else r) in
      if not (leb due timestamp_ns)
      then ((due, p) ∷ rest, r)
      else if same
      then (left, after)
      else ((due, p) ∷ left, after)

  unfoldable pub on_market_tick : Bytes → D → ℕ → StrategyRegistry D → StrategyRegistry D
  on_market_tick symbol price timestamp_ns r =
      let (left, after) = tick_from symbol price timestamp_ns r.pending_by_resolve_ns r in
      if not (is_price price) then r else record after { pending_by_resolve_ns = left }

  unfoldable pub flush_from :
      Bytes
      → D
      → ℕ
      → List (ℕ × PendingEvaluation D)
      → StrategyRegistry D
      → List (ℕ × PendingEvaluation D) × StrategyRegistry D
  flush_from symbol price timestamp_ns [] r = ([], r)
  flush_from symbol price timestamp_ns ((due, p) ∷ rest) r =
      let same = same_symbol p.symbol symbol in
      let (left, after) =
        flush_from symbol price timestamp_ns rest
          (if same then resolve p price timestamp_ns r else r) in
      if same then (left, after) else ((due, p) ∷ left, after)

  unfoldable pub flush_pending : Bytes → D → ℕ → StrategyRegistry D → StrategyRegistry D
  flush_pending symbol price timestamp_ns r =
      let (left, after) = flush_from symbol price timestamp_ns r.pending_by_resolve_ns r in
      if not (is_price price) then r else record after { pending_by_resolve_ns = left }

  unfoldable pub state : Bytes → StrategyRegistry D → StrategyState
  state id r = elim (r.strategies id) [ some b ↦ b.state | none ↦ active ]

  unfoldable pub force_state :
      Bytes → StrategyState → Bytes → StrategyRegistry D → StrategyRegistry D
  force_state id to reason r =
      set_block id (transition math config to (codes "manual:" ++ reason) 0 (block_for id r)) r
