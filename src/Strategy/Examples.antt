-- ===== src/Strategy/Examples.antt =====
-- The theorems on the strategy registry, applied to two evaluations and a manual quarantine. The
-- numbers are whole.
use axiotick.Common.{◌≡◌, refl, inl, [], ◌∷◌, ℤ, pos, pos_part, ◌*ℤ◌}
use axiotick.Common.Decimal.{codes}
use axiotick.Core.Float.Whole.{whole_float}
use axiotick.Strategy.{
  RegistryMath, quarantined, StrategyRegistryConfig, transition, count_quarantine, recent,
  move_state,
}
use axiotick.Strategy.Registry.{
  PendingEvaluation, StrategyRegistry, block_for, on_market_tick, emplace, record_signal_open,
  force_state, state,
}
use axiotick.Strategy.Lifecycle.{IsLawful}
use axiotick.Strategy.Ticks.{waiting, resolve_all}
use axiotick.Strategy.Blocked.{on_market_tick-blocked}
use axiotick.Strategy.History.{
  no_strategies, opens, ticks, forces, Reach, here, later, Reach-IsLawful,
}
use axiotick.Strategy.Pending.{Reach-on_market_tick}

abbrev whole_math : RegistryMath ℤ
whole_math = record { sqrt = λ a. a; to_u64 = pos_part; nano = pos 1; pico = pos 1 }

abbrev small_config : StrategyRegistryConfig ℤ
small_config = record {
  cusum_delta_bps = pos 0;
  cusum_lambda_bps = pos 5;
  sharpe_window = 3;
  sharpe_floor_ratio = pos 1;
  ev_decay_window = 3;
  ev_decay_min_samples = 2;
  ev_decay_t_threshold = pos 2;
  max_strategy_drawdown_notional = pos 10;
  recovery_clean_evaluations = 2;
  max_quarantines_in_lookback = 2;
  quarantine_lookback_ns = 1000;
  max_resolved_history = 4;
}

abbrev bought : PendingEvaluation ℤ
bought = record {
  signal_id = 1;
  strategy_id = codes "trend";
  symbol = codes "BTC";
  side = 1;
  entry_price = pos 100;
  notional = pos 50;
  predicted_ev_net_bps = pos 0;
  regime = 0;
  entry_ts_ns = 10;
}

abbrev bought_later : PendingEvaluation ℤ
bought_later = record bought { signal_id = 2; symbol = codes "ETH"; entry_ts_ns = 5 }

abbrev opened : StrategyRegistry ℤ
opened = record_signal_open whole_math small_config bought_later (pos 0) (
    record_signal_open whole_math small_config bought (pos 0)
      (no_strategies whole_math small_config))

abbrev opened-Reach : Reach whole_math small_config opened
opened-Reach = later (later here (opens bought (pos 0))) (opens bought_later (pos 0))

Reach-on_market_tick_example :
    on_market_tick whole_math small_config (codes "BTC") (pos 300) 20 opened
    ≡ record (resolve_all whole_math small_config
        (codes "BTC")
        (pos 300)
        20
        opened.pending_by_resolve_ns
        opened) { pending_by_resolve_ns = waiting (codes "BTC") 20 opened.pending_by_resolve_ns }
Reach-on_market_tick_example =
    Reach-on_market_tick whole_math small_config opened-Reach (codes "BTC") (pos 300) 20 refl

opened_order : opened.pending_by_resolve_ns ≡ (5, bought_later) ∷ (10, bought) ∷ []
unfolding record_signal_open emplace ◌*ℤ◌
opened_order = refl

abbrev forced : StrategyRegistry ℤ
forced = force_state whole_math small_config (codes "trend") quarantined (codes "halt") opened

forced_state : state whole_math small_config (codes "trend") forced ≡ quarantined
unfolding force_state record_signal_open state transition count_quarantine recent move_state
forced_state = refl

on_market_tick-blocked_example :
    state whole_math small_config
      (codes "trend")
      (on_market_tick whole_math small_config (codes "BTC") (pos 300) 20 forced)
    ≡ state whole_math small_config (codes "trend") forced
on_market_tick-blocked_example =
    on_market_tick-blocked whole_math small_config (codes "BTC") (pos 300) 20 (codes "trend") forced
      (inl forced_state)

Reach-IsLawful_example : IsLawful (
    block_for whole_math small_config
      (codes "trend")
      (on_market_tick whole_math small_config (codes "BTC") (pos 300) 20 forced))
Reach-IsLawful_example =
    Reach-IsLawful whole_math small_config
      (later (later opened-Reach (forces (codes "trend") quarantined (codes "halt")))
        (ticks (codes "BTC") (pos 300) 20))
      (codes "trend")
