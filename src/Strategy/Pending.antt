-- ===== src/Strategy/Pending.antt =====
-- The order of the pending evaluations of backend/modules/strategy/src/strategy_registry.cpp in
-- histories of calls.
use axiotick.Common.{ℕ, ◌≡◌, inl, inr, Bool-cases, true, not, ◌||◌, List, [], ◌∷◌, arith}
use axiotick.Common.Decimal.{Bytes}
use axiotick.Core.Float.{Float}
use axiotick.Risk.{same_symbol}
use axiotick.Strategy.{RegistryMath, StrategyRegistryConfig}
use axiotick.Strategy.Registry.{
  PendingEvaluation, StrategyRegistry, is_price, resolve, register_strategy, record_signal_open,
  on_market_tick, flush_from, flush_pending, force_state,
}
use axiotick.Strategy.Ticks.{
  SortedFrom, SortedFrom-weaken, emplace-SortedFrom, waiting, waiting-SortedFrom, resolve_all,
  tick_from-SortedFrom, on_market_tick-SortedFrom,
}
use axiotick.Strategy.History.{Step, registers, opens, ticks, flushes, forces, Reach, here, later}

module _ {D : Type 0} ⦃f : Float D⦄ (math : RegistryMath D)
    (config : StrategyRegistryConfig D) where
  flush_from-SortedFrom :
      (symbol : Bytes) (price : D) (timestamp_ns : ℕ) (low : ℕ)
      (pending : List (ℕ × PendingEvaluation D)) (r : StrategyRegistry D)
      → SortedFrom low pending
      → SortedFrom low (flush_from math config symbol price timestamp_ns pending r).0
  unfolding flush_from
  flush_from-SortedFrom symbol price ts low [] r sorted = tt
  flush_from-SortedFrom symbol price ts low ((due, p) ∷ rest) r (h, sorted) =
      elim (Bool-cases (same_symbol p.symbol symbol)) [
        | inl same ↦ rw same (
            SortedFrom-weaken low due _ h (
              flush_from-SortedFrom symbol price ts due rest (resolve math config p price ts r)
                sorted))
        | inr other ↦ rw other (h, flush_from-SortedFrom symbol price ts due rest r sorted)
      ]

  Step-SortedFrom :
      (r r' : StrategyRegistry D)
      → SortedFrom 0 r.pending_by_resolve_ns
      → Step math config r r'
      → SortedFrom 0 r'.pending_by_resolve_ns
  unfolding register_strategy record_signal_open on_market_tick flush_pending force_state
  Step-SortedFrom r r' sorted (registers id baseline) = sorted
  Step-SortedFrom r r' sorted (opens p hours) =
      elim (Bool-cases (not (is_price math config p.entry_price) || same_symbol p.strategy_id [])) [
        | inl bad ↦ rw bad sorted
        | inr good ↦ rw good (emplace-SortedFrom _ p 0 r.pending_by_resolve_ns (omega arith) sorted)
      ]
  Step-SortedFrom r r' sorted (ticks symbol price ts) =
      elim (Bool-cases (is_price math config price)) [
        | inl good ↦
            rw
              (
                good,
                tick_from-SortedFrom math config symbol price ts 0 r.pending_by_resolve_ns r sorted,
              )
              (waiting-SortedFrom symbol ts 0 r.pending_by_resolve_ns sorted)
        | inr bad ↦ rw bad sorted
      ]
  Step-SortedFrom r r' sorted (flushes symbol price ts) =
      elim (Bool-cases (is_price math config price)) [
        | inl good ↦
            rw good (flush_from-SortedFrom symbol price ts 0 r.pending_by_resolve_ns r sorted)
        | inr bad ↦ rw bad sorted
      ]
  Step-SortedFrom r r' sorted (forces id to reason) = sorted

  Reach-SortedFrom :
      {r : StrategyRegistry D} → Reach math config r → SortedFrom 0 r.pending_by_resolve_ns
  Reach-SortedFrom here = tt
  Reach-SortedFrom (later {r} {r'} before s) = Step-SortedFrom r r' (Reach-SortedFrom before) s

  -- After any history of calls, a tick with a price that is positive and finite resolves exactly the
  -- evaluations of its symbol that are due, in the order of their times, and leaves the others pending
  -- in their order.
  pub Reach-on_market_tick :
      {r : StrategyRegistry D}
      → Reach math config r
      → (symbol : Bytes) (price : D) (timestamp_ns : ℕ) → is_price math config price ≡ true
      → let pending = r.pending_by_resolve_ns in
        on_market_tick math config symbol price timestamp_ns r
        ≡ record (resolve_all math config symbol price timestamp_ns pending r) {
          pending_by_resolve_ns = waiting symbol timestamp_ns pending;
        }
  Reach-on_market_tick {r} reach symbol price timestamp_ns good =
      on_market_tick-SortedFrom math config symbol price timestamp_ns r (Reach-SortedFrom reach)
        good
