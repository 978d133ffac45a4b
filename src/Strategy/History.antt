-- ===== src/Strategy/History.antt =====
-- Histories of calls on one registry of backend/modules/strategy/src/strategy_registry.cpp.
use axiotick.Common.{
  ℕ, ◌≡◌, refl, sym, ◌∙◌, inl, inr, Bool, Bool-cases, Option-cases, true, false, not, ◌||◌,
  if◌then◌else◌, leb, none, some, List, [], ◌∷◌, ◌++◌, arith,
}
use axiotick.Common.Decimal.{Bytes, codes}
use axiotick.Core.Float.{Float}
use axiotick.Risk.{same_symbol}
use axiotick.Strategy.{
  RegistryMath, StrategyState, same_state, StrategyRegistryConfig, StrategyBlock,
}
use axiotick.Strategy.Registry.{
  PendingEvaluation, StrategyRegistry, block_for, set_block, is_price, evaluate, resolve,
  register_strategy, record_signal_open, tick_from, on_market_tick, flush_from, flush_pending,
  force_state,
}
use axiotick.Strategy.Lifecycle.{
  automatic, allowed, IsLawful, transition-IsLawful, apply_governance-IsLawful,
}

module _ {D : Type 0} ⦃f : Float D⦄ (math : RegistryMath D)
    (config : StrategyRegistryConfig D) where
  abbrev pub no_strategies : StrategyRegistry D
  no_strategies = record { strategies = λ _. none; pending_by_resolve_ns = [] }

  pub data Step (r : StrategyRegistry D) : StrategyRegistry D → Type 0 where
    registers : (id : Bytes) (baseline : D) → Step r (register_strategy math config id baseline r)
    opens :
        (p : PendingEvaluation D) (hours : D) → Step r (record_signal_open math config p hours r)
    ticks :
        (symbol : Bytes) (price : D) (timestamp_ns : ℕ)
        → Step r (on_market_tick math config symbol price timestamp_ns r)
    flushes :
        (symbol : Bytes) (price : D) (timestamp_ns : ℕ)
        → Step r (flush_pending math config symbol price timestamp_ns r)
    forces :
        (id : Bytes) (to : StrategyState) (reason : Bytes)
        → Step r (force_state math config id to reason r)

  pub data Reach : StrategyRegistry D → Type 0 where
    here : Reach no_strategies
    later : {r r' : StrategyRegistry D} → Reach r → Step r r' → Reach r'

  abbrev pub AllLawful : StrategyRegistry D → Type 0
  AllLawful r = (id : Bytes) (b : StrategyBlock D) → r.strategies id ≡ some b → IsLawful b

  block_for-IsLawful :
      (id : Bytes) (r : StrategyRegistry D) → AllLawful r → IsLawful (block_for math config id r)
  block_for-IsLawful id r all = elim (Option-cases (r.strategies id)) [
    | inl e ↦ rw e refl
    | inr (b, e) ↦ rw e (all id b e)
  ]

  set_block-AllLawful :
      (id : Bytes) (b : StrategyBlock D) (r : StrategyRegistry D)
      → IsLawful b
      → AllLawful r
      → AllLawful (set_block math config id b r)
  set_block-AllLawful id b r lawful all other held e = elim (Bool-cases (same_symbol id other)) [
    | inl same ↦
        let first : (if same_symbol id other then some b else r.strategies other) ≡ some b =
          rw same refl in
        let same_block : b ≡ held = cc in rw (← same_block) lawful
    | inr apart ↦
        let rest : (if same_symbol id other then some b else r.strategies other)
            ≡ r.strategies other =
          rw apart refl in
        all other held (sym rest ∙ e)
  ]

  resolve-AllLawful :
      (p : PendingEvaluation D) (price : D) (timestamp_ns : ℕ) (r : StrategyRegistry D)
      → AllLawful r
      → AllLawful (resolve math config p price timestamp_ns r)
  unfolding resolve evaluate
  resolve-AllLawful p price timestamp_ns r all =
      set_block-AllLawful p.strategy_id _ r
        (apply_governance-IsLawful math config timestamp_ns _
          (block_for-IsLawful p.strategy_id r all))
        all

  module _ (symbol : Bytes) (price : D) (timestamp_ns : ℕ) where
    tick_from-AllLawful :
        (pending : List (ℕ × PendingEvaluation D)) (r : StrategyRegistry D)
        → AllLawful r
        → AllLawful (tick_from math config symbol price timestamp_ns pending r).1
    unfolding tick_from
    tick_from-AllLawful [] r all = all
    tick_from-AllLawful ((due, p) ∷ rest) r all = elim (Bool-cases (leb due timestamp_ns)) [
      | inr future ↦ rw future all
      | inl now ↦ elim (Bool-cases (same_symbol p.symbol symbol)) [
        | inl same ↦
            rw (now, same)
              (tick_from-AllLawful rest _ (resolve-AllLawful p price timestamp_ns r all))
        | inr other ↦ rw (now, other) (tick_from-AllLawful rest r all)
      ]
    ]

    flush_from-AllLawful :
        (pending : List (ℕ × PendingEvaluation D)) (r : StrategyRegistry D)
        → AllLawful r
        → AllLawful (flush_from math config symbol price timestamp_ns pending r).1
    unfolding flush_from
    flush_from-AllLawful [] r all = all
    flush_from-AllLawful ((due, p) ∷ rest) r all = elim (Bool-cases (same_symbol p.symbol symbol)) [
      | inl same ↦
          rw same (flush_from-AllLawful rest _ (resolve-AllLawful p price timestamp_ns r all))
      | inr other ↦ rw other (flush_from-AllLawful rest r all)
    ]

  manual_allowed :
      (from to : StrategyState) (reason : Bytes)
      → same_state from to ≡ false
      → allowed from to (codes "manual:" ++ reason) ≡ true
  manual_allowed from to reason apart =
      let or_true : (a : Bool) → (a || true) ≡ true = λ a. ground arith in
      rw apart (or_true (automatic from to (codes "manual:" ++ reason)))

  Step-AllLawful : (r r' : StrategyRegistry D) → AllLawful r → Step r r' → AllLawful r'
  unfolding register_strategy record_signal_open on_market_tick flush_pending force_state
  Step-AllLawful r r' all (registers id baseline) =
      set_block-AllLawful id _ r (block_for-IsLawful id r all) all
  Step-AllLawful r r' all (opens p hours) =
      elim (Bool-cases (not (is_price math config p.entry_price) || same_symbol p.strategy_id [])) [
        | inl bad ↦ rw bad all
        | inr good ↦
            rw good
              (set_block-AllLawful p.strategy_id _ r (block_for-IsLawful p.strategy_id r all) all)
      ]
  Step-AllLawful r r' all (ticks symbol price timestamp_ns) =
      elim (Bool-cases (is_price math config price)) [
        | inl good ↦
            rw good (tick_from-AllLawful symbol price timestamp_ns r.pending_by_resolve_ns r all)
        | inr bad ↦ rw bad all
      ]
  Step-AllLawful r r' all (flushes symbol price timestamp_ns) =
      elim (Bool-cases (is_price math config price)) [
        | inl good ↦
            rw good (flush_from-AllLawful symbol price timestamp_ns r.pending_by_resolve_ns r all)
        | inr bad ↦ rw bad all
      ]
  Step-AllLawful r r' all (forces id to reason) =
      let b = block_for math config id r in
      let moved =
        transition-IsLawful math config 0 to (codes "manual:" ++ reason) b
          (block_for-IsLawful id r all) (manual_allowed b.state to reason) in
      set_block-AllLawful id _ r moved all

  Reach-AllLawful : {r : StrategyRegistry D} → Reach r → AllLawful r
  Reach-AllLawful here = λ id b e. absurd (cc)
  Reach-AllLawful (later {r} {r'} before s) = Step-AllLawful r r' (Reach-AllLawful before) s

  -- After any history of calls, the transitions that a strategy's record lists lead from active to its
  -- state: each starts where the last one led, and is an edge of the machine with its reason, or a
  -- manual one to another state.
  pub Reach-IsLawful :
      {r : StrategyRegistry D} → Reach r → (id : Bytes) → IsLawful (block_for math config id r)
  Reach-IsLawful {r} reach id = block_for-IsLawful id r (Reach-AllLawful reach)
