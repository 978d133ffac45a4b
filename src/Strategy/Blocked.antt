-- ===== src/Strategy/Blocked.antt =====
-- Strategies that are blocked, in the ticks of backend/modules/strategy/src/strategy_registry.cpp.
use axiotick.Common.{
  ℕ, ◌≡◌, ◌⊎◌, refl, ◌∙◌, inl, inr, Bool-cases, Option-cases, true, if◌then◌else◌, leb, List, [],
  ◌∷◌, arith,
}
use axiotick.Common.Decimal.{Bytes}
use axiotick.Core.Float.{Float}
use axiotick.Risk.{same_symbol}
use axiotick.Strategy.{
  RegistryMath, quarantined, disabled, StrategyRegistryConfig, StrategyBlock, apply_governance,
}
use axiotick.Strategy.Registry.{
  PendingEvaluation, StrategyRegistry, block_for, set_block, is_price, evaluate, resolve, tick_from,
  on_market_tick, state,
}
use axiotick.Strategy.Lifecycle.{apply_governance-blocked}

eq_of_same_symbol : (s t : Bytes) → same_symbol s t ≡ true → s ≡ t
eq_of_same_symbol [] [] h = refl
eq_of_same_symbol [] (d ∷ ds) h = absurd (cc)
eq_of_same_symbol (c ∷ cs) [] h = absurd (cc)
eq_of_same_symbol (c ∷ cs) (d ∷ ds) h = ground (arith, h, eq_of_same_symbol cs ds)

module _ {D : Type 0} ⦃f : Float D⦄ (math : RegistryMath D) (config : StrategyRegistryConfig D)
    (symbol : Bytes) (price : D) (timestamp_ns : ℕ) where
  state-set_block :
      (key id : Bytes) (b : StrategyBlock D) (r : StrategyRegistry D)
      → state math config id (set_block math config key b r)
        ≡ (if same_symbol key id then b.state else state math config id r)
  unfolding state
  state-set_block key id b r = elim (Bool-cases (same_symbol key id)) [
    | inl same ↦ rw (state, same) refl
    | inr other ↦ rw (state, other) refl
  ]

  resolve-blocked :
      (p : PendingEvaluation D) (id : Bytes) (r : StrategyRegistry D)
      → (state math config id r ≡ quarantined) ⊎ (state math config id r ≡ disabled)
      → state math config id (resolve math config p price timestamp_ns r) ≡ state math config id r
  unfolding resolve evaluate state
  resolve-blocked p id r blocked = elim (Bool-cases (same_symbol p.strategy_id id)) [
    | inr other ↦ state-set_block p.strategy_id id _ r ∙ rw other refl
    | inl same ↦
        let b = evaluate math config p price timestamp_ns (block_for math config p.strategy_id r) in
        let held : b.state ≡ state math config id r =
          rw (eq_of_same_symbol p.strategy_id id same) (elim (Option-cases (r.strategies id)) [
            | inl e ↦ rw (e, state) refl
            | inr (known, e) ↦ rw (e, state) refl
          ]) in
        let stays : apply_governance math config timestamp_ns b ≡ b =
          apply_governance-blocked math config timestamp_ns b (rw held blocked) in
        state-set_block p.strategy_id id (apply_governance math config timestamp_ns b) r
        ∙ rw (same, stays) held
  ]

  tick_from-blocked :
      (pending : List (ℕ × PendingEvaluation D)) (id : Bytes) (r : StrategyRegistry D)
      → (state math config id r ≡ quarantined) ⊎ (state math config id r ≡ disabled)
      → state math config id (tick_from math config symbol price timestamp_ns pending r).1
        ≡ state math config id r
  unfolding tick_from
  tick_from-blocked [] id r blocked = refl
  tick_from-blocked ((due, p) ∷ rest) id r blocked = elim (Bool-cases (leb due timestamp_ns)) [
    | inr future ↦ rw future refl
    | inl now ↦ elim (Bool-cases (same_symbol p.symbol symbol)) [
      | inl same ↦
          let kept = resolve-blocked p id r blocked in
          rw (now, same)
            (tick_from-blocked rest id (resolve math config p price timestamp_ns r)
                (rw kept blocked)
              ∙ kept)
      | inr other ↦ rw (now, other) (tick_from-blocked rest id r blocked)
    ]
  ]

  -- No tick moves a strategy that is quarantined or disabled, whatever it resolves.
  pub on_market_tick-blocked :
      (id : Bytes) (r : StrategyRegistry D)
      → (state math config id r ≡ quarantined) ⊎ (state math config id r ≡ disabled)
      → state math config id (on_market_tick math config symbol price timestamp_ns r)
        ≡ state math config id r
  unfolding on_market_tick state
  on_market_tick-blocked id r blocked = elim (Bool-cases (is_price math config price)) [
    | inl good ↦ rw good (tick_from-blocked r.pending_by_resolve_ns id r blocked)
    | inr bad ↦ rw bad refl
  ]
