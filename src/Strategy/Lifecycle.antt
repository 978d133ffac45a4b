-- ===== src/Strategy/Lifecycle.antt =====
-- The machine that the comment of backend/include/strategy/strategy_registry.hpp draws, and the
-- transitions that backend/modules/strategy/src/strategy_registry.cpp makes.
use axiotick.Common.{
  ℕ, ◌+◌, ◌≡◌, ◌⊎◌, refl, inl, inr, Bool, Bool-cases, true, false, not, ◌&&◌, ◌||◌, if◌then◌else◌,
  leb, length, List, [], ◌∷◌, ◌++◌,
}
use axiotick.Common.Decimal.{Bytes, codes}
use axiotick.Core.Float.{Float}
use axiotick.Persist.Line.{equal}
use axiotick.Strategy.{
  RegistryMath, StrategyState, active, under_observation, quarantined, disabled, same_state,
  StrategyRegistryConfig, TransitionEvent, StrategyBlock, compute_alarms, recent, move_state,
  count_quarantine, transition, apply_governance,
}

abbrev pub starts : Bytes → Bytes → Bool
starts [] s = true
starts (a ∷ m) [] = false
starts (a ∷ m) (b ∷ s) = equal (a ∷ []) (b ∷ []) && starts m s

-- The automatic edges, with their reasons.
abbrev pub automatic : StrategyState → StrategyState → Bytes → Bool
automatic active under_observation reason =
    equal reason (codes "cusum_alarm") || equal reason (codes "rolling_sharpe_floor")
automatic active quarantined reason = equal reason (codes "strategy_drawdown_breach")
automatic under_observation quarantined reason =
    equal reason (codes "strategy_drawdown_breach") || equal reason (codes "ev_decay")
automatic under_observation active reason = equal reason (codes "recovery")
automatic quarantined disabled reason = equal reason (codes "repeated_quarantines")
automatic origin target reason = false

-- An operator goes from any state to any other.
abbrev pub allowed : StrategyState → StrategyState → Bytes → Bool
allowed origin target reason =
    automatic origin target reason
    || (starts (codes "manual:") reason && not (same_state origin target))

-- The transitions lead from the one state to the other, each from where the last one led.
abbrev pub chained : StrategyState → List TransitionEvent → StrategyState → Bool
chained from [] to = same_state from to
chained from (e ∷ es) to =
    same_state e.origin from && (allowed e.origin e.target e.reason && chained e.target es to)

same_state_refl : (s : StrategyState) → same_state s s ≡ true
same_state_refl active = refl
same_state_refl under_observation = refl
same_state_refl quarantined = refl
same_state_refl disabled = refl

eq_of_same_state : (s t : StrategyState) → same_state s t ≡ true → s ≡ t
eq_of_same_state active active h = refl
eq_of_same_state under_observation under_observation h = refl
eq_of_same_state quarantined quarantined h = refl
eq_of_same_state disabled disabled h = refl
eq_of_same_state active under_observation h = absurd (cc)
eq_of_same_state active quarantined h = absurd (cc)
eq_of_same_state active disabled h = absurd (cc)
eq_of_same_state under_observation active h = absurd (cc)
eq_of_same_state under_observation quarantined h = absurd (cc)
eq_of_same_state under_observation disabled h = absurd (cc)
eq_of_same_state quarantined active h = absurd (cc)
eq_of_same_state quarantined under_observation h = absurd (cc)
eq_of_same_state quarantined disabled h = absurd (cc)
eq_of_same_state disabled active h = absurd (cc)
eq_of_same_state disabled under_observation h = absurd (cc)
eq_of_same_state disabled quarantined h = absurd (cc)

both_true : (a b : Bool) → (a && b) ≡ true → (a ≡ true) × (b ≡ true)
both_true true b h = (refl, h)
both_true false b h = absurd (cc)

chained-append :
    (es : List TransitionEvent) (e : TransitionEvent) (from : StrategyState)
    → chained from es e.origin ≡ true
    → allowed e.origin e.target e.reason ≡ true
    → chained from (es ++ e ∷ []) e.target ≡ true
chained-append [] e from h edge =
    let start : from ≡ e.origin = eq_of_same_state from e.origin h in
    rw (start, same_state_refl e.origin, edge, same_state_refl e.target) refl
chained-append (x ∷ es) e from h edge =
    let (here, later) = both_true (same_state x.origin from) _ h in
    let (step, rest) = both_true (allowed x.origin x.target x.reason) _ later in
    rw (here, step) (chained-append es e x.target rest edge)

-- The record of a block tells how it came from `active` to its state.
abbrev pub IsLawful : {D : Type 0} → StrategyBlock D → Type 0
IsLawful b = chained active b.transitions b.state ≡ true

module _ {D : Type 0} ⦃f : Float D⦄ (math : RegistryMath D) (config : StrategyRegistryConfig D)
    (timestamp_ns : ℕ) where
  move_state-IsLawful :
      (to : StrategyState) (reason : Bytes) (b : StrategyBlock D)
      → IsLawful b
      → allowed b.state to reason ≡ true
      → IsLawful (move_state math config to reason timestamp_ns b)
  unfolding move_state
  move_state-IsLawful to reason b lawful edge = chained-append b.transitions _ active lawful edge

  count_quarantine-IsLawful :
      (b : StrategyBlock D)
      → IsLawful b
      → b.state ≡ quarantined
      → IsLawful (count_quarantine math config timestamp_ns b)
  unfolding count_quarantine
  count_quarantine-IsLawful b lawful here =
      let kept =
        recent config.quarantine_lookback_ns timestamp_ns
          (b.quarantine_timestamps ++ timestamp_ns ∷ []) in
      elim (Bool-cases (leb config.max_quarantines_in_lookback (length kept))) [
        | inl many ↦ rw many (
            move_state-IsLawful disabled (codes "repeated_quarantines")
              (record b { quarantine_timestamps = kept }) lawful (rw here refl))
        | inr few ↦ rw few lawful
      ]

  pub transition-IsLawful :
      (to : StrategyState) (reason : Bytes) (b : StrategyBlock D)
      → IsLawful b
      → (same_state b.state to ≡ false → allowed b.state to reason ≡ true)
      → IsLawful (transition math config to reason timestamp_ns b)
  unfolding transition move_state
  transition-IsLawful to reason b lawful edge = elim (Bool-cases (same_state b.state to)) [
    | inl stays ↦ rw stays lawful
    | inr moves ↦
        let moved = move_state-IsLawful to reason b lawful (edge moves) in
        elim (Bool-cases (same_state to quarantined)) [
          | inl quarantine ↦
              rw (moves, quarantine)
                (count_quarantine-IsLawful (move_state math config to reason timestamp_ns b) moved
                  (eq_of_same_state to quarantined quarantine))
          | inr other ↦ rw (moves, other) moved
        ]
  ]

  governed :
      (s : StrategyState) (block : StrategyBlock D)
      → chained active block.transitions s ≡ true
      → IsLawful (apply_governance math config timestamp_ns (record block { state = s }))
  unfolding apply_governance
  governed active block lawful =
      let b = record block { state = active } in
      let alarms = compute_alarms math config b in
      elim (Bool-cases alarms.drawdown) [
        | inl breach ↦ rw breach (
            transition-IsLawful quarantined (codes "strategy_drawdown_breach") b lawful (λ _. refl))
        | inr sound ↦ elim (Bool-cases (alarms.cusum || alarms.sharpe)) [
          | inl alarm ↦
              rw (sound, alarm)
                (transition-IsLawful under_observation
                  (if alarms.cusum then codes "cusum_alarm" else codes "rolling_sharpe_floor") b
                  lawful
                  (λ _. elim (Bool-cases alarms.cusum) [ inl e ↦ rw e refl | inr e ↦ rw e refl ]))
          | inr calm ↦ rw (sound, calm) lawful
        ]
      ]
  governed under_observation block lawful =
      let b = record block { state = under_observation } in
      let alarms = compute_alarms math config b in
      let clean = b.clean_evaluations + 1 in
      elim (Bool-cases (alarms.drawdown || alarms.ev_decay)) [
        | inl breach ↦ rw breach (
            transition-IsLawful quarantined
              (if alarms.drawdown then codes "strategy_drawdown_breach" else codes "ev_decay") b
              lawful
              (λ _. elim (Bool-cases alarms.drawdown) [ inl e ↦ rw e refl | inr e ↦ rw e refl ]))
        | inr sound ↦ elim (Bool-cases (alarms.cusum || alarms.sharpe)) [
          | inl alarm ↦ rw (sound, alarm) lawful
          | inr calm ↦ elim (Bool-cases (leb config.recovery_clean_evaluations clean)) [
            | inl recovered ↦
                rw (sound, calm, recovered)
                  (transition-IsLawful active (codes "recovery")
                    (record b { clean_evaluations = clean }) lawful (λ _. refl))
            | inr waits ↦ rw (sound, calm, waits) lawful
          ]
        ]
      ]
  governed quarantined block lawful = lawful
  governed disabled block lawful = lawful

  pub apply_governance-IsLawful :
      (b : StrategyBlock D) → IsLawful b → IsLawful (apply_governance math config timestamp_ns b)
  apply_governance-IsLawful b lawful = governed b.state b lawful

  -- Quarantined and disabled strategies are left as they are.
  pub apply_governance-blocked :
      (b : StrategyBlock D)
      → (b.state ≡ quarantined) ⊎ (b.state ≡ disabled)
      → apply_governance math config timestamp_ns b ≡ b
  unfolding apply_governance
  apply_governance-blocked b (inl e) = rw e refl
  apply_governance-blocked b (inr e) = rw e refl
