-- ===== src/Strategy/Ticks.antt =====
-- What a tick of backend/modules/strategy/src/strategy_registry.cpp resolves, and what it leaves.
use axiotick.Common.{
  ℕ, ◌≤◌, ◌≡◌, refl, inl, inr, Bool, Bool-cases, true, false, ◌&&◌, if◌then◌else◌, ltb, leb, List,
  [], ◌∷◌, arith,
}
use axiotick.Common.Decimal.{Bytes}
use axiotick.Core.Float.{Float}
use axiotick.Risk.{same_symbol}
use axiotick.Strategy.{RegistryMath, StrategyRegistryConfig}
use axiotick.Strategy.Registry.{
  PendingEvaluation, StrategyRegistry, emplace, is_price, resolve, tick_from, on_market_tick,
}

-- The evaluations are in the order of the times at which they are due, none before `low`.
abbrev pub SortedFrom : {A : Type 0} → ℕ → List (ℕ × A) → Type 0
SortedFrom low [] = Unit {0}
SortedFrom low ((due, p) ∷ rest) = (low ≤ due) × SortedFrom due rest

pub emplace-SortedFrom :
    {A : Type 0} (due : ℕ) (p : A) (low : ℕ) (pending : List (ℕ × A))
    → low ≤ due
    → SortedFrom low pending
    → SortedFrom low (emplace due p pending)
unfolding emplace
emplace-SortedFrom due p low [] above sorted = (above, tt)
emplace-SortedFrom due p low ((k, v) ∷ rest) above (h, sorted) = elim (Bool-cases (ltb due k)) [
  | inl before ↦ rw before (above, (ground (arith, before), sorted))
  | inr behind ↦ rw behind (h, emplace-SortedFrom due p k rest (ground (arith, behind)) sorted)
]

pub SortedFrom-weaken :
    {A : Type 0} (low higher : ℕ) (pending : List (ℕ × A))
    → low ≤ higher
    → SortedFrom higher pending
    → SortedFrom low pending
SortedFrom-weaken low higher [] h sorted = tt
SortedFrom-weaken low higher ((k, v) ∷ rest) h (l, sorted) = (omega (arith, h, l), sorted)

module _ {D : Type 0} (symbol : Bytes) (timestamp_ns : ℕ) where
  -- An evaluation of the symbol that is due is resolved now.
  abbrev pub resolves : ℕ → PendingEvaluation D → Bool
  resolves due p = leb due timestamp_ns && same_symbol p.symbol symbol

  abbrev pub waiting : List (ℕ × PendingEvaluation D) → List (ℕ × PendingEvaluation D)
  waiting [] = []
  waiting ((due, p) ∷ rest) =
      let later = waiting rest in if resolves due p then later else (due, p) ∷ later

  waiting_all :
      (low : ℕ) (pending : List (ℕ × PendingEvaluation D))
      → SortedFrom low pending
      → leb low timestamp_ns ≡ false
      → waiting pending ≡ pending
  waiting_all low [] sorted future = refl
  waiting_all low ((due, p) ∷ rest) (h, sorted) future =
      let not_due : leb due timestamp_ns ≡ false = ground (arith, h, future) in
      rw (not_due, waiting_all due rest sorted not_due) refl

  pub waiting-SortedFrom :
      (low : ℕ) (pending : List (ℕ × PendingEvaluation D))
      → SortedFrom low pending
      → SortedFrom low (waiting pending)
  waiting-SortedFrom low [] sorted = tt
  waiting-SortedFrom low ((due, p) ∷ rest) (h, sorted) = elim (Bool-cases (resolves due p)) [
    | inl now ↦
        rw now (SortedFrom-weaken low due (waiting rest) h (waiting-SortedFrom due rest sorted))
    | inr later ↦ rw later (h, waiting-SortedFrom due rest sorted)
  ]

module _ {D : Type 0} ⦃f : Float D⦄ (math : RegistryMath D) (config : StrategyRegistryConfig D)
    (symbol : Bytes) (price : D) (timestamp_ns : ℕ) where
  -- The evaluations that are due are resolved in the order of their times.
  abbrev pub resolve_all : List (ℕ × PendingEvaluation D) → StrategyRegistry D → StrategyRegistry D
  resolve_all [] r = r
  resolve_all ((due, p) ∷ rest) r =
      resolve_all rest (
        if resolves symbol timestamp_ns due p
        then resolve math config p price timestamp_ns r
        else r)

  resolve_none :
      (low : ℕ) (pending : List (ℕ × PendingEvaluation D)) (r : StrategyRegistry D)
      → SortedFrom low pending
      → leb low timestamp_ns ≡ false
      → resolve_all pending r ≡ r
  resolve_none low [] r sorted future = refl
  resolve_none low ((due, p) ∷ rest) r (h, sorted) future =
      let not_due : leb due timestamp_ns ≡ false = ground (arith, h, future) in
      rw not_due (resolve_none due rest r sorted not_due)

  pub tick_from-SortedFrom :
      (low : ℕ) (pending : List (ℕ × PendingEvaluation D)) (r : StrategyRegistry D)
      → SortedFrom low pending
      → tick_from math config symbol price timestamp_ns pending r
        ≡ (waiting symbol timestamp_ns pending, resolve_all pending r)
  unfolding tick_from
  tick_from-SortedFrom low [] r sorted = refl
  tick_from-SortedFrom low ((due, p) ∷ rest) r (h, sorted) =
      elim (Bool-cases (leb due timestamp_ns)) [
        | inr future ↦
            rw
              (
                future,
                waiting_all symbol timestamp_ns due rest sorted future,
                resolve_none due rest r sorted future,
              )
              refl
        | inl now ↦ elim (Bool-cases (same_symbol p.symbol symbol)) [
          | inl same ↦
              rw
                (
                  now,
                  same,
                  tick_from-SortedFrom due rest (resolve math config p price timestamp_ns r) sorted,
                )
                refl
          | inr other ↦ rw (now, other, tick_from-SortedFrom due rest r sorted) refl
        ]
      ]

  pub on_market_tick-SortedFrom :
      (r : StrategyRegistry D)
      → SortedFrom 0 r.pending_by_resolve_ns
      → is_price math config price ≡ true
      → let pending = r.pending_by_resolve_ns in
        on_market_tick math config symbol price timestamp_ns r ≡ record (resolve_all pending r) {
          pending_by_resolve_ns = waiting symbol timestamp_ns pending;
        }
  unfolding on_market_tick
  on_market_tick-SortedFrom r sorted good =
      rw (good, tick_from-SortedFrom 0 r.pending_by_resolve_ns r sorted) refl
