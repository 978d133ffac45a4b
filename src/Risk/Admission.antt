-- ===== src/Risk/Admission.antt =====
-- The conditions under which `check_order` of backend/modules/risk/src/risk_manager.cpp lets an order
-- through, as inequalities.
use axiotick.Common.{
  ◌≡◌, ◌≢◌, ◌↔◌, ◌⊎◌, refl, sym, ◌∙◌, inl, inr, Bool-cases, Option-cases, true, false, ◌&&◌,
  if◌then◌else◌, none, some, List, [], ◌∷◌, ℤ, pos, ◌≤ℤ◌, ◌==◌, abs_ℤ, neg_ℤ, ◌+ℤ◌, int64_max,
  int64_min, +ℤ_parts, -ℤ_parts, arith,
}
use axiotick.Core.Float.{Float}
use axiotick.Core.Order.{Order, side_buy}
use axiotick.Core.FixedPoint.{normalize_order_scalars, signed_notional_units, to_quantity_lots}
use axiotick.Core.Validator.Accepts.{IsAcceptable, is_valid_order_iff}
use axiotick.Risk.{RiskManager, SymbolLimitState, try_add_units, normalize_symbol}
use axiotick.Risk.Reservations.{check_order, within_position, within_symbol_limits}
use axiotick.Risk.Checks.{reserved, check_order_admitted}

List-cases : {A : Type 0} (xs : List A) → (xs ≡ []) ⊎ ((c : A) × (cs : List A) × (xs ≡ c ∷ cs))
List-cases [] = inl refl
List-cases (c ∷ cs) = inr (c, cs, refl)

try_add_units_iff :
    (base delta sum : ℤ)
    → (try_add_units base delta ≡ some sum) ↔ (
        (sum ≡ base +ℤ delta)
        × ((delta ≤ℤ pos 0) ⊎ (sum ≤ℤ int64_max))
        × ((pos 0 ≤ℤ delta) ⊎ (int64_min ≤ℤ sum)))
unfolding try_add_units
try_add_units_iff base delta sum = (
  λ h. ground (arith, h, +ℤ_parts base delta, -ℤ_parts int64_max delta, -ℤ_parts int64_min delta),
  λ h. ground (arith, h, +ℤ_parts base delta, -ℤ_parts int64_max delta, -ℤ_parts int64_min delta),
)

module _ {D : Type 0} ⦃f : Float D⦄ where
  open f use {nought, fabs, gt, mul, div, of_int}

  -- A limit of at most zero is off; a limit in lots that is out of range lets nothing through.
  abbrev pub IsWithin : D → ℤ → Type 0
  IsWithin limit lots =
      (gt limit nought ≡ false)
      ⊎ ((to_quantity_lots limit ≢ int64_max) × (abs_ℤ lots ≤ℤ abs_ℤ (to_quantity_lots limit)))

  -- The order's symbol is empty or has no limits, or the position that the order would lead to is
  -- within both.
  abbrev pub IsWithinSymbol : Order D → RiskManager D → Type 0
  IsWithinSymbol n m =
      let key = normalize_symbol n.symbol in
      (key ≡ [])
      ⊎ (m.symbol_limit_states key ≡ none)
      ⊎ ((s : SymbolLimitState D) × (m.symbol_limit_states key ≡ some s)
          × (let lots = if n.side == side_buy then n.quantity_lots else neg_ℤ n.quantity_lots in
              IsWithin s.limit.max_net_position (s.net_position_lots +ℤ lots)
              × IsWithin s.limit.max_gross_position (s.net_position_lots +ℤ lots)))

  pub record IsAllowed (n : Order D) (m : RiskManager D) (proposed : ℤ) : Type 0 where
    pub switch_off : m.kill_switch_active ≡ false
    pub acceptable : IsAcceptable n
    pub value : gt (fabs (mul n.price n.quantity)) m.limits.max_order_value ≡ false
    pub symbol_limits : IsWithinSymbol n m
    pub unreserved : m.reservations n.order_id ≡ none
    pub sum : proposed ≡ m.committed_exposure_units +ℤ signed_notional_units n
    pub not_above : (signed_notional_units n ≤ℤ pos 0) ⊎ (proposed ≤ℤ int64_max)
    pub not_below : (pos 0 ≤ℤ signed_notional_units n) ⊎ (int64_min ≤ℤ proposed)
    pub exposure :
        gt
          (div (fabs (of_int proposed)) (of_int (pos 1_000_000_000_000)))
          m.limits.max_position_exposure
        ≡ false

  within_position_iff :
      (limit : D) (lots : ℤ) → (within_position limit lots ≡ true) ↔ IsWithin limit lots
  within_position_iff limit lots = (
    λ h. elim (Bool-cases (gt limit nought)) [
      | inr off ↦ inl off
      | inl on ↦ inr (ground (arith, h, on), ground (arith, h, on))
    ],
    λ h. ground (arith, h),
  )

  -- The two tests of a symbol that has limits.
  both_iff :
      (s : SymbolLimitState D) (lots : ℤ)
      → ((within_position s.limit.max_net_position lots
            && within_position s.limit.max_gross_position lots)
          ≡ true)
        ↔ (IsWithin s.limit.max_net_position lots × IsWithin s.limit.max_gross_position lots)
  both_iff s lots =
      let net = within_position_iff s.limit.max_net_position lots in
      let gross = within_position_iff s.limit.max_gross_position lots in
      (
        λ h.
            let a : within_position s.limit.max_net_position lots ≡ true = ground (arith, h) in
            let b : within_position s.limit.max_gross_position lots ≡ true = ground (arith, h) in
            (net.0 a, gross.0 b),
        λ h. rw (net.1 h.0, gross.1 h.1) refl,
      )

  within_symbol_limits-IsWithinSymbol :
      (n : Order D) (m : RiskManager D) → within_symbol_limits n m ≡ true → IsWithinSymbol n m
  unfolding within_symbol_limits
  within_symbol_limits-IsWithinSymbol n m h = elim (List-cases (normalize_symbol n.symbol)) [
    | inl empty ↦ inl empty
    | inr (c, cs, key) ↦ elim (Option-cases (m.symbol_limit_states (c ∷ cs))) [
      | inl unknown ↦ inr (inl (rw key unknown))
      | inr (s, found) ↦ inr (
          inr (
            s,
            rw key found,
            (both_iff s _).0 (sym (rw (within_symbol_limits, key, found) refl) ∙ h),
          ))
    ]
  ]

  within_symbol_limits_of :
      (n : Order D) (m : RiskManager D) → IsWithinSymbol n m → within_symbol_limits n m ≡ true
  unfolding within_symbol_limits
  within_symbol_limits_of n m (inl empty) = rw (within_symbol_limits, empty) refl
  within_symbol_limits_of n m (inr rest) = elim (List-cases (normalize_symbol n.symbol)) [
    | inl empty ↦ rw (within_symbol_limits, empty) refl
    | inr (c, cs, key) ↦ elim rest [
      | inl unknown ↦
          let none_there : m.symbol_limit_states (c ∷ cs) ≡ none = rw (← key) unknown in
          rw (within_symbol_limits, key, none_there) refl
      | inr (s, found, within) ↦
          let there : m.symbol_limit_states (c ∷ cs) ≡ some s = rw (← key) found in
          rw (within_symbol_limits, key, there) ((both_iff s _).1 within)
    ]
  ]

  -- `check_order` lets an order through, with its notional added to the committed exposure and its
  -- lots reserved under its id, exactly if the kill switch is off, the normalised order is
  -- acceptable, its value, the position that it leads to and the exposure that it leads to are each
  -- within their limits, its id has no reservation and the sum of the notionals is in range.
  pub check_order_iff :
      (order : Order D) (m : RiskManager D) (proposed : ℤ)
      → (check_order order m ≡ (true, reserved (normalize_order_scalars order) proposed m))
        ↔ IsAllowed (normalize_order_scalars order) m proposed
  check_order_iff order m proposed =
      let n = normalize_order_scalars order in
      let sums = try_add_units_iff m.committed_exposure_units (signed_notional_units n) proposed in
      (
        λ passed.
            let a = (check_order_admitted order m proposed).0 passed in
            let (sum, not_above, not_below) = sums.0 a.sum in
            record {
              switch_off = a.switch_off;
              acceptable = (is_valid_order_iff n).0 a.acceptable;
              value = a.value;
              symbol_limits = within_symbol_limits-IsWithinSymbol n m a.symbol_limits;
              unreserved = a.unreserved;
              sum = sum;
              not_above = not_above;
              not_below = not_below;
              exposure = a.exposure;
            },
        λ a. (check_order_admitted order m proposed).1 (record {
          switch_off = a.switch_off;
          acceptable = (is_valid_order_iff n).1 a.acceptable;
          value = a.value;
          symbol_limits = within_symbol_limits_of n m a.symbol_limits;
          unreserved = a.unreserved;
          sum = sums.1 (a.sum, a.not_above, a.not_below);
          exposure = a.exposure;
        }),
      )
