-- ===== src/Risk/Reservations.antt =====
-- `check_order`, `on_fill` and `on_cancel` of backend/modules/risk/src/risk_manager.cpp.
use axiotick.Common.{
  ℕ, Bool, true, false, not, ◌||◌, ◌&&◌, if◌then◌else◌, ◌==◌, none, some, update, List, [], ◌∷◌, ℤ,
  pos, leb_ℤ, ltb_ℤ, ◌==ℤ◌, min_ℤ, abs_ℤ, neg_ℤ, ◌+ℤ◌, ◌-ℤ◌, int64_max,
}
use axiotick.Core.Float.{Float}
use axiotick.Core.Order.{Order, side_sell}
use axiotick.Core.FixedPoint.{
  normalize_order_scalars, to_quantity_lots, to_notional_units, signed_notional_units,
  from_price_ticks,
}
use axiotick.Core.Validator.{is_valid_order}
use axiotick.Risk.{
  RiskManager, Reservation, normalize_symbol, update_symbol, wrap_int64, try_add_units,
  signed_position_lots,
}
use axiotick.Risk.Positions.{update_position_on_fill, check_daily_loss}

abbrev pub notional_scale : ℤ
notional_scale = pos 1_000_000_000_000

-- The units that a release of lots takes off the committed exposure.
abbrev pub release_units : {D : Type 0} → Float D → Reservation → ℤ → ℤ
release_units f r lots =
    let units = to_notional_units f r.reserved_price_ticks lots in
    if r.side == side_sell then neg_ℤ units else units

module _ {D : Type 0} ⦃f : Float D⦄ where
  open f use {nought, fabs, gt, mul, div, of_int}

  -- One of the two limits of a symbol, which a value of at most zero switches off.
  abbrev pub within_position : D → ℤ → Bool
  within_position limit proposed_net_lots =
      let lots = to_quantity_lots limit in
      not (gt limit nought)
      || not ((lots ==ℤ int64_max) || ltb_ℤ (abs_ℤ lots) (abs_ℤ proposed_net_lots))

  unfoldable pub within_symbol_limits : Order D → RiskManager D → Bool
  within_symbol_limits n m = elim (normalize_symbol n.symbol) [
    | [] ↦ true
    | c ∷ cs ↦ elim (m.symbol_limit_states (c ∷ cs)) [
      | none ↦ true
      | some s ↦
          within_position s.limit.max_net_position (s.net_position_lots +ℤ signed_position_lots n)
          && within_position s.limit.max_gross_position
              (s.net_position_lots +ℤ signed_position_lots n)
    ]
  ]

  abbrev pub exceeds_value : Order D → RiskManager D → Bool
  exceeds_value n m = gt (fabs (mul n.price n.quantity)) m.limits.max_order_value

  abbrev pub exceeds_exposure : ℤ → RiskManager D → Bool
  exceeds_exposure proposed m =
      gt (div (fabs (of_int proposed)) (of_int notional_scale)) m.limits.max_position_exposure

  abbrev pub reservation_of : Order D → Reservation
  reservation_of n = record {
    side = n.side;
    reserved_price_ticks = n.price_ticks;
    remaining_lots = n.quantity_lots;
    symbol = normalize_symbol n.symbol;
  }

  -- The part of `check_order` that holds the lock.
  unfoldable pub reserve : Order D → RiskManager D → Bool × RiskManager D
  reserve n m = elim (m.reservations n.order_id) [
    | some _ ↦ (false, m)
    | none ↦ elim (try_add_units m.committed_exposure_units (signed_notional_units n)) [
      | none ↦ (false, m)
      | some proposed ↦ if exceeds_exposure proposed m then (false, m) else (
        true,
        record m {
          committed_exposure_units = proposed;
          reservations = update m.reservations n.order_id (some (reservation_of n));
        },
      )
    ]
  ]

  unfoldable pub check_order : Order D → RiskManager D → Bool × RiskManager D
  unfolding reserve
  check_order order m =
      let n = normalize_order_scalars order in
      if m.kill_switch_active
      then (false, m)
      else if not (is_valid_order n)
      then (false, m)
      else if exceeds_value n m
      then (false, m)
      else if not (within_symbol_limits n m)
      then (false, m)
      else reserve n m

  -- What `on_fill` does with the reservation of the order, if it has one.
  unfoldable pub release_fill : Order D → RiskManager D → RiskManager D
  release_fill n m = elim (m.reservations n.order_id) [
    | none ↦ m
    | some r ↦
        let release_lots = min_ℤ n.quantity_lots r.remaining_lots in
        let releases = ltb_ℤ (pos 0) release_lots in
        let left : ℤ = if releases then r.remaining_lots -ℤ release_lots else r.remaining_lots in
        record m {
          committed_exposure_units =
              if releases
              then wrap_int64 (m.committed_exposure_units -ℤ release_units f r release_lots)
              else m.committed_exposure_units;
          reservations =
              update m.reservations n.order_id
                (if leb_ℤ left (pos 0) then none else some (record r { remaining_lots = left }));
        }
  ]

  abbrev pub add_net_lots : List ℕ → ℤ → RiskManager D → RiskManager D
  add_net_lots key delta_lots m = elim (m.symbol_limit_states key) [
    | none ↦ m
    | some s ↦ record m {
      symbol_limit_states =
          update_symbol m.symbol_limit_states key
            (record s { net_position_lots = wrap_int64 (s.net_position_lots +ℤ delta_lots) });
    }
  ]

  -- What `on_fill` does with the limits and the position of the symbol under a key.
  unfoldable pub book_fill : List ℕ → Order D → RiskManager D → RiskManager D
  book_fill [] n m = m
  book_fill (c ∷ cs) n m = check_daily_loss (
      update_position_on_fill (c ∷ cs) n.side (from_price_ticks n.price_ticks) n.quantity_lots
        (add_net_lots (c ∷ cs) (signed_position_lots n) m))

  abbrev pub add_filled : Order D → RiskManager D → RiskManager D
  add_filled n m = record m {
    filled_exposure_units = wrap_int64 (m.filled_exposure_units +ℤ signed_notional_units n);
  }

  unfoldable pub on_fill : Order D → RiskManager D → RiskManager D
  unfolding release_fill book_fill
  on_fill order m =
      let n = normalize_order_scalars order in
      if is_valid_order n
      then book_fill (normalize_symbol n.symbol) n (add_filled n (release_fill n m))
      else m

  unfoldable pub release_cancel : Order D → RiskManager D → RiskManager D
  release_cancel n m = elim (m.reservations n.order_id) [
    | none ↦ m
    | some r ↦
        let release_lots = min_ℤ n.quantity_lots r.remaining_lots in
        let left = r.remaining_lots -ℤ release_lots in
        if leb_ℤ release_lots (pos 0) then m else record m {
          committed_exposure_units =
              wrap_int64 (m.committed_exposure_units -ℤ release_units f r release_lots);
          reservations =
              update m.reservations n.order_id
                (if leb_ℤ left (pos 0) then none else some (record r { remaining_lots = left }));
        }
  ]

  unfoldable pub on_cancel : Order D → RiskManager D → RiskManager D
  unfolding release_cancel
  on_cancel order m =
      let n = normalize_order_scalars order in if is_valid_order n then release_cancel n m else m

  unfoldable pub committed_exposure : RiskManager D → D
  committed_exposure m = div (of_int m.committed_exposure_units) (of_int notional_scale)

  unfoldable pub filled_exposure : RiskManager D → D
  filled_exposure m = div (of_int m.filled_exposure_units) (of_int notional_scale)
