-- ===== src/Risk/Examples.antt =====
-- The theorems on the risk manager, applied to small orders over whole-number floats.
use axiotick.Common.{
  ℕ, ◌≡◌, ◌↔◌, refl, true, false, none, List, [], ◌∷◌, ℤ, pos, negsuc, neg_ℤ, ◌+ℤ◌, ◌-ℤ◌, ◌*ℤ◌,
  arith,
}
use axiotick.Core.Float.Whole.{whole_float, whole_float-IsExtended}
use axiotick.Core.Order.{Order, side_sell, order_type_limit, tif_gtc}
use axiotick.Core.FixedPoint.{
  normalize_order_scalars, signed_notional_units, to_notional_units, to_quantity_lots, round_to_i64,
}
use axiotick.Core.Validator.{is_valid_order}
use axiotick.Risk.{RiskManager, RiskLimits, new_risk_manager, try_add_units, normalize_symbol}
use axiotick.Risk.Positions.{position_at, update_position_on_fill}
use axiotick.Risk.NetLots.{update_position_on_fill-net_lots}
use axiotick.Risk.Reservations.{check_order, on_cancel, within_symbol_limits}
use axiotick.Risk.Checks.{reserved, check_order_refused}
use axiotick.Risk.Admission.{IsAllowed, check_order_iff}
use axiotick.Risk.Accounting.{check_order-on_cancel}
use axiotick.Risk.History.{Call, checks, fills, rolls, run, answers, AllRefused, run-kill_switch}
use axiotick.Risk.Books.{IsBooked}
use axiotick.Risk.Books.Steps.{run-IsBooked}

-- Limits on one symbol, "ab".
abbrev limits : RiskLimits ℤ
limits = record {
  max_order_value = pos 1000;
  max_position_exposure = pos 5;
  max_daily_loss = pos 100;
  symbol_limits =
      record { symbol = 97 ∷ 98 ∷ []; max_net_position = pos 1; max_gross_position = pos 1 } ∷ [];
}

abbrev start : RiskManager ℤ
start = new_risk_manager limits

abbrev stopped : RiskManager ℤ
stopped = record start { kill_switch_active = true }

-- Sells 5 lots of "A-B" at 40 ticks.
abbrev seller : Order ℤ
seller = record {
  order_id = 7;
  client_id = 1;
  timestamp_ns = 0;
  price = pos 40;
  quantity = pos 5;
  price_ticks = pos 40;
  quantity_lots = pos 5;
  symbol = 65 ∷ 45 ∷ 66 ∷ 0 ∷ [];
  side = side_sell;
  type = order_type_limit;
  tif = tif_gtc;
}

check_order_iff_example :
    (check_order seller start
      ≡ (true, reserved (normalize_order_scalars seller) (negsuc 199) start))
    ↔ IsAllowed (normalize_order_scalars seller) start (negsuc 199)
check_order_iff_example = check_order_iff seller start (negsuc 199)

seller-refused : (check_order seller stopped).0 ≡ false
unfolding check_order
seller-refused = refl

check_order_refused_example : (check_order seller stopped).1 ≡ stopped
check_order_refused_example = check_order_refused seller stopped seller-refused

seller-passed : (check_order seller start).0 ≡ true
unfolding check_order is_valid_order normalize_order_scalars ◌*ℤ◌ within_symbol_limits
    normalize_symbol to_quantity_lots round_to_i64 ◌+ℤ◌ try_add_units signed_notional_units
    to_notional_units ◌-ℤ◌
seller-passed = refl

check_order-on_cancel_example :
    ((on_cancel seller (check_order seller start).1).committed_exposure_units ≡ pos 0)
    × ((j : ℕ) → (on_cancel seller (check_order seller start).1).reservations j ≡ none)
check_order-on_cancel_example =
    check_order-on_cancel seller start (omega arith, omega arith) seller-passed

-- A fill and a new day between two orders.
abbrev calls : List (Call ℤ)
calls = checks seller ∷ fills seller ∷ rolls 86_400_000_000_000 ∷ checks seller ∷ []

run-kill_switch_example :
    ((run stopped calls).kill_switch_active ≡ true) × AllRefused (answers stopped calls)
run-kill_switch_example = run-kill_switch calls stopped refl (refl, (refl, (refl, (refl, tt))))

run-IsBooked_example : IsBooked (run start calls)
run-IsBooked_example = run-IsBooked whole_float-IsExtended limits calls

update_position_on_fill-net_lots_example :
    (position_at
      (65 ∷ [])
      (update_position_on_fill (65 ∷ []) side_sell (pos 40) (pos 5) start)).net_lots
    ≡ (position_at (65 ∷ []) start).net_lots +ℤ neg_ℤ (pos 5)
update_position_on_fill-net_lots_example =
    update_position_on_fill-net_lots (65 ∷ []) side_sell (pos 40) (pos 5) start (omega arith) refl
      refl
