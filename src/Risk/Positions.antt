-- ===== src/Risk/Positions.antt =====
-- Positions, profit and loss, and the kill switch of backend/modules/risk/src/risk_manager.cpp.
use axiotick.Common.{
  ℕ, ◌/◌, Bool, true, false, not, ◌||◌, ◌&&◌, if◌then◌else◌, ◌==◌, none, some, List, [], ◌∷◌, ℤ,
  pos, negsuc, leb_ℤ, ltb_ℤ, ◌==ℤ◌, min_ℤ, abs_ℤ, neg_ℤ, ◌+ℤ◌,
}
use axiotick.Core.Float.{Float}
use axiotick.Core.Order.{side_buy}
use axiotick.Core.FixedPoint.{from_quantity_lots}
use axiotick.Risk.{RiskManager, PositionState, normalize_symbol, update_symbol}

module _ {D : Type 0} where
  unfoldable pub trigger_kill_switch : RiskManager D → RiskManager D
  trigger_kill_switch m = if m.kill_switch_active then m else record m { kill_switch_active = true }

  unfoldable pub reset_kill_switch : RiskManager D → RiskManager D
  reset_kill_switch m = if m.kill_switch_active then record m { kill_switch_active = false } else m

-- 86400 * 10 ^ 9 nanoseconds.
abbrev pub ns_per_day : ℕ
ns_per_day = 86_400_000_000_000

-- Equality of two Boolean values.
abbrev same_sign : Bool → Bool → Bool
same_sign a b = if a then b else not b

module _ {D : Type 0} ⦃f : Float D⦄ where
  open f use {nought, is_finite, fabs, eq, gt, le, add, sub, mul, neg, div, of_int}

  unfoldable pub daily_pnl : RiskManager D → D
  daily_pnl m = sub (add m.realized_pnl_total m.unrealized_pnl_total) m.day_baseline_pnl

  unfoldable pub check_daily_loss : RiskManager D → RiskManager D
  unfolding trigger_kill_switch
  check_daily_loss m =
      if le m.limits.max_daily_loss nought
      then m
      else if m.kill_switch_active
      then m
      else if le (daily_pnl m) (neg m.limits.max_daily_loss)
      then trigger_kill_switch m
      else m

  -- Writes a position under its key, with its profit brought up to date, and moves the total.
  unfoldable pub refresh_unrealized : List ℕ → PositionState D → RiskManager D → RiskManager D
  refresh_unrealized key p m =
      let unrealized : D =
        if not (p.net_lots ==ℤ pos 0) && gt p.last_mark_price nought
        then mul (sub p.last_mark_price p.avg_price) (from_quantity_lots p.net_lots)
        else nought in
      record m {
        positions = update_symbol m.positions key (record p { unrealized_pnl = unrealized });
        unrealized_pnl_total = add m.unrealized_pnl_total (sub unrealized p.unrealized_pnl);
      }

  -- A fill on the side of the position, or on none.
  unfoldable pub extend_position : D → ℤ → ℤ → PositionState D → PositionState D
  extend_position price lots delta_lots p =
      let fill_qty = from_quantity_lots lots in
      let old_qty = fabs (from_quantity_lots p.net_lots) in
      let new_qty = add old_qty fill_qty in
      record p {
        avg_price =
            if gt new_qty nought
            then div (add (mul p.avg_price old_qty) (mul price fill_qty)) new_qty
            else p.avg_price;
        net_lots = p.net_lots +ℤ delta_lots;
      }

  -- A fill against the position, and the profit that it realizes.
  unfoldable pub reduce_position : D → ℤ → ℤ → PositionState D → D × PositionState D
  reduce_position price lots delta_lots p =
      let closed_lots = min_ℤ (abs_ℤ p.net_lots) lots in
      let closed_qty = from_quantity_lots closed_lots in
      let was_long = ltb_ℤ (pos 0) p.net_lots in
      let direction : D = of_int (if was_long then pos 1 else negsuc 0) in
      let net_lots = p.net_lots +ℤ delta_lots in
      (
        mul (mul (sub price p.avg_price) closed_qty) direction,
        record p {
          net_lots = net_lots;
          avg_price =
              if net_lots ==ℤ pos 0
              then nought
              else if same_sign (ltb_ℤ (pos 0) net_lots) was_long
              then p.avg_price
              else price;
        },
      )

  -- `positions_[symbol_key]`, which makes a position where there is none.
  abbrev pub position_at : List ℕ → RiskManager D → PositionState D
  position_at key m = elim (m.positions key) [
    | some p ↦ p
    | none ↦ record {
      net_lots = pos 0;
      avg_price = nought;
      last_mark_price = nought;
      unrealized_pnl = nought;
    }
  ]

  unfoldable pub update_position_on_fill : List ℕ → ℕ → D → ℤ → RiskManager D → RiskManager D
  unfolding extend_position reduce_position
  update_position_on_fill key side price lots m =
      let p = position_at key m in
      let delta_lots : ℤ = if side == side_buy then lots else neg_ℤ lots in
      let (realized, reduced) = reduce_position price lots delta_lots p in
      let marked = λ (q : PositionState D). record q { last_mark_price = price } in
      if leb_ℤ lots (pos 0) || not (gt price nought) || not (is_finite price)
      then m
      else if (p.net_lots ==ℤ pos 0)
          || same_sign (ltb_ℤ (pos 0) p.net_lots) (ltb_ℤ (pos 0) delta_lots)
      then refresh_unrealized key (marked (extend_position price lots delta_lots p)) m
      else refresh_unrealized key (marked reduced)
          (record m { realized_pnl_total = add m.realized_pnl_total realized })

  -- The part of `mark_to_market` that holds the lock, under a key.
  unfoldable pub mark_position : List ℕ → D → RiskManager D → RiskManager D
  mark_position [] price m = m
  mark_position (c ∷ cs) price m = elim (m.positions (c ∷ cs)) [
    | none ↦ m
    | some p ↦
        check_daily_loss (refresh_unrealized (c ∷ cs) (record p { last_mark_price = price }) m)
  ]

  unfoldable pub mark_to_market : List ℕ → D → RiskManager D → RiskManager D
  unfolding mark_position
  mark_to_market symbol price m =
      if not (gt price nought) || not (is_finite price)
      then m
      else mark_position (normalize_symbol symbol) price m

  unfoldable pub maybe_roll_day : ℕ → RiskManager D → RiskManager D
  maybe_roll_day now_ns m =
      let day_index = now_ns / ns_per_day in
      if m.current_day_index == 0
      then record m { current_day_index = day_index }
      else if day_index == m.current_day_index
      then m
      else record m {
        current_day_index = day_index;
        day_baseline_pnl = add m.realized_pnl_total m.unrealized_pnl_total;
      }

  unfoldable pub net_position_for_symbol : List ℕ → RiskManager D → D
  net_position_for_symbol symbol m =
      let key = normalize_symbol symbol in
      elim (m.symbol_limit_states key) [
        | some s ↦ from_quantity_lots s.net_position_lots
        | none ↦ elim (m.positions key) [ none ↦ nought | some p ↦ from_quantity_lots p.net_lots ]
      ]
