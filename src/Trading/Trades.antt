-- ===== src/Trading/Trades.antt =====
-- How `submit_order` of backend/modules/trading/src/order_manager.cpp books the trades of an order.
use axiotick.Common.{
  ℕ, false, if◌then◌else◌, none, some, List, [], ◌∷◌, ℤ, pos, ◌==ℤ◌, max_ℤ, ◌+ℤ◌, ◌-ℤ◌, find, put,
  remove,
}
use axiotick.Core.Float.{Float}
use axiotick.Core.Order.{Order, Trade}
use axiotick.Core.FixedPoint.{from_quantity_lots}
use axiotick.Risk.Reservations.{on_fill}
use axiotick.Persist.Event.{trade_executed}
use axiotick.Trading.{
  partially_filled, filled, OrderState, OrderManager, order_event, Clocks, now, read, emit_event,
  upsert_state,
}

-- The states of an order whose trades are being booked: the manager, the sum of the trades'
-- quantities, and the two counts of the taker's lots.
pub record Taking (D : Type 0) : Type 0 where
  pub manager : OrderManager D
  pub filled_quantity : D
  pub filled_lots : ℤ
  pub remaining_lots : ℤ

-- The order with the price and the size of a trade.
abbrev pub fill_of : {D : Type 0} → Order D → Trade D → Order D
fill_of o trade = record o {
  price = trade.price;
  quantity = trade.quantity;
  price_ticks = trade.price_ticks;
  quantity_lots = trade.quantity_lots;
}

module _ {D : Type 0} ⦃f : Float D⦄ (clocks : Clocks) where
  -- The maker's state after a trade.
  abbrev pub after_trade : Trade D → ℕ → OrderState D → OrderState D
  after_trade trade time s =
      let left = max_ℤ (pos 0) (s.remaining_lots -ℤ trade.quantity_lots) in
      record s {
        filled_lots = s.filled_lots +ℤ trade.quantity_lots;
        remaining_lots = left;
        order = record (s.order) { quantity_lots = left; quantity = from_quantity_lots left };
        status = if left ==ℤ pos 0 then filled else partially_filled;
        updated_at_ns = time;
      }

  -- A filled maker leaves the active orders only after it has entered the history.
  unfoldable pub apply_trade_to_maker : ℕ → Trade D → OrderManager D → OrderManager D
  apply_trade_to_maker id trade m = elim (find id m.active_orders) [
    | none ↦ m
    | some s ↦
        let maker = after_trade trade (now clocks m) s in
        let booked = upsert_state maker (record (read clocks m) {
          risk_manager = on_fill (fill_of s.order trade) m.risk_manager;
          active_orders = put id maker m.active_orders;
        }) in
        if maker.remaining_lots ==ℤ pos 0
        then record booked { active_orders = remove id booked.active_orders }
        else booked
  ]

  -- The body of the loop over the trades.
  unfoldable pub apply_trade : Order D → ℕ → ℕ → Trade D → Taking D → Taking D
  apply_trade n signal tick trade t =
      let m = t.manager in
      let taker_fill = fill_of n trade in
      let executed =
        emit_event clocks
          (record (order_event trade_executed trade.timestamp_ns taker_fill trade.quantity_lots
            (pos 0) 0 false signal tick) {
              order_id = trade.taker_order_id;
              related_order_id = trade.maker_order_id;
            })
          (record m { risk_manager = on_fill taker_fill m.risk_manager }) in
      record {
        manager = apply_trade_to_maker trade.maker_order_id trade executed;
        filled_quantity = f.add t.filled_quantity trade.quantity;
        filled_lots = t.filled_lots +ℤ trade.quantity_lots;
        remaining_lots = max_ℤ (pos 0) (t.remaining_lots -ℤ trade.quantity_lots);
      }

  unfoldable pub apply_trades : Order D → ℕ → ℕ → List (Trade D) → Taking D → Taking D
  unfolding apply_trade
  apply_trades n signal tick [] t = t
  apply_trades n signal tick (trade ∷ trades) t =
      apply_trades n signal tick trades (apply_trade n signal tick trade t)
