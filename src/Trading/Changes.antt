-- ===== src/Trading/Changes.antt =====
-- `cancel_order`, `cancel_order_partial` and `modify_order` of
-- backend/modules/trading/src/order_manager.cpp.
use axiotick.Common.{
  ℕ, Bool, true, false, not, if◌then◌else◌, none, some, ℤ, pos, ltb_ℤ, leb_ℤ, max_ℤ, ◌-ℤ◌, find,
  put, remove,
}
use axiotick.Core.Float.{Float}
use axiotick.Core.Order.{Order}
use axiotick.Core.FixedPoint.{
  normalize_order_scalars, from_quantity_lots, to_quantity_lots, to_price_ticks,
}
use axiotick.Core.Validator.{is_valid_order}
use axiotick.Engine.OrderBook.{Capacity}
use axiotick.Engine.OrderBook.Resting as Book
use axiotick.Risk.Reservations.{check_order, on_cancel}
use axiotick.Persist.Event.{order_canceled, order_replaced}
use axiotick.Trading.{
  resting, partially_filled, canceled, OrderState, OrderManager, order_event, Clocks, now, read,
  emit_event, upsert_state,
}

module _ {D : Type 0} ⦃f : Float D⦄ (k : Capacity) (clocks : Clocks) where
  abbrev pub canceled_state : ℕ → OrderState D → OrderState D
  canceled_state time s = record s {
    status = canceled;
    order = record (s.order) { quantity_lots = pos 0; quantity = f.nought };
    remaining_lots = pos 0;
    updated_at_ns = time;
  }

  -- What a cancel does once the book has let the order go.
  unfoldable pub retire : ℕ → OrderState D → OrderManager D → OrderManager D
  retire id s m =
      let state = canceled_state (now clocks m) s in
      emit_event clocks
        (record (order_event order_canceled (now clocks m) state.order state.initial_lots (pos 0) 0
          false state.related_signal_id state.origin_tick_id) { order_id = id })
        (upsert_state state (record (read clocks m) {
          risk_manager = on_cancel s.order m.risk_manager;
          active_orders = remove id m.active_orders;
          trace = none;
        }))

  unfoldable pub cancel_order : ℕ → OrderManager D → Bool × OrderManager D
  unfolding retire
  cancel_order id m = elim (find id m.active_orders) [
    | none ↦ (false, m)
    | some s ↦
        let (gone, book) = Book.cancel_order k id m.order_book in
        let m' = record m { order_book = book } in
        if gone then (true, retire id s m') else (false, m')
  ]

  -- Writes a changed state of an order that goes on resting.
  unfoldable pub replace_state : ℕ → OrderState D → OrderManager D → OrderManager D
  replace_state id s m =
      emit_event clocks
        (record (order_event order_replaced s.updated_at_ns s.order s.initial_lots s.remaining_lots
          0 true s.related_signal_id s.origin_tick_id) { order_id = id })
        (upsert_state s (record m { trace = none }))

  abbrev pub reduced_state : Order D → ℕ → OrderState D → OrderState D
  reduced_state updated time s =
      let filled_lots = s.initial_lots -ℤ updated.quantity_lots in
      record s {
        order = updated;
        remaining_lots = updated.quantity_lots;
        filled_lots = filled_lots;
        status = if ltb_ℤ (pos 0) filled_lots then partially_filled else resting;
        updated_at_ns = time;
      }

  -- What a partial cancel does where lots are left.
  unfoldable pub reduce : ℕ → Order D → OrderState D → OrderManager D → OrderManager D
  unfolding replace_state
  reduce id updated s m =
      let state = reduced_state updated (now clocks m) s in
      let released = max_ℤ (pos 0) (s.remaining_lots -ℤ state.remaining_lots) in
      let cancels = record updated {
        quantity_lots = released;
        quantity = from_quantity_lots released;
      } in
      replace_state id state (record (read clocks m) {
        active_orders = put id state m.active_orders;
        risk_manager =
            if ltb_ℤ (pos 0) released then on_cancel cancels m.risk_manager else m.risk_manager;
      })

  -- The part of `cancel_order_partial` behind the search.
  unfoldable pub cancel_lots : ℕ → ℤ → OrderState D → OrderManager D → Bool × OrderManager D
  unfolding retire reduce
  cancel_lots id reduce_lots s m =
      let (answer, book) = Book.cancel_order_partial k id reduce_lots m.order_book in
      let m' = record m { order_book = book } in
      elim answer [
        | none ↦ (false, m')
        | some updated ↦
            if leb_ℤ updated.quantity_lots (pos 0)
            then (true, retire id s m')
            else (true, reduce id updated s m')
      ]

  unfoldable pub cancel_order_partial : ℕ → D → OrderManager D → Bool × OrderManager D
  unfolding cancel_lots
  cancel_order_partial id quantity m =
      let reduce_lots = to_quantity_lots quantity in
      if leb_ℤ reduce_lots (pos 0) then (false, m) else elim (find id m.active_orders) [
        | none ↦ (false, m)
        | some s ↦ cancel_lots id reduce_lots s m
      ]

  abbrev pub replacement_of : D → D → OrderState D → Order D
  replacement_of new_price new_quantity s = normalize_order_scalars (record (s.order) {
    price = new_price;
    quantity = new_quantity;
    price_ticks = to_price_ticks new_price;
    quantity_lots = to_quantity_lots new_quantity;
  })

  abbrev pub replaced_state : Order D → ℕ → OrderState D → OrderState D
  replaced_state replacement time s = record s {
    order = replacement;
    initial_lots = replacement.quantity_lots;
    remaining_lots = replacement.quantity_lots;
    filled_lots = pos 0;
    status = resting;
    updated_at_ns = time;
  }

  -- The part of `modify_order` behind the book's answer: the reservation is rebuilt, or the old order
  -- is put back.
  unfoldable pub rebook : ℕ → Order D → OrderState D → OrderManager D → Bool × OrderManager D
  unfolding replace_state
  rebook id replacement s m =
      let freed = on_cancel s.order m.risk_manager in
      let (passed, risk) = check_order replacement freed in
      let state = replaced_state replacement (now clocks m) s in
      if passed
      then (
        true,
        replace_state id state (record (read clocks m) {
          risk_manager = risk;
          active_orders = put id state m.active_orders;
        }),
      )
      else (
        false,
        record m {
          order_book = (Book.modify_order k id s.order m.order_book).1;
          risk_manager = (check_order s.order risk).1;
        },
      )

  unfoldable pub modify_order : ℕ → D → D → OrderManager D → Bool × OrderManager D
  unfolding rebook
  modify_order id new_price new_quantity m = elim (find id m.active_orders) [
    | none ↦ (false, m)
    | some s ↦
        let replacement = replacement_of new_price new_quantity s in
        let (replaced, book) = Book.modify_order k id replacement m.order_book in
        let m' = record m { order_book = book } in
        if not (is_valid_order replacement)
        then (false, m)
        else if replaced
        then rebook id replacement s m'
        else (false, m')
  ]
