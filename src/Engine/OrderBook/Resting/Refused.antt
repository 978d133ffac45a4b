-- ===== src/Engine/OrderBook/Resting/Refused.antt =====
-- The error paths of engine/order_book.cpp on resting orders.
use axiotick.Common.{ℕ, ◌≡◌, false, none, arith}
use axiotick.Core.Float.{Float}
use axiotick.Core.Order.{Order}
use axiotick.Engine.OrderBook.{Capacity, OrderBook, remove_node}
use axiotick.Engine.OrderBook.Resting.{add_normalized, add_order, cancel_order, get_order}

-- The levels, the locators and the trade counter of two books are the same.
pub record IsSameBook {D : Type 0} (b b' : OrderBook D) : Type 0 where
  pub bids : b'.bids ≡ b.bids
  pub asks : b'.asks ≡ b.asks
  pub order_lookup : b'.order_lookup ≡ b.order_lookup
  pub next_trade_id : b'.next_trade_id ≡ b.next_trade_id

module _ {D : Type 0} ⦃f : Float D⦄ (k : Capacity) where
  -- An order that `add_order` refuses, for its fields, for an id that rests already or for want of a
  -- node or a level, leaves the levels, the locators and the trade counter as they are.
  pub add_order_refused :
      (order : Order D) (b : OrderBook D)
      → (add_order k order b).0 ≡ false
      → IsSameBook b (add_order k order b).1
  unfolding add_order add_normalized
  add_order_refused order b h = record {
    bids = ground arith;
    asks = ground arith;
    order_lookup = ground arith;
    next_trade_id = ground arith;
  }

  -- An id that has been cancelled is not found any more, whether it rested or not.
  pub get_order-cancel_order :
      (id : ℕ) (b : OrderBook D) → get_order k id (cancel_order k id b).1 ≡ none
  unfolding get_order cancel_order remove_node
  get_order-cancel_order id b = ground arith
