-- ===== src/Engine/OrderBook/Round/Removed.antt =====
-- A round of engine/order_book.cpp that takes all the lots of the maker: its node goes, and its level
-- with it if the queue is empty then.
use axiotick.Common.{
  ℕ, ◌+◌, ◌≡◌, ◌≢◌, ◌∙◌, true, if◌then◌else◌, ◌==◌, none, some, List, [], ◌∷◌, ℤ, ◌≤ℤ◌, ◌-ℤ◌, min_ℤ,
  arith,
}
use axiotick.Core.Float.{Float}
use axiotick.Core.Order.{Order}
use axiotick.Engine.PriceLevels.{PriceLevelSet}
use axiotick.Engine.OrderBook.{Capacity, OrderBook, levels_for_side, remove_node}
use axiotick.Engine.OrderBook.Matching.{Matching, opposite, fill_maker}
use axiotick.Engine.OrderBook.PriceTime.{Resting, Level, set_lots}
use axiotick.Engine.OrderBook.Represents.{head_of, Chain, IsMaker, AllMakers, IsLevel, Holds}
use axiotick.Engine.OrderBook.Frame.{Frame}
use axiotick.Engine.OrderBook.Round.{
  fill_maker-slots, fill_maker-used, fill_maker-lookup, fill_maker-other, remove_node-slots,
  remove_node-used, remove_node-lookup, remove_node-other, remove_node-trade_id,
  fill_maker-trade_id,
}

module _ {D : Type 0} ⦃f : Float D⦄ (k : Capacity) (taker : Order D) (m : Matching D) (price : ℤ)
    (x : Resting D) (ms : List (Resting D)) (ls : List (Level D))
    (h : Holds k m.book (opposite taker.side) (record { price = price; queue = x ∷ ms } ∷ ls))
    (enough : x.order.quantity_lots ≤ℤ m.remaining_lots) where
  abbrev pub side : ℕ
  side = opposite taker.side

  abbrev pub set : PriceLevelSet
  set = levels_for_side side m.book

  abbrev pub booked : OrderBook D
  booked = (fill_maker k taker 0 x.index m).book

  abbrev pub after : OrderBook D
  after = remove_node k side 0 x.index x.order.order_id booked

  abbrev pub spent : Order D
  spent = set_lots x.order (x.order.quantity_lots -ℤ min_ℤ m.remaining_lots x.order.quantity_lots)

  pub level : IsLevel k m.book side (set.levels 0) (record { price = price; queue = x ∷ ms })
  level = h.levels.1

  pub maker : IsMaker k m.book side price x
  maker = level.makers.0

  pub front :
      m.book.order_nodes.slots x.index ≡ record { order = x.order; prev = none; next = head_of ms }
  front = level.chain.0

  pub min_lots : min_ℤ m.remaining_lots x.order.quantity_lots ≡ x.order.quantity_lots
  min_lots = ground arith

  pub front_booked :
      booked.order_nodes.slots x.index ≡ record { order = spent; prev = none; next = head_of ms }
  front_booked =
      fill_maker-slots k taker m 0 x.index x.order (head_of ms) front x.index ∙ ground arith

  pub used_booked : booked.order_nodes.used x.index ≡ true
  used_booked = fill_maker-used k taker m 0 x.index x.order (head_of ms) front x.index ∙ maker.used

  pub after-slots :
      (j : ℕ)
      → j ≢ x.index
      → after.order_nodes.slots j ≡ (elim (head_of ms) [
        | none ↦ m.book.order_nodes.slots j
        | some y ↦
            if y == j
            then record (m.book.order_nodes.slots j) { prev = none }
            else m.book.order_nodes.slots j
      ])
  after-slots j e = ground (
    arith,
    fill_maker-slots k taker m 0 x.index x.order (head_of ms) front j,
    remove_node-slots k booked side 0 x.index x.order.order_id spent (head_of ms) maker.below
        used_booked front_booked j,
  )

  pub after-used : (j : ℕ) → j ≢ x.index → after.order_nodes.used j ≡ m.book.order_nodes.used j
  after-used j e = ground (
    arith,
    fill_maker-used k taker m 0 x.index x.order (head_of ms) front j,
    remove_node-used k booked side 0 x.index x.order.order_id spent (head_of ms) maker.below
        used_booked front_booked j,
  )

  pub after-lookup : (j : ℕ) → j ≢ x.order.order_id → after.order_lookup j ≡ m.book.order_lookup j
  after-lookup j e = ground (
    arith,
    fill_maker-lookup k taker m 0 x.index x.order (head_of ms) front j,
    remove_node-lookup k booked side 0 x.index x.order.order_id spent (head_of ms) maker.below
        used_booked front_booked j,
  )

  pub after-other : levels_for_side (opposite side) after ≡ levels_for_side (opposite side) m.book
  after-other =
      remove_node-other k booked side 0 x.index x.order.order_id spent (head_of ms) maker.below
        used_booked front_booked
      ∙ fill_maker-other k taker m 0 x.index x.order (head_of ms) front

  pub after-trade_id : after.next_trade_id ≡ m.book.next_trade_id + 1
  after-trade_id =
      remove_node-trade_id k booked side 0 x.index x.order.order_id spent (head_of ms) maker.below
        used_booked front_booked
      ∙ fill_maker-trade_id k taker m 0 x.index x.order (head_of ms) front

  -- The next node belongs to the same level.
  next_owner :
      (j : ℕ)
      → head_of ms ≡ some j
      → let o = (m.book.order_nodes.slots j).order in (o.side ≡ side) × (o.price_ticks ≡ price)
  next_owner j e = owner ms level.chain.1 level.makers.1 e
    where
      owner :
          (ys : List (Resting D))
          → Chain m.book.order_nodes.slots (some x.index) ys
          → AllMakers k m.book side price ys
          → head_of ys ≡ some j
          → let o = (m.book.order_nodes.slots j).order in (o.side ≡ side) × (o.price_ticks ≡ price)
      owner [] c v e = cc
      owner (y ∷ ys) (c, _) (v, _) e = ground (arith, v.on_side, v.at_price)

  pub after-Frame : Frame m.book after side price
  after-Frame = record {
    slots = λ j a. ground (arith, after-slots j, next_owner j, maker.on_side, maker.at_price);
    used = λ j a. ground (arith, after-used j, maker.on_side, maker.at_price);
    lookup = λ id locator e a. ground (arith, after-lookup id, maker.located);
  }
