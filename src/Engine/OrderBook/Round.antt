-- ===== src/Engine/OrderBook/Round.antt =====
-- One round of the inner loop of `match_order` in engine/order_book.cpp, at the front of a queue.
pub mod Agree
pub mod Reduced
pub mod Removed
pub mod Outcome
pub mod Drop
pub mod Rest
use axiotick.Common.{
  ℕ, ◌+◌, ◌-◌, ◌≤◌, ◌<◌, ◌≡◌, ◌≢◌, refl, Bool, true, false, if◌then◌else◌, ◌==◌, Option, none, some,
  List, [], ◌∷◌, update, ℤ, ◌-ℤ◌, min_ℤ, ◌++◌, arith,
}
use axiotick.Core.Float.{Float}
use axiotick.Core.Order.{Order}
use axiotick.Engine.PoolAllocator.{deallocate, in_use, at}
use axiotick.Engine.PriceLevels.{PriceLevel, PriceLevelSet, erase_level}
use axiotick.Engine.OrderBook.{
  Capacity, OrderNode, OrderBook, levels_for_side, set_level, blank_node, remove_node, unlink_node,
  release_node,
}
use axiotick.Engine.OrderBook.Matching.{Matching, opposite, fill_maker}
use axiotick.Engine.OrderBook.PriceTime.{set_lots, fill_at, trades_of}

-- `remove_node` on a node that is in use and at the front of its list, field by field.
module _ {D : Type 0} ⦃f : Float D⦄ (k : Capacity) (b : OrderBook D) (side i n id : ℕ) (o : Order D)
    (next : Option ℕ) (below : n < k.order_nodes) (used : b.order_nodes.used n ≡ true)
    (front : b.order_nodes.slots n ≡ record { order = o; prev = none; next = next }) where
  abbrev pub after : OrderBook D
  after = remove_node k side i n id b

  abbrev pub unlinked : PriceLevel → PriceLevel
  unlinked level = record level {
    head = next;
    tail = elim next [ none ↦ none | some _ ↦ level.tail ];
    total_lots = level.total_lots -ℤ o.quantity_lots;
    order_count = level.order_count - 1;
  }

  abbrev pub kept : PriceLevelSet
  kept = let set = levels_for_side side b in set_level set i (unlinked (set.levels i))

  pub remove_node-slots :
      (j : ℕ)
      → after.order_nodes.slots j ≡ (
          if n == j then blank_node else elim next [
            | none ↦ b.order_nodes.slots j
            | some x ↦
                if x == j
                then record (b.order_nodes.slots j) { prev = none }
                else b.order_nodes.slots j
          ])
  unfolding remove_node deallocate in_use at
  remove_node-slots j = ground arith

  pub remove_node-used :
      (j : ℕ) → after.order_nodes.used j ≡ (if n == j then false else b.order_nodes.used j)
  unfolding remove_node deallocate in_use at
  remove_node-used j = ground arith

  pub remove_node-lookup :
      (j : ℕ) → after.order_lookup j ≡ (if id == j then none else b.order_lookup j)
  unfolding remove_node
  remove_node-lookup j = ground arith

  pub remove_node-levels : levels_for_side side after ≡ (
      if ((levels_for_side side b).levels i).order_count - 1 == 0 then erase_level kept i else kept)
  unfolding remove_node in_use at
  remove_node-levels = ground arith

  pub remove_node-other : levels_for_side (opposite side) after ≡ levels_for_side (opposite side) b
  unfolding remove_node
  remove_node-other = ground arith

  pub remove_node-trade_id : after.next_trade_id ≡ b.next_trade_id
  unfolding remove_node
  remove_node-trade_id = ground arith

-- `fill_maker` on a node, field by field.
module _ {D : Type 0} ⦃f : Float D⦄ (k : Capacity) (taker : Order D) (m : Matching D) (i n : ℕ)
    (o : Order D) (next : Option ℕ)
    (front : m.book.order_nodes.slots n ≡ record { order = o; prev = none; next = next }) where
  abbrev pub filled : Matching D
  filled = fill_maker k taker i n m

  abbrev pub lots : ℤ
  lots = min_ℤ m.remaining_lots o.quantity_lots

  pub fill_maker-slots :
      (j : ℕ)
      → filled.book.order_nodes.slots j ≡ (
          if n == j
          then record { order = set_lots o (o.quantity_lots -ℤ lots); prev = none; next = next }
          else m.book.order_nodes.slots j)
  unfolding fill_maker at
  fill_maker-slots j = ground arith

  pub fill_maker-used : (j : ℕ) → filled.book.order_nodes.used j ≡ m.book.order_nodes.used j
  unfolding fill_maker
  fill_maker-used j = ground arith

  pub fill_maker-lookup : (j : ℕ) → filled.book.order_lookup j ≡ m.book.order_lookup j
  unfolding fill_maker
  fill_maker-lookup j = ground arith

  pub fill_maker-levels :
      let set = levels_for_side (opposite taker.side) m.book in
      let level = set.levels i in
      levels_for_side (opposite taker.side) filled.book
      ≡ set_level set i (record level { total_lots = level.total_lots -ℤ lots })
  unfolding fill_maker at
  fill_maker-levels = ground arith

  pub fill_maker-other :
      levels_for_side (opposite (opposite taker.side)) filled.book
      ≡ levels_for_side (opposite (opposite taker.side)) m.book
  unfolding fill_maker
  fill_maker-other = ground arith

  pub fill_maker-remaining : filled.remaining_lots ≡ m.remaining_lots -ℤ lots
  unfolding fill_maker at
  fill_maker-remaining = ground arith

  pub fill_maker-trade_id : filled.book.next_trade_id ≡ m.book.next_trade_id + 1
  unfolding fill_maker
  fill_maker-trade_id = ground arith

  pub fill_maker-trades :
      (price : ℤ)
      → ((levels_for_side (opposite taker.side) m.book).levels i).price_ticks ≡ price
      → filled.trades ≡ m.trades ++ trades_of taker m.book.next_trade_id (fill_at price o lots ∷ [])
  unfolding fill_maker at trades_of
  fill_maker-trades price e = ground arith
