-- ===== src/Engine/OrderBook/Round/Drop.antt =====
-- What `drop_filled` of the model of engine/order_book.cpp answers, in the two cases of a round.
use axiotick.Common.{
  ◌≡◌, refl, ap, ◌∙◌, true, false, List, [], ◌∷◌, ℤ, pos, ◌<ℤ◌, ◌≤ℤ◌, ◌-ℤ◌, arith, int_laws, ℕ, ◌-◌,
  ◌<◌, ◌==◌, length,
}
use axiotick.Core.Float.{Float}
use axiotick.Core.Order.{Order}
use axiotick.Engine.PriceLevels.{PriceLevel, PriceLevelSet}
use axiotick.Engine.PoolAllocator.{PoolAllocator, at, in_use}
use axiotick.Engine.OrderBook.{Capacity, OrderNode, levels_for_side, remove_node, unlink_node}
use axiotick.Engine.OrderBook.Matching.{Matching, opposite, fill_maker, drop_filled}
use axiotick.Engine.OrderBook.PriceTime.{Resting, Level, is_empty}
use axiotick.Engine.OrderBook.Represents.{head_of, Holds}
use axiotick.Engine.OrderBook.Round.{fill_maker-slots, fill_maker-levels}
use axiotick.Engine.OrderBook.Round.Removed

unlink_node-count :
    {D : Type 0} ⦃f : Float D⦄ (k : Capacity) (level : PriceLevel) (n : ℕ)
    (pool : PoolAllocator (OrderNode D))
    → n < k.order_nodes
    → pool.used n ≡ true
    → (unlink_node k level n pool).0.order_count ≡ level.order_count - 1
unfolding unlink_node in_use
unlink_node-count k level n pool h e = ground arith

module _ {D : Type 0} ⦃f : Float D⦄ (k : Capacity) (taker : Order D) (m : Matching D) (price : ℤ)
    (x : Resting D) (ms : List (Resting D)) (ls : List (Level D))
    (h : Holds k m.book (opposite taker.side) (record { price = price; queue = x ∷ ms } ∷ ls)) where
  empty_count : (ys : List (Resting D)) → (length ys == 0) ≡ is_empty ys
  empty_count [] = refl
  empty_count (y ∷ ys) = ground arith

  abbrev pub filled : Matching D
  filled = fill_maker k taker 0 x.index m

  pub drop_filled-partial :
      pos 0 <ℤ m.remaining_lots
      → m.remaining_lots <ℤ x.order.quantity_lots
      → drop_filled k taker 0 x.index filled ≡ (false, filled)
  unfolding drop_filled at
  drop_filled-partial wanted more =
      let slots =
        fill_maker-slots k taker m 0 x.index x.order (head_of ms) h.levels.1.chain.0 x.index in
      let left : pos 0 <ℤ x.order.quantity_lots -ℤ m.remaining_lots = omega int_laws in
      ground (arith, slots, left)

  pub drop_filled-whole :
      x.order.quantity_lots ≤ℤ m.remaining_lots
      → drop_filled k taker 0 x.index filled ≡ (
        is_empty ms,
        record filled {
          book = remove_node k (opposite taker.side) 0 x.index x.order.order_id filled.book;
        },
      )
  unfolding drop_filled at
  drop_filled-whole enough =
      let chain = h.levels.1.chain.0 in
      let slots = fill_maker-slots k taker m 0 x.index x.order (head_of ms) chain x.index in
      let levels = fill_maker-levels k taker m 0 x.index x.order (head_of ms) chain in
      let first = (levels_for_side (opposite taker.side) filled.book).levels 0 in
      let unlinked =
        unlink_node-count k first x.index filled.book.order_nodes
          (Removed.maker k taker m price x ms ls h enough).below
          (Removed.used_booked k taker m price x ms ls h enough) in
      let left : x.order.quantity_lots -ℤ x.order.quantity_lots ≡ pos 0 = omega int_laws in
      let count : first.order_count ≡ length (x ∷ ms) =
        ap (λ (l : PriceLevelSet). (l.levels 0).order_count) levels ∙ h.levels.1.count in
      ground (arith, slots, left, unlinked, count, empty_count ms)
