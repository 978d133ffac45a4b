-- ===== src/Engine/OrderBook/Round/Reduced.antt =====
-- A round of engine/order_book.cpp in which the maker has more lots than are wanted.
use axiotick.Common.{ℕ, ◌≡◌, ◌≢◌, ◌∙◌, List, ◌∷◌, ℤ, pos, ◌<ℤ◌, ◌-ℤ◌, min_ℤ, arith, int_laws}
use axiotick.Core.Float.{Float}
use axiotick.Core.Order.{Order}
use axiotick.Engine.PriceLevels.{PriceLevelSet}
use axiotick.Engine.OrderBook.{Capacity, OrderBook, levels_for_side}
use axiotick.Engine.OrderBook.Matching.{Matching, opposite, fill_maker}
use axiotick.Engine.OrderBook.PriceTime.{Resting, Level, set_lots}
use axiotick.Engine.OrderBook.Represents.{head_of, IsLevel, AllLevels, Holds}
use axiotick.Engine.OrderBook.Frame.{Frame, AllLevels-Frame, AllBehind-AllApart, side-AllApart}
use axiotick.Engine.OrderBook.Round.{
  fill_maker-slots, fill_maker-used, fill_maker-lookup, fill_maker-levels,
}
use axiotick.Engine.OrderBook.Round.Agree.{Chain-agree, AllMakers-agree}

module _ {D : Type 0} ⦃f : Float D⦄ (k : Capacity) (taker : Order D) (m : Matching D) (price : ℤ)
    (x : Resting D) (ms : List (Resting D)) (ls : List (Level D))
    (h : Holds k m.book (opposite taker.side) (record { price = price; queue = x ∷ ms } ∷ ls)) where
  abbrev pub side : ℕ
  side = opposite taker.side

  abbrev pub set : PriceLevelSet
  set = levels_for_side side m.book

  level : IsLevel k m.book side (set.levels 0) (record { price = price; queue = x ∷ ms })
  level = h.levels.1

  abbrev pub after : OrderBook D
  after = (fill_maker k taker 0 x.index m).book

  pub fill_maker-Frame : Frame m.book after side price
  fill_maker-Frame =
      let (front, _) = level.chain in
      let (maker, _) = level.makers in
      record {
        slots = λ j a. ground (
          arith,
          fill_maker-slots k taker m 0 x.index x.order (head_of ms) front j,
          maker.on_side,
          maker.at_price,
        );
        used = λ j a. fill_maker-used k taker m 0 x.index x.order (head_of ms) front j;
        lookup = λ id locator e a.
            fill_maker-lookup k taker m 0 x.index x.order (head_of ms) front id ∙ e;
      }

  module _ (wanted : pos 0 <ℤ m.remaining_lots)
      (more : m.remaining_lots <ℤ x.order.quantity_lots) where
    abbrev pub reduced : Resting D
    reduced = record x { order = set_lots x.order (x.order.quantity_lots -ℤ m.remaining_lots) }

    min_wanted : min_ℤ m.remaining_lots x.order.quantity_lots ≡ m.remaining_lots
    min_wanted = ground arith

    reduced-IsLevel :
        IsLevel k after side
          ((levels_for_side side after).levels 0)
          (record { price = price; queue = reduced ∷ ms })
    reduced-IsLevel =
        let (front, links) = level.chain in
        let (maker, makers) = level.makers in
        let slots = λ (j : ℕ). fill_maker-slots k taker m 0 x.index x.order (head_of ms) front j in
        let used = λ (j : ℕ). fill_maker-used k taker m 0 x.index x.order (head_of ms) front j in
        let lookup =
          λ (j : ℕ). fill_maker-lookup k taker m 0 x.index x.order (head_of ms) front j in
        rw (fill_maker-levels k taker m 0 x.index x.order (head_of ms) front, min_wanted)
          (record {
            price = level.price;
            head = level.head;
            tail = level.tail;
            total = rw level.total (omega int_laws);
            count = level.count;
            occupied = omega arith;
            chain = (
              slots x.index ∙ ground (arith, min_wanted),
              Chain-agree m.book.order_nodes.slots after.order_nodes.slots x.index x.index _ ms
                  (λ j e e'. slots j ∙ ground arith) level.distinct.0 level.distinct.0 links,
            );
            distinct = level.distinct;
            makers = (
              record {
                below = maker.below;
                used = used x.index ∙ maker.used;
                on_side = maker.on_side;
                at_price = maker.at_price;
                lots_pos = omega int_laws;
                located = lookup x.order.order_id ∙ maker.located;
              },
              AllMakers-agree k m.book after side price x.index x.order.order_id ms (λ j e. used j)
                  (λ j e. lookup j) maker.located level.distinct.0 makers,
            );
          })

    -- The other levels of the side, which hold no node or locator that has changed.
    behind-AllLevels : AllLevels k after side (levels_for_side side after) 1 ls
    behind-AllLevels =
        let (front, _) = level.chain in
        let levels = fill_maker-levels k taker m 0 x.index x.order (head_of ms) front in
        AllLevels-Frame k m.book after side price fill_maker-Frame side set
          (levels_for_side side after) 0 1 1 ls (λ j p q. rw levels (ground arith))
          (rw levels (omega arith)) (omega arith) (AllBehind-AllApart side price ls h.ranked.0)
          h.levels.2

    -- The maker keeps its place with the lots that are left.
    pub reduced-Holds : Holds k after side (record { price = price; queue = reduced ∷ ms } ∷ ls)
    reduced-Holds = record {
      levels = (
        rw (fill_maker-levels k taker m 0 x.index x.order (head_of ms) level.chain.0) h.levels.0,
        reduced-IsLevel,
        behind-AllLevels,
      );
      ranked = h.ranked;
    }

  opposite_ne : opposite taker.side ≢ opposite (opposite taker.side)
  opposite_ne = ground arith

  -- The other side of the book, after a round that leaves its levels alone.
  pub other-Holds :
      (b' : OrderBook D) (rest : List (Level D))
      → let other = opposite (opposite taker.side) in
        Frame m.book b' side price
        → levels_for_side other b' ≡ levels_for_side other m.book
        → Holds k m.book other rest
        → Holds k b' other rest
  other-Holds b' rest fr same v =
      let other = opposite (opposite taker.side) in
      record {
        levels =
            AllLevels-Frame k m.book b' side price fr other (levels_for_side other m.book)
              (levels_for_side other b') 0 0 0 rest (λ j p q. rw same (ground arith))
              (rw same (omega arith)) (omega arith)
              (side-AllApart side other price rest opposite_ne) v.levels;
        ranked = v.ranked;
      }
