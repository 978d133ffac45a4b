-- ===== src/Engine/OrderBook/Round/Rest.antt =====
-- The side of engine/order_book.cpp that trades, after its first maker has been taken.
use axiotick.Common.{ℕ, refl, sym, subst, ◌∙◌, some, List, [], ◌∷◌, ℤ, ◌≤ℤ◌, arith, int_laws}
use axiotick.Core.Float.{Float}
use axiotick.Core.Order.{Order}
use axiotick.Engine.PriceLevels.{PriceLevel, PriceLevelSet}
use axiotick.Engine.OrderBook.{Capacity, OrderBook, levels_for_side, remove_node}
use axiotick.Engine.OrderBook.Matching.{Matching, opposite, fill_maker}
use axiotick.Engine.OrderBook.PriceTime.{Resting, Level}
use axiotick.Engine.OrderBook.Represents.{IsLevel, Holds}
use axiotick.Engine.OrderBook.Frame.{AllLevels-Frame, AllBehind-AllApart}
use axiotick.Engine.OrderBook.Round.Agree.{Chain-agree, AllMakers-agree}
use axiotick.Engine.OrderBook.Round.Removed
use axiotick.Engine.OrderBook.Round.Outcome

module _ {D : Type 0} ⦃f : Float D⦄ (k : Capacity) (taker : Order D) (m : Matching D) (price : ℤ)
    (x : Resting D) (ls : List (Level D)) where
  abbrev pub side : ℕ
  side = opposite taker.side

  abbrev pub set : PriceLevelSet
  set = levels_for_side side m.book

  abbrev pub after : OrderBook D
  after = remove_node k side 0 x.index x.order.order_id (fill_maker k taker 0 x.index m).book

  -- The last order of a level takes the level with it.
  pub erased-Holds :
      Holds k m.book side (record { price = price; queue = x ∷ [] } ∷ ls)
      → x.order.quantity_lots ≤ℤ m.remaining_lots
      → Holds k after side ls
  erased-Holds h enough = record {
    levels =
        AllLevels-Frame k m.book after side price
          (Removed.after-Frame k taker m price x [] ls h enough) side set
          (levels_for_side side after) 1 0 1 ls
          (λ j p q.
            Outcome.erased_at k taker m price x [] ls h enough j refl
              (omega (arith, Outcome.erased_size k taker m price x [] ls h enough refl)))
          (omega (arith, h.levels.0, Outcome.erased_size k taker m price x [] ls h enough refl))
          (omega arith) (AllBehind-AllApart side price ls h.ranked.0) h.levels.2;
    ranked = h.ranked.1;
  }

  module _ (y : Resting D) (ys : List (Resting D))
      (h : Holds k m.book side (record { price = price; queue = x ∷ y ∷ ys } ∷ ls))
      (enough : x.order.quantity_lots ≤ℤ m.remaining_lots) where
    kept-IsLevel :
        IsLevel k after side
          (Outcome.shrunk k taker m price x (some y.index))
          (record { price = price; queue = y ∷ ys })
    kept-IsLevel =
        let level = h.levels.1 in
        let (front, (second, links)) = level.chain in
        let (maker, makers) = level.makers in
        let slots = Removed.after-slots k taker m price x (y ∷ ys) ls h enough in
        let used = Removed.after-used k taker m price x (y ∷ ys) ls h enough in
        let lookup = Removed.after-lookup k taker m price x (y ∷ ys) ls h enough in
        record {
          price = level.price;
          head = refl;
          tail = level.tail;
          total = rw level.total (omega int_laws);
          count = omega (arith, level.count);
          occupied = omega arith;
          chain = (
            slots y.index level.distinct.0.0 ∙ ground arith,
            Chain-agree m.book.order_nodes.slots after.order_nodes.slots x.index y.index _ ys
                (λ j e e'. slots j e ∙ ground arith) level.distinct.0.1 level.distinct.1.0 links,
          );
          distinct = level.distinct.1;
          makers =
              AllMakers-agree k m.book after side price x.index x.order.order_id (y ∷ ys) used
                lookup maker.located level.distinct.0 makers;
        }

    -- The next order of the level comes to the front.
    pub kept-Holds : Holds k after side (record { price = price; queue = y ∷ ys } ∷ ls)
    kept-Holds =
        let size = Outcome.kept_size k taker m price x (y ∷ ys) ls h enough (omega arith) in
        let levels =
          λ (j : ℕ). Outcome.kept_at k taker m price x (y ∷ ys) ls h enough j (omega arith) in
        record {
          levels = (
            omega (arith, size, h.levels.0),
            subst
                (λ (l : PriceLevel).
                  IsLevel k after side l (record { price = price; queue = y ∷ ys }))
                (sym (levels 0)) kept-IsLevel,
            AllLevels-Frame k m.book after side price
                (Removed.after-Frame k taker m price x (y ∷ ys) ls h enough) side set
                (levels_for_side side after) 0 1 1 ls (λ j p q. levels j ∙ ground arith)
                (omega (arith, size)) (omega arith) (AllBehind-AllApart side price ls h.ranked.0)
                h.levels.2,
          );
          ranked = h.ranked;
        }
