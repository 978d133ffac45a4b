-- ===== src/Engine/OrderBook/Round/Outcome.antt =====
-- What a side of engine/order_book.cpp holds after its first maker has been taken: the rest of the
-- queue, or the levels behind if there is no rest.
use axiotick.Common.{
  ℕ, suc, ◌+◌, ◌-◌, ◌<◌, ◌≡◌, ap, ◌∙◌, if◌then◌else◌, ◌==◌, Option, none, some, List, ◌∷◌, ℤ, ◌≤ℤ◌,
  ◌-ℤ◌, min_ℤ, arith, length,
}
use axiotick.Core.Float.{Float}
use axiotick.Core.Order.{Order}
use axiotick.Engine.PriceLevels.{PriceLevel, PriceLevelSet, erase_level}
use axiotick.Engine.PriceLevels.Shift.{erase_level_at, erase_level-size}
use axiotick.Engine.OrderBook.{Capacity, OrderBook, levels_for_side, remove_node, set_level}
use axiotick.Engine.OrderBook.Matching.{Matching, opposite, fill_maker}
use axiotick.Engine.OrderBook.PriceTime.{Resting, Level}
use axiotick.Engine.OrderBook.Represents.{head_of, Holds}
use axiotick.Engine.OrderBook.Round.{fill_maker-levels, remove_node-levels}
use axiotick.Engine.OrderBook.Round.Removed

module _ {D : Type 0} ⦃f : Float D⦄ (k : Capacity) (taker : Order D) (m : Matching D) (price : ℤ)
    (x : Resting D) where
  abbrev pub side : ℕ
  side = opposite taker.side

  abbrev pub set : PriceLevelSet
  set = levels_for_side side m.book

  abbrev pub after : OrderBook D
  after = remove_node k side 0 x.index x.order.order_id (fill_maker k taker 0 x.index m).book

  -- The first level as the bookings and `unlink_node` leave it.
  abbrev pub shrunk : Option ℕ → PriceLevel
  shrunk next = record (set.levels 0) {
    head = next;
    tail = elim next [ none ↦ none | some _ ↦ (set.levels 0).tail ];
    total_lots =
        (set.levels 0).total_lots
        -ℤ min_ℤ m.remaining_lots x.order.quantity_lots
        -ℤ (x.order.quantity_lots -ℤ min_ℤ m.remaining_lots x.order.quantity_lots);
    order_count = (set.levels 0).order_count - 1;
  }

  module _ (ms : List (Resting D)) (ls : List (Level D))
      (h : Holds k m.book side (record { price = price; queue = x ∷ ms } ∷ ls))
      (enough : x.order.quantity_lots ≤ℤ m.remaining_lots) where
    booked : PriceLevelSet
    booked = levels_for_side side (fill_maker k taker 0 x.index m).book

    booked_lem :
        booked
        ≡ set_level set 0 (record (set.levels 0) {
          total_lots = (set.levels 0).total_lots -ℤ min_ℤ m.remaining_lots x.order.quantity_lots;
        })
    unfolding booked
    booked_lem =
        fill_maker-levels k taker m 0 x.index x.order (head_of ms)
          (Removed.front k taker m price x ms ls h enough)

    -- What `unlink_node` leaves of the first level.
    trimmed : PriceLevel
    trimmed = record (booked.levels 0) {
      head = head_of ms;
      tail = elim (head_of ms) [ none ↦ none | some _ ↦ (booked.levels 0).tail ];
      total_lots =
          (booked.levels 0).total_lots
          -ℤ (Removed.spent k taker m price x ms ls h enough).quantity_lots;
      order_count = (booked.levels 0).order_count - 1;
    }

    after_lem : levels_for_side side after ≡ (
        if (booked.levels 0).order_count - 1 == 0
        then erase_level (set_level booked 0 trimmed) 0
        else set_level booked 0 trimmed)
    unfolding booked trimmed
    after_lem =
        remove_node-levels k (fill_maker k taker 0 x.index m).book side 0 x.index x.order.order_id
          (Removed.spent k taker m price x ms ls h enough) (head_of ms)
          (Removed.maker k taker m price x ms ls h enough).below
          (Removed.used_booked k taker m price x ms ls h enough)
          (Removed.front_booked k taker m price x ms ls h enough)

    count : (set.levels 0).order_count ≡ suc (length ms)
    count = h.levels.1.count

    pub kept_at :
        (j : ℕ)
        → 0 < length ms
        → (levels_for_side side after).levels j
          ≡ (if j == 0 then shrunk (head_of ms) else set.levels j)
    unfolding trimmed
    kept_at j e = ground (arith, after_lem, booked_lem, count)

    pub kept_size : 0 < length ms → (levels_for_side side after).size ≡ set.size
    kept_size e = ground (arith, after_lem, booked_lem, count)

    erased_lem :
        length ms ≡ 0 → levels_for_side side after ≡ erase_level (set_level booked 0 trimmed) 0
    erased_lem e = ground (arith, after_lem, booked_lem, count)

    pub erased_at :
        (j : ℕ)
        → length ms ≡ 0
        → j < set.size - 1
        → (levels_for_side side after).levels j ≡ set.levels (j + 1)
    erased_at j e b =
        let same = erase_level_at (set_level booked 0 trimmed) 0 j in
        ap (λ (l : PriceLevelSet). l.levels j) (erased_lem e)
        ∙ ground (arith, booked_lem, same, h.levels.0)

    pub erased_size : length ms ≡ 0 → (levels_for_side side after).size ≡ set.size - 1
    erased_size e =
        ap (λ (l : PriceLevelSet). l.size) (erased_lem e)
        ∙ ground (arith, booked_lem, erase_level-size (set_level booked 0 trimmed) 0, h.levels.0)
