-- ===== src/Engine/OrderBook/Represents.antt =====
-- When a book of engine/order_book.cpp holds given lists of orders: the links of each level run
-- through the nodes of its queue, and the counts, totals and locators agree.
use axiotick.Common.{
  ℕ, ◌+◌, ◌<◌, ◌≡◌, ◌≢◌, true, Option, none, some, List, [], ◌∷◌, ℤ, pos, ◌<ℤ◌, ◌+ℤ◌, length,
}
use axiotick.Engine.PriceLevels.{PriceLevel, PriceLevelSet}
use axiotick.Engine.PriceLevels.Sorted.{better}
use axiotick.Engine.OrderBook.{Capacity, OrderNode, OrderBook, levels_for_side}
use axiotick.Engine.OrderBook.PriceTime.{Resting, Level}

module _ {D : Type 0} where
  abbrev pub head_of : List (Resting D) → Option ℕ
  head_of [] = none
  head_of (m ∷ ms) = some m.index

  -- The index of the last order, or what is given for the empty queue.
  abbrev pub last_of : Option ℕ → List (Resting D) → Option ℕ
  last_of before [] = before
  last_of before (m ∷ ms) = last_of (some m.index) ms

  abbrev pub sum_lots : List (Resting D) → ℤ
  sum_lots [] = pos 0
  sum_lots (m ∷ ms) = m.order.quantity_lots +ℤ sum_lots ms

  -- The nodes of a queue, linked both ways, behind the node `prev`.
  abbrev pub Chain : (ℕ → OrderNode D) → Option ℕ → List (Resting D) → Type 0
  Chain slots prev [] = Unit {0}
  Chain slots prev (m ∷ ms) =
      (slots m.index ≡ record { order = m.order; prev = prev; next = head_of ms })
      × Chain slots (some m.index) ms

  abbrev pub Avoids : ℕ → List (Resting D) → Type 0
  Avoids n [] = Unit {0}
  Avoids n (m ∷ ms) = (m.index ≢ n) × Avoids n ms

  abbrev pub Distinct : List (Resting D) → Type 0
  Distinct [] = Unit {0}
  Distinct (m ∷ ms) = Avoids m.index ms × Distinct ms

  -- An order of the queue at a price of a side.
  pub record IsMaker (k : Capacity) (b : OrderBook D) (side : ℕ) (price : ℤ) (m : Resting D)
      : Type 0 where
    pub below : m.index < k.order_nodes
    pub used : b.order_nodes.used m.index ≡ true
    pub on_side : m.order.side ≡ side
    pub at_price : m.order.price_ticks ≡ price
    pub lots_pos : pos 0 <ℤ m.order.quantity_lots
    pub located :
        b.order_lookup m.order.order_id
        ≡ some (record { side = side; price_ticks = price; node_index = m.index })

  abbrev pub AllMakers : Capacity → OrderBook D → ℕ → ℤ → List (Resting D) → Type 0
  AllMakers k b side price [] = Unit {0}
  AllMakers k b side price (m ∷ ms) = IsMaker k b side price m × AllMakers k b side price ms

  pub record IsLevel (k : Capacity) (b : OrderBook D) (side : ℕ) (level : PriceLevel) (l : Level D)
      : Type 0 where
    pub price : level.price_ticks ≡ l.price
    pub head : level.head ≡ head_of l.queue
    pub tail : level.tail ≡ last_of none l.queue
    pub total : level.total_lots ≡ sum_lots l.queue
    pub count : level.order_count ≡ length l.queue
    pub occupied : 0 < length l.queue
    pub chain : Chain b.order_nodes.slots none l.queue
    pub distinct : Distinct l.queue
    pub makers : AllMakers k b side l.price l.queue

  -- The levels from index `i` on.
  abbrev pub AllLevels : Capacity → OrderBook D → ℕ → PriceLevelSet → ℕ → List (Level D) → Type 0
  AllLevels k b side set i [] = i ≡ set.size
  AllLevels k b side set i (l ∷ ls) =
      (i < set.size) × IsLevel k b side (set.levels i) l × AllLevels k b side set (i + 1) ls

  -- Every level ranks behind a price, and the levels are in order.
  abbrev pub AllBehind : ℕ → ℤ → List (Level D) → Type 0
  AllBehind side price [] = Unit {0}
  AllBehind side price (l ∷ ls) = (better side price l.price ≡ true) × AllBehind side price ls

  abbrev pub Ranked : ℕ → List (Level D) → Type 0
  Ranked side [] = Unit {0}
  Ranked side (l ∷ ls) = AllBehind side l.price ls × Ranked side ls

  pub record Holds (k : Capacity) (b : OrderBook D) (side : ℕ) (ls : List (Level D)) : Type 0 where
    pub levels : AllLevels k b side (levels_for_side side b) 0 ls
    pub ranked : Ranked side ls
