-- ===== src/Engine/OrderBook/Resting/Lookup.antt =====
-- `get_order` of engine/order_book.cpp after `add_order`.
use axiotick.Common.{
  ℕ, ◌≡◌, ◌≢◌, refl, inl, inr, Bool, true, false, Option, Option-cases, none, some, ℤ, arith,
}
use axiotick.Core.Float.{Float}
use axiotick.Core.Order.{Order}
use axiotick.Core.FixedPoint.{normalize_order_scalars}
use axiotick.Engine.PoolAllocator.{PoolAllocator, try_emplace, in_use, at}
use axiotick.Engine.PoolAllocator.Soundness.{IsSound, try_emplace_fresh}
use axiotick.Engine.PriceLevels.{PriceLevel, PriceLevelSet, find_level_index, find_or_create_level}
use axiotick.Engine.PriceLevels.Sorted.{IsSorted}
use axiotick.Engine.PriceLevels.Search.{IsAnswer, find_level_index-IsAnswer}
use axiotick.Engine.PriceLevels.Shift.{insert_level_at}
use axiotick.Engine.OrderBook.{Capacity, OrderNode, OrderBook, levels_for_side}
use axiotick.Engine.OrderBook.Resting.{link_order, add_normalized, add_order, get_order}

-- The node that a level ends with, if it has one, is in use.
abbrev pub TailUsed : {T : Type 0} → PoolAllocator T → PriceLevel → Type 0
TailUsed pool level = (n : ℕ) → level.tail ≡ some n → pool.used n ≡ true

module _ {T : Type 0} (pool : PoolAllocator T) (capacity side : ℕ) (set : PriceLevelSet) (price : ℤ)
    (t : (j : ℕ) → TailUsed pool (set.levels j)) where
  placed_tail :
      (answer : Bool × ℕ) (i : ℕ)
      → IsAnswer side set price answer
      → find_level_index set price side ≡ answer
      → (find_or_create_level capacity set price side).0 ≡ some i
      → TailUsed pool ((find_or_create_level capacity set price side).1.levels i)
  unfolding find_or_create_level
  placed_tail (true, index) i a q e n h = ground (arith, t i n)
  placed_tail (false, index) i a q e n h = ground (arith, insert_level_at set price index index a.0)

  -- The level that `find_or_create_level` answers is one that was there, or is empty.
  find_or_create_level-tail :
      (i : ℕ)
      → IsSorted side set
      → (find_or_create_level capacity set price side).0 ≡ some i
      → TailUsed pool ((find_or_create_level capacity set price side).1.levels i)
  find_or_create_level-tail i s e =
      placed_tail (find_level_index set price side) i (find_level_index-IsAnswer side set s price)
        refl e

-- What the lookup of an added order rests on.
pub record IsReady {D : Type 0} (k : Capacity) (b : OrderBook D) : Type 0 where
  pub pool : IsSound k.order_nodes b.order_nodes
  pub sorted : (side : ℕ) → IsSorted side (levels_for_side side b)
  pub tails : (side j : ℕ) → TailUsed b.order_nodes ((levels_for_side side b).levels j)

module _ {D : Type 0} ⦃f : Float D⦄ (k : Capacity) where
  link_order-lookup :
      (set : PriceLevelSet) (i : ℕ) (order : Order D) (n : ℕ) (nodes : PoolAllocator (OrderNode D))
      (b : OrderBook D)
      → b.order_lookup order.order_id ≡ none
      → in_use k.order_nodes nodes (some n) ≡ true
      → (set.levels i).tail ≢ some n
      → get_order k order.order_id (link_order k set i order n nodes b).1 ≡ some order
  unfolding link_order get_order in_use at
  link_order-lookup set i order n nodes b e u t = ground arith

  not_both :
      (tail : Option ℕ) (n : ℕ) (q p : PoolAllocator (OrderNode D))
      → in_use k.order_nodes p (some n) ≡ false
      → in_use k.order_nodes q (some n) ≡ true
      → (tail ≡ some n → p.used n ≡ true)
      → tail ≢ some n
  unfolding in_use
  not_both tail n q p a u h e = ground (arith, h e)

  add_normalized-lookup :
      (order : Order D) (b : OrderBook D)
      → IsReady k b
      → b.order_lookup order.order_id ≡ none
      → (add_normalized k order b).0 ≡ true
      → get_order k order.order_id (add_normalized k order b).1 ≡ some order
  unfolding add_normalized
  add_normalized-lookup order b r e h =
      let fresh : OrderNode D = record { order = order; prev = none; next = none } in
      let set = levels_for_side order.side b in
      let price = order.price_ticks in
      elim (Option-cases (try_emplace fresh b.order_nodes).0) [
        | inl full ↦ absurd (ground arith)
        | inr (n, got) ↦
            elim (Option-cases (find_or_create_level k.price_levels set price order.side).0) [
              | inl full ↦ absurd (ground arith)
              | inr (i, level) ↦
                  let new = try_emplace_fresh k.order_nodes b.order_nodes r.pool fresh n got in
                  let tail =
                    find_or_create_level-tail b.order_nodes k.price_levels order.side set price
                      (r.tails order.side) i (r.sorted order.side) level in
                  let apart =
                    not_both _ n (try_emplace fresh b.order_nodes).1 b.order_nodes new.0 new.1
                      (tail n) in
                  let found =
                    link_order-lookup (find_or_create_level k.price_levels set price order.side).1 i
                      order n (try_emplace fresh b.order_nodes).1 b e new.1 apart in
                  rw (add_normalized, got, level) found
            ]
      ]

  -- On a book whose pool is sound, whose levels are sorted and end in nodes that are in use, an order
  -- that `add_order` takes is then found under its id, as normalised.
  pub add_order-get_order :
      (order : Order D) (b : OrderBook D)
      → IsReady k b
      → (add_order k order b).0 ≡ true
      → get_order k (normalize_order_scalars order).order_id (add_order k order b).1
        ≡ some (normalize_order_scalars order)
  unfolding add_order
  add_order-get_order order b r h =
      ground (arith, add_normalized-lookup (normalize_order_scalars order) b r)
