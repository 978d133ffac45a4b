-- ===== src/Engine/OrderBook/Refines/Fuel.antt =====
-- A level of engine/order_book.cpp has no more orders than the pool has nodes, so that fuel for each
-- node is enough for the loop along a level.
use axiotick.Common.{
  ℕ, ◌+◌, ◌≤◌, ◌≡◌, refl, Bool, true, false, List, [], ◌∷◌, ℤ, update, arith, length,
}
use axiotick.Engine.PoolAllocator.Soundness.{
  used_count, used_count_mark, used_count_none, used_count-le,
}
use axiotick.Engine.OrderBook.{Capacity, OrderBook}
use axiotick.Engine.PriceLevels.{PriceLevelSet}
use axiotick.Engine.OrderBook.PriceTime.{Resting, Level}
use axiotick.Engine.OrderBook.Represents.{Avoids, Distinct, AllMakers, AllLevels}

module _ {D : Type 0} where
  -- The indices of a queue, as marks.
  marks : List (Resting D) → ℕ → Bool
  marks [] = λ _. false
  marks (m ∷ ms) = update (marks ms) m.index true

  marks-Avoids : (n : ℕ) (ms : List (Resting D)) → Avoids n ms → marks ms n ≡ false
  unfolding marks
  marks-Avoids n [] a = refl
  marks-Avoids n (m ∷ ms) (a, rest) = ground (arith, marks-Avoids n ms rest)

  used_count-marks :
      (k : Capacity) (b : OrderBook D) (side : ℕ) (price : ℤ) (ms : List (Resting D))
      → Distinct ms
      → AllMakers k b side price ms
      → used_count k.order_nodes (marks ms) ≡ length ms
  unfolding marks
  used_count-marks k b side price [] d v = used_count_none k.order_nodes _ (λ j. refl)
  used_count-marks k b side price (m ∷ ms) (a, d) (v, vs) = omega (
    arith,
    used_count_mark k.order_nodes (marks ms) m.index v.below (marks-Avoids m.index ms a),
    used_count-marks k b side price ms d vs,
  )

  -- Each queue is at most so long.
  abbrev pub AllShort : ℕ → List (Level D) → Type 0
  AllShort n [] = Unit {0}
  AllShort n (l ∷ ls) = (length l.queue ≤ n) × AllShort n ls

  pub AllLevels-AllShort :
      (k : Capacity) (b : OrderBook D) (side : ℕ) (set : PriceLevelSet) (i : ℕ)
      (ls : List (Level D))
      → AllLevels k b side set i ls
      → AllShort k.order_nodes ls
  AllLevels-AllShort k b side set i [] v = tt
  AllLevels-AllShort k b side set i (l ∷ ls) (_, v, vs) = (
    omega (
      arith,
      used_count-marks k b side l.price l.queue v.distinct v.makers,
      used_count-le k.order_nodes (marks l.queue),
    ),
    AllLevels-AllShort k b side set (i + 1) ls vs,
  )

  pub AllLevels-length :
      (k : Capacity) (b : OrderBook D) (side : ℕ) (set : PriceLevelSet) (i : ℕ)
      (ls : List (Level D))
      → AllLevels k b side set i ls
      → i + length ls ≡ set.size
  AllLevels-length k b side set i [] v = omega arith
  AllLevels-length k b side set i (l ∷ ls) (_, _, vs) =
      omega (arith, AllLevels-length k b side set (i + 1) ls vs)
