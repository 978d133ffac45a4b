-- ===== src/Engine/PriceLevels/Shift.antt =====
-- The loops of engine/order_book.cpp that make room for a level and close a gap: what they leave at
-- each index, and that the levels stay sorted.
use axiotick.Common.{
  ℕ, zero, suc, ◌+◌, ◌-◌, ◌≤◌, ◌<◌, ◌≡◌, ◌≢◌, ◌⊎◌, refl, ◌∙◌, inl, inr, Bool, Bool-cases, true,
  false, ◌&&◌, Option, none, some, sym, if◌then◌else◌, ltb, leb, ◌==◌, ℤ, update, arith,
}
use native.Mathlib.Decide.{dec_lt}
use axiotick.Engine.PriceLevels.{
  PriceLevel, PriceLevelSet, empty_level, shift_up, shift_down, insert_level, erase_level,
  find_level_index, find_or_create_level,
}
use axiotick.Engine.PriceLevels.Sorted.{better, price_at, IsSorted}
use axiotick.Engine.PriceLevels.Search.{IsAnswer, find_level_index-IsAnswer}

shift_up_at :
    (rounds i j : ℕ) (levels : ℕ → PriceLevel)
    → rounds ≤ i
    → shift_up rounds i levels j
      ≡ (if ltb (i - rounds) j && leb j i then levels (j - 1) else levels j)
unfolding shift_up
shift_up_at zero i j levels h = ground arith
shift_up_at (suc rounds) i j levels h =
    shift_up_at rounds (i - 1) j (update levels i (levels (i - 1))) (omega arith) ∙ ground arith

shift_down_at :
    (rounds i j : ℕ) (levels : ℕ → PriceLevel)
    → 0 < i
    → shift_down rounds i levels j
      ≡ (if leb i (j + 1) && ltb (j + 1) (i + rounds) then levels (j + 1) else levels j)
unfolding shift_down
shift_down_at zero i j levels h = ground arith
shift_down_at (suc rounds) i j levels h =
    shift_down_at rounds (i + 1) j (update levels (i - 1) (levels i)) (omega arith) ∙ ground arith

module _ (set : PriceLevelSet) where
  pub insert_level_at :
      (price : ℤ) (index j : ℕ)
      → index ≤ set.size
      → j < set.size + 1
      → (insert_level set price index).levels j ≡ (
          if ltb j index
          then set.levels j
          else if j == index
          then empty_level price
          else set.levels (j - 1))
  unfolding insert_level
  insert_level_at price index j h k =
      ground (arith, shift_up_at (set.size - index) set.size j set.levels)

  pub insert_level-size :
      (price : ℤ) (index : ℕ) → (insert_level set price index).size ≡ set.size + 1
  unfolding insert_level
  insert_level-size price index = refl

  pub erase_level_at :
      (index j : ℕ)
      → index < set.size
      → j < set.size - 1
      → (erase_level set index).levels j
        ≡ (if ltb j index then set.levels j else set.levels (j + 1))
  unfolding erase_level
  erase_level_at index j h k =
      ground (arith, shift_down_at (set.size - (index + 1)) (index + 1) j set.levels)

  pub erase_level-size :
      (index : ℕ) → index < set.size → (erase_level set index).size ≡ set.size - 1
  unfolding erase_level
  erase_level-size index h = ground arith

module _ (side : ℕ) (set : PriceLevelSet) (s : IsSorted side set) where
  -- Erasing a level keeps the rest sorted.
  pub erase_level-IsSorted : (index : ℕ) → index < set.size → IsSorted side (erase_level set index)
  erase_level-IsSorted index h = record {
    before = λ i j p q. ground (
      arith,
      erase_level-size set index h,
      erase_level_at set index i h,
      erase_level_at set index j h,
      s.before i j,
      s.before i (j + 1),
      s.before (i + 1) (j + 1),
    );
  }

  -- A new level at the index that a failed search gives keeps the levels sorted.
  pub insert_level-IsSorted :
      (price : ℤ) (index : ℕ)
      → IsAnswer side set price (false, index)
      → IsSorted side (insert_level set price index)
  insert_level-IsSorted price index a = record {
    before = λ i j p q. ground (
      arith,
      insert_level-size set price index,
      insert_level_at set price index i a.0,
      insert_level_at set price index j a.0,
      s.before i j,
      s.before i (j - 1),
      s.before (i - 1) (j - 1),
      a.1 i,
      a.2 (j - 1),
    );
  }

-- A level without orders was put at the index, at a price that no level had; every other level is as
-- it was, those behind the index one place further.
pub record IsInserted (set : PriceLevelSet) (price : ℤ) (index : ℕ) (q : PriceLevelSet)
    : Type 0 where
  pub absent : (j : ℕ) → j < set.size → price_at set j ≢ price
  pub size : q.size ≡ set.size + 1
  pub fresh : q.levels index ≡ empty_level price
  pub kept : (j : ℕ) → j < set.size → q.levels (if ltb j index then j else j + 1) ≡ set.levels j

-- What `find_or_create_level` may answer, with the levels after the call.
abbrev pub IsPlaced : ℕ → ℕ → PriceLevelSet → ℤ → Option ℕ × PriceLevelSet → Type 0
IsPlaced capacity side set price (none, q) =
    (q ≡ set) × (capacity ≤ set.size) × ((j : ℕ) → j < set.size → price_at set j ≢ price)
IsPlaced capacity side set price (some i, q) =
    (i < q.size) × (price_at q i ≡ price) × IsSorted side q × ((q ≡ set) ⊎ IsInserted set price i q)

better_irrefl : (side : ℕ) (a b : ℤ) → better side a b ≡ true → a ≢ b
better_irrefl side a b h e = ground arith

module _ (capacity side : ℕ) (set : PriceLevelSet) (s : IsSorted side set) (price : ℤ) where
  absent :
      (index : ℕ)
      → IsAnswer side set price (false, index)
      → (j : ℕ) → j < set.size
      → price_at set j ≢ price
  absent index a j h = elim (dec_lt j index) [
    | yes l ↦ better_irrefl side _ _ (a.1 j l)
    | no l ↦ λ e. better_irrefl side price (price_at set j) (a.2 j (omega arith) h) (sym e)
  ]

  insert_level-IsInserted :
      (index : ℕ)
      → IsAnswer side set price (false, index)
      → IsInserted set price index (insert_level set price index)
  insert_level-IsInserted index a = record {
    absent = absent index a;
    size = insert_level-size set price index;
    fresh = ground (arith, insert_level_at set price index index, a.0);
    kept = λ j h.
        ground (
          arith,
          h,
          a.0,
          insert_level_at set price index j,
          insert_level_at set price index (j + 1),
        );
  }

  placed :
      (answer : Bool × ℕ)
      → IsAnswer side set price answer
      → find_level_index set price side ≡ answer
      → IsPlaced capacity side set price (find_or_create_level capacity set price side)
  unfolding find_or_create_level
  placed (true, i) a e = rw e (a.0, a.1, s, inl refl)
  placed (false, i) a e = elim (Bool-cases (leb capacity set.size)) [
    | inl full ↦ rw (e, full) (refl, ground arith, absent i a)
    | inr room ↦
        rw (e, room)
          (
            ground (arith, insert_level-size set price i),
            ground (arith, insert_level_at set price i i),
            insert_level-IsSorted side set s price i a,
            inr (insert_level-IsInserted i a),
          )
  ]

  -- On sorted levels `find_or_create_level` answers the index of a level at the price in levels that
  -- are again sorted. They are the same levels, or no level had the price and one without orders was
  -- put at the index, with every other level as it was and those behind one place further. The call
  -- refuses, and then changes nothing, only where the array is full and no level has the price.
  pub find_or_create_level-IsPlaced :
      IsPlaced capacity side set price (find_or_create_level capacity set price side)
  find_or_create_level-IsPlaced =
      placed (find_level_index set price side) (find_level_index-IsAnswer side set s price) refl
