-- ===== src/Engine/PriceLevels/Search.antt =====
-- The binary search of engine/order_book.cpp against the sorted order.
use axiotick.Common.{
  ℕ, zero, suc, ◌+◌, ◌-◌, ◌/◌, ◌≤◌, ◌<◌, ◌≡◌, inl, inr, Bool, true, false, Bool-cases, ltb, ℤ,
  ◌==ℤ◌, arith, subst,
}
use native.Mathlib.Decide.{dec_lt}
use axiotick.Engine.PriceLevels.{
  PriceLevelSet, find_from, find_level_index, is_price_better_or_equal,
}
use axiotick.Engine.PriceLevels.Sorted.{better, price_at, IsSorted, better_trans}

-- What a search for a price on a side may answer.
abbrev pub IsAnswer : ℕ → PriceLevelSet → ℤ → Bool × ℕ → Type 0
IsAnswer side set price (true, i) = (i < set.size) × (price_at set i ≡ price)
IsAnswer side set price (false, i) =
    (i ≤ set.size)
    × ((j : ℕ) → j < i → better side (price_at set j) price ≡ true)
    × ((j : ℕ) → i ≤ j → j < set.size → better side price (price_at set j) ≡ true)

better_of_after :
    (side : ℕ) (a b : ℤ)
    → is_price_better_or_equal side a b ≡ true
    → (a ==ℤ b) ≡ false
    → better side a b ≡ true
unfolding is_price_better_or_equal
better_of_after side a b h k = ground arith

better_of_before :
    (side : ℕ) (a b : ℤ) → is_price_better_or_equal side a b ≡ false → better side b a ≡ true
unfolding is_price_better_or_equal
better_of_before side a b h = ground arith

module _ (side : ℕ) (set : PriceLevelSet) (s : IsSorted side set) (price : ℤ) where
  -- Everything left of the interval ranks before the price, everything right of it after.
  record IsInterval (left right : ℕ) : Type 0 where
    ordered : left ≤ right
    inside : right ≤ set.size
    low : (j : ℕ) → j < left → better side (price_at set j) price ≡ true
    high : (j : ℕ) → right ≤ j → j < set.size → better side price (price_at set j) ≡ true

  empty-IsAnswer :
      (left right : ℕ)
      → right ≤ left
      → IsInterval left right
      → IsAnswer side set price (false, left)
  empty-IsAnswer left right h v =
      (omega (arith, v.inside, v.ordered), v.low, λ j k l. v.high j (omega (arith, v.ordered)) l)

  -- One round on a price that differs from the middle one.
  narrow_left :
      (left right mid : ℕ)
      → IsInterval left right
      → left ≤ mid
      → mid < right
      → better side (price_at set mid) price ≡ true
      → IsInterval (mid + 1) right
  narrow_left left right mid v h k b = record {
    ordered = omega arith;
    inside = v.inside;
    low = λ j l. elim (dec_lt j mid) [
      | yes m ↦
          better_trans side (price_at set j) (price_at set mid) price
            (s.before j mid m (omega (arith, v.inside))) b
      | no m ↦
          let e : mid ≡ j = omega arith in
          subst (λ (x : ℕ). better side (price_at set x) price ≡ true) e b
    ];
    high = v.high;
  }

  narrow_right :
      (left right mid : ℕ)
      → IsInterval left right
      → left ≤ mid
      → mid < right
      → better side price (price_at set mid) ≡ true
      → IsInterval left mid
  narrow_right left right mid v h k b = record {
    ordered = h;
    inside = omega (arith, v.inside);
    low = v.low;
    high = λ j l m. elim (dec_lt mid j) [
      | yes o ↦ better_trans side price (price_at set mid) (price_at set j) b (s.before mid j o m)
      | no o ↦
          let e : mid ≡ j = omega arith in
          subst (λ (x : ℕ). better side price (price_at set x) ≡ true) e b
    ];
  }

  find_from-IsAnswer :
      (fuel left right : ℕ)
      → right - left ≤ fuel
      → IsInterval left right
      → IsAnswer side set price (find_from fuel set price side left right)
  unfolding find_from
  find_from-IsAnswer zero left right h v = empty-IsAnswer left right (omega arith) v
  find_from-IsAnswer (suc fuel) left right h v =
      let mid = left + (right - left) / 2 in
      elim (Bool-cases (ltb left right)) [
        | inr e ↦ rw e (empty-IsAnswer left right (ground arith) v)
        | inl e ↦
            let below : left < right = ground arith in
            elim (Bool-cases (price_at set mid ==ℤ price)) [
              | inl hit ↦ rw (e, hit) (omega (arith, v.inside), ground arith)
              | inr miss ↦
                  elim (Bool-cases (is_price_better_or_equal side (price_at set mid) price)) [
                    | inl after ↦
                        rw (e, miss, after)
                          (find_from-IsAnswer fuel (mid + 1) right (omega arith) (
                            narrow_left left right mid v (omega arith) (omega arith)
                              (better_of_after side (price_at set mid) price after miss)))
                    | inr after ↦
                        rw (e, miss, after)
                          (find_from-IsAnswer fuel left mid (omega arith) (
                            narrow_right left right mid v (omega arith) (omega arith)
                              (better_of_before side (price_at set mid) price after)))
                  ]
            ]
      ]

  -- In a sorted array of levels the binary search finds the level at the price if there is one, and
  -- otherwise the index that parts the better prices from the worse.
  pub find_level_index-IsAnswer : IsAnswer side set price (find_level_index set price side)
  unfolding find_level_index
  find_level_index-IsAnswer = find_from-IsAnswer set.size 0 set.size (omega arith) (record {
    ordered = omega arith;
    inside = omega arith;
    low = λ j h. elim h [ ];
    high = λ j h k. absurd (omega arith);
  })
