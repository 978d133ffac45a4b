-- ===== src/Engine/PriceLevels.antt =====
-- `PriceLevelSet` of backend/include/engine/order_book.hpp and the functions of
-- backend/modules/engine/src/order_book.cpp that search, insert and erase a level. The array is a
-- function that is read below its capacity alone; a node index of -1 is `none`.
pub mod Sorted
pub mod Search
pub mod Shift
use axiotick.Common.{
  ℕ, zero, suc, ◌+◌, ◌-◌, ◌/◌, Bool, true, false, if◌then◌else◌, ltb, leb, ◌==◌, Option, none, some,
  update, ℤ, pos, leb_ℤ, ◌==ℤ◌,
}
use axiotick.Core.Order.{side_buy}

abbrev pub max_price_levels : ℕ
max_price_levels = 4096

pub record PriceLevel : Type 0 where
  pub price_ticks : ℤ
  pub head : Option ℕ
  pub tail : Option ℕ
  pub total_lots : ℤ
  pub order_count : ℕ

-- A level with no order in it; `PriceLevel{}` is the one at price 0.
abbrev pub empty_level : ℤ → PriceLevel
empty_level price = record {
  price_ticks = price;
  head = none;
  tail = none;
  total_lots = pos 0;
  order_count = 0;
}

pub record PriceLevelSet : Type 0 where
  pub levels : ℕ → PriceLevel
  pub size : ℕ

unfoldable pub is_price_better_or_equal : ℕ → ℤ → ℤ → Bool
is_price_better_or_equal side lhs rhs = if side == side_buy then leb_ℤ rhs lhs else leb_ℤ lhs rhs

-- The loop of `find_level_index` on `[left, right)`. It ends when the interval is empty, which
-- `right - left` rounds bring about.
find_from : ℕ → PriceLevelSet → ℤ → ℕ → ℕ → ℕ → Bool × ℕ
unfolding is_price_better_or_equal
find_from zero set price side left right = (false, left)
find_from (suc fuel) set price side left right =
    let mid = left + (right - left) / 2 in
    let mid_price = (set.levels mid).price_ticks in
    let after = is_price_better_or_equal side mid_price price in
    let rest =
      find_from fuel set price side (if after then mid + 1 else left)
        (if after then right else mid) in
    if ltb left right then if mid_price ==ℤ price then (true, mid) else rest else (false, left)

-- Whether there is a level at the price, and the index of it or of where it belongs.
unfoldable pub find_level_index : PriceLevelSet → ℤ → ℕ → Bool × ℕ
unfolding find_from
find_level_index set price side = find_from set.size set price side 0 set.size

-- `for (i = from; i > from - rounds; --i) levels[i] = levels[i - 1]`
shift_up : ℕ → ℕ → (ℕ → PriceLevel) → ℕ → PriceLevel
shift_up zero i levels = levels
shift_up (suc rounds) i levels = shift_up rounds (i - 1) (update levels i (levels (i - 1)))

-- `for (i = from; i < from + rounds; ++i) levels[i - 1] = levels[i]`
shift_down : ℕ → ℕ → (ℕ → PriceLevel) → ℕ → PriceLevel
shift_down zero i levels = levels
shift_down (suc rounds) i levels = shift_down rounds (i + 1) (update levels (i - 1) (levels i))

-- The part of `find_or_create_level` that makes room at an index.
unfoldable pub insert_level : PriceLevelSet → ℤ → ℕ → PriceLevelSet
unfolding shift_up
insert_level set price index =
    let shifted = shift_up (set.size - index) set.size set.levels in
    record { levels = update shifted index (empty_level price); size = set.size + 1 }

-- The index of the level, or `none` where the array of `capacity` levels is full.
unfoldable pub find_or_create_level : ℕ → PriceLevelSet → ℤ → ℕ → Option ℕ × PriceLevelSet
unfolding insert_level
find_or_create_level capacity set price side =
    let (found, index) = find_level_index set price side in
    if found
    then (some index, set)
    else if leb capacity set.size
    then (none, set)
    else (some index, insert_level set price index)

unfoldable pub erase_level : PriceLevelSet → ℕ → PriceLevelSet
unfolding shift_down
erase_level set index =
    let shifted = shift_down (set.size - (index + 1)) (index + 1) set.levels in
    if leb set.size index then set else record {
      levels = update shifted (set.size - 1) (empty_level (pos 0));
      size = set.size - 1;
    }
