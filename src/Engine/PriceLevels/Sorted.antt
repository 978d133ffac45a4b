-- ===== src/Engine/PriceLevels/Sorted.antt =====
-- The order of the levels of engine/order_book.cpp: strictly from better to worse prices, which for
-- bids is downwards and for asks upwards.
use axiotick.Common.{ℕ, ◌<◌, ◌≡◌, Bool, true, if◌then◌else◌, ◌==◌, ℤ, ltb_ℤ, arith}
use axiotick.Core.Order.{side_buy}
use axiotick.Engine.PriceLevels.{PriceLevelSet}

-- Price `a` ranks strictly before price `b` on a side.
abbrev pub better : ℕ → ℤ → ℤ → Bool
better side a b = if side == side_buy then ltb_ℤ b a else ltb_ℤ a b

abbrev pub price_at : PriceLevelSet → ℕ → ℤ
price_at set i = (set.levels i).price_ticks

pub record IsSorted (side : ℕ) (set : PriceLevelSet) : Type 0 where
  pub before :
      (i j : ℕ) → i < j → j < set.size → better side (price_at set i) (price_at set j) ≡ true

pub better_trans :
    (side : ℕ) (a b c : ℤ)
    → better side a b ≡ true
    → better side b c ≡ true
    → better side a c ≡ true
better_trans side a b c h k = ground arith
