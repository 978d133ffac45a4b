-- ===== src/Risk/NetLots.antt =====
-- The net position of a symbol in backend/modules/risk/src/risk_manager.cpp, under fills.
use axiotick.Common.{
  ℕ, ◌≡◌, refl, true, if◌then◌else◌, ◌==◌, List, [], ◌∷◌, ℤ, pos, ◌<ℤ◌, neg_ℤ, ◌+ℤ◌, arith,
}
use axiotick.Core.Float.{Float}
use axiotick.Core.Order.{side_buy}
use axiotick.Risk.{RiskManager, same_symbol}
use axiotick.Risk.Positions.{
  refresh_unrealized, extend_position, reduce_position, position_at, update_position_on_fill,
}

same_symbol_refl : (key : List ℕ) → same_symbol key key ≡ true
same_symbol_refl [] = refl
same_symbol_refl (c ∷ cs) = ground (arith, same_symbol_refl cs)

module _ {D : Type 0} ⦃f : Float D⦄ where
  -- A fill of positive lots at a finite positive price moves the net position of its symbol by those
  -- lots, up for a buy and down for a sell, whether it opens, extends, reduces, closes or flips it.
  pub update_position_on_fill-net_lots :
      (key : List ℕ) (side : ℕ) (price : D) (lots : ℤ) (m : RiskManager D)
      → pos 0 <ℤ lots
      → f.gt price f.nought ≡ true
      → f.is_finite price ≡ true
      → (position_at key (update_position_on_fill key side price lots m)).net_lots
        ≡ (position_at key m).net_lots +ℤ (if side == side_buy then lots else neg_ℤ lots)
  unfolding update_position_on_fill extend_position reduce_position refresh_unrealized
  update_position_on_fill-net_lots key side price lots m h g i =
      ground (arith, same_symbol_refl key, h, g, i)
