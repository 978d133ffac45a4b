-- ===== src/Risk/Keeps.antt =====
-- What the work of backend/modules/risk/src/risk_manager.cpp on positions and profits leaves alone.
use axiotick.Common.{
  ℕ, ◌≡◌, refl, ◌∙◌, inl, inr, Bool-cases, true, not, ◌||◌, Option-cases, List, [], ◌∷◌, ℤ, arith,
}
use axiotick.Core.Float.{Float}
use axiotick.Core.Order.{Order}
use axiotick.Risk.{RiskManager, PositionState, normalize_symbol}
use axiotick.Risk.Positions.{
  trigger_kill_switch, check_daily_loss, refresh_unrealized, update_position_on_fill, mark_position,
  mark_to_market, maybe_roll_day,
}
use axiotick.Risk.Reservations.{book_fill, add_net_lots}

module _ {D : Type 0} ⦃f : Float D⦄ where
  -- What a change to positions and profits leaves alone.
  pub record Keeps (m m' : RiskManager D) : Type 0 where
    pub reservations : m'.reservations ≡ m.reservations
    pub committed : m'.committed_exposure_units ≡ m.committed_exposure_units
    pub filled : m'.filled_exposure_units ≡ m.filled_exposure_units
    pub switch : m.kill_switch_active ≡ true → m'.kill_switch_active ≡ true

  Keeps-refl : (m : RiskManager D) → Keeps m m
  Keeps-refl m = record { reservations = refl; committed = refl; filled = refl; switch = λ e. e }

  Keeps-trans : (a b c : RiskManager D) → Keeps a b → Keeps b c → Keeps a c
  Keeps-trans a b c p q = record {
    reservations = q.reservations ∙ p.reservations;
    committed = q.committed ∙ p.committed;
    filled = q.filled ∙ p.filled;
    switch = λ e. q.switch (p.switch e);
  }

  check_daily_loss-Keeps : (m : RiskManager D) → Keeps m (check_daily_loss m)
  unfolding check_daily_loss trigger_kill_switch
  check_daily_loss-Keeps m = record {
    reservations = ground arith;
    committed = ground arith;
    filled = ground arith;
    switch = λ e. ground arith;
  }

  refresh_unrealized-Keeps :
      (key : List ℕ) (p : PositionState D) (m : RiskManager D)
      → Keeps m (refresh_unrealized key p m)
  unfolding refresh_unrealized
  refresh_unrealized-Keeps key p m = record {
    reservations = refl;
    committed = refl;
    filled = refl;
    switch = λ e. e;
  }

  update_position_on_fill-Keeps :
      (key : List ℕ) (side : ℕ) (price : D) (lots : ℤ) (m : RiskManager D)
      → Keeps m (update_position_on_fill key side price lots m)
  unfolding update_position_on_fill refresh_unrealized
  update_position_on_fill-Keeps key side price lots m = record {
    reservations = ground arith;
    committed = ground arith;
    filled = ground arith;
    switch = λ e. ground arith;
  }

  add_net_lots-Keeps :
      (key : List ℕ) (delta_lots : ℤ) (m : RiskManager D) → Keeps m (add_net_lots key delta_lots m)
  add_net_lots-Keeps key delta_lots m = record {
    reservations = ground arith;
    committed = ground arith;
    filled = ground arith;
    switch = λ e. ground arith;
  }

  pub book_fill-Keeps :
      (key : List ℕ) (n : Order D) (m : RiskManager D) → Keeps m (book_fill key n m)
  unfolding book_fill
  book_fill-Keeps [] n m = Keeps-refl m
  book_fill-Keeps (c ∷ cs) n m = Keeps-trans m _ _ (add_net_lots-Keeps (c ∷ cs) _ m) (
      Keeps-trans _ _ _ (update_position_on_fill-Keeps (c ∷ cs) n.side _ n.quantity_lots _)
        (check_daily_loss-Keeps _))

  mark_position-Keeps :
      (key : List ℕ) (price : D) (m : RiskManager D) → Keeps m (mark_position key price m)
  unfolding mark_position
  mark_position-Keeps [] price m = Keeps-refl m
  mark_position-Keeps (c ∷ cs) price m = elim (Option-cases (m.positions (c ∷ cs))) [
    | inl e ↦ rw (mark_position, e) (Keeps-refl m)
    | inr (p, e) ↦
        rw (mark_position, e)
          (Keeps-trans m _ _
            (refresh_unrealized-Keeps (c ∷ cs) (record p { last_mark_price = price }) m)
            (check_daily_loss-Keeps _))
  ]

  pub mark_to_market-Keeps :
      (symbol : List ℕ) (price : D) (m : RiskManager D) → Keeps m (mark_to_market symbol price m)
  unfolding mark_to_market
  mark_to_market-Keeps symbol price m =
      elim (Bool-cases (not (f.gt price f.nought) || not (f.is_finite price))) [
        | inl bad ↦ rw bad (Keeps-refl m)
        | inr good ↦ rw good (mark_position-Keeps (normalize_symbol symbol) price m)
      ]

  pub maybe_roll_day-Keeps : (now_ns : ℕ) (m : RiskManager D) → Keeps m (maybe_roll_day now_ns m)
  unfolding maybe_roll_day
  maybe_roll_day-Keeps now_ns m = record {
    reservations = ground arith;
    committed = ground arith;
    filled = ground arith;
    switch = λ e. ground arith;
  }
