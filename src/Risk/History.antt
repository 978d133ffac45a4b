-- ===== src/Risk/History.antt =====
-- Histories of calls on one risk manager of backend/modules/risk/src/risk_manager.cpp.
use axiotick.Common.{ℕ, ◌≡◌, refl, Bool, true, false, List, [], ◌∷◌, arith}
use axiotick.Core.Float.{Float}
use axiotick.Core.Order.{Order}
use axiotick.Core.FixedPoint.{normalize_order_scalars}
use axiotick.Risk.{RiskManager, normalize_symbol}
use axiotick.Risk.Positions.{trigger_kill_switch, reset_kill_switch, mark_to_market, maybe_roll_day}
use axiotick.Risk.Reservations.{
  check_order, on_fill, release_fill, add_filled, on_cancel, release_cancel,
}
use axiotick.Risk.Keeps.{book_fill-Keeps, mark_to_market-Keeps, maybe_roll_day-Keeps}

pub data Call (D : Type 0) : Type 0 where
  checks : Order D → Call D
  fills : Order D → Call D
  cancels : Order D → Call D
  marks : List ℕ → D → Call D
  rolls : ℕ → Call D
  triggers : Call D
  resets : Call D

abbrev pub AllRefused : List Bool → Type 0
AllRefused [] = Unit {0}
AllRefused (a ∷ rest) = (a ≡ false) × AllRefused rest

module _ {D : Type 0} ⦃f : Float D⦄ where
  unfoldable pub step : RiskManager D → Call D → RiskManager D
  step m (checks o) = (check_order o m).1
  step m (fills o) = on_fill o m
  step m (cancels o) = on_cancel o m
  step m (marks symbol price) = mark_to_market symbol price m
  step m (rolls now_ns) = maybe_roll_day now_ns m
  step m triggers = trigger_kill_switch m
  step m resets = reset_kill_switch m

  unfoldable pub run : RiskManager D → List (Call D) → RiskManager D
  unfolding step
  run m [] = m
  run m (c ∷ cs) = run (step m c) cs

  abbrev pub with_answer : RiskManager D → Call D → List Bool → List Bool
  with_answer m (checks o) rest = (check_order o m).0 ∷ rest
  with_answer m _ rest = rest

  -- The answers that a history's calls of `check_order` give.
  abbrev pub answers : RiskManager D → List (Call D) → List Bool
  answers m [] = []
  answers m (c ∷ cs) = with_answer m c (answers (step m c) cs)

  abbrev is_reset : Call D → Bool
  is_reset resets = true
  is_reset _ = false

  abbrev pub NoReset : List (Call D) → Type 0
  NoReset [] = Unit {0}
  NoReset (c ∷ cs) = (is_reset c ≡ false) × NoReset cs

  on_fill-switch :
      (o : Order D) (m : RiskManager D)
      → m.kill_switch_active ≡ true
      → (on_fill o m).kill_switch_active ≡ true
  unfolding on_fill release_fill
  on_fill-switch o m e =
      let n = normalize_order_scalars o in
      ground (
        arith,
        (book_fill-Keeps (normalize_symbol n.symbol) n (add_filled n (release_fill n m))).switch,
      )

  step-switch :
      (m : RiskManager D) (c : Call D)
      → m.kill_switch_active ≡ true
      → is_reset c ≡ false
      → (step m c).kill_switch_active ≡ true
  unfolding step check_order on_cancel release_cancel trigger_kill_switch
  step-switch m (checks o) e r = ground arith
  step-switch m (fills o) e r = on_fill-switch o m e
  step-switch m (cancels o) e r = ground arith
  step-switch m (marks symbol price) e r = (mark_to_market-Keeps symbol price m).switch e
  step-switch m (rolls now_ns) e r = (maybe_roll_day-Keeps now_ns m).switch e
  step-switch m triggers e r = ground arith
  step-switch m resets e r = absurd (ground arith)

  check_order_stopped :
      (o : Order D) (m : RiskManager D) → m.kill_switch_active ≡ true → (check_order o m).0 ≡ false
  unfolding check_order
  check_order_stopped o m e = rw e refl

  with_answer_stopped :
      (m : RiskManager D) (c : Call D) (rest : List Bool)
      → m.kill_switch_active ≡ true
      → AllRefused rest
      → AllRefused (with_answer m c rest)
  with_answer_stopped m (checks o) rest e a = (check_order_stopped o m e, a)
  with_answer_stopped m (fills o) rest e a = a
  with_answer_stopped m (cancels o) rest e a = a
  with_answer_stopped m (marks symbol price) rest e a = a
  with_answer_stopped m (rolls now_ns) rest e a = a
  with_answer_stopped m triggers rest e a = a
  with_answer_stopped m resets rest e a = a

  -- Once the kill switch is on, it stays on through any history of calls without a reset, days that
  -- roll over and fills included, and every order that the history asks about is refused.
  pub run-kill_switch :
      (cs : List (Call D)) (m : RiskManager D)
      → m.kill_switch_active ≡ true
      → NoReset cs
      → ((run m cs).kill_switch_active ≡ true) × AllRefused (answers m cs)
  unfolding run
  run-kill_switch [] m e k = (e, tt)
  run-kill_switch (c ∷ cs) m e (k, ks) =
      let rest = run-kill_switch cs (step m c) (step-switch m c e k) ks in
      (rest.0, with_answer_stopped m c (answers (step m c) cs) e rest.1)
