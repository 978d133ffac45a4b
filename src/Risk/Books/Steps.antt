-- ===== src/Risk/Books/Steps.antt =====
-- The operations of backend/modules/risk/src/risk_manager.cpp against the invariant of the books.
use axiotick.Common.{
  ℕ, ◌≡◌, sym, ◌∙◌, ap, inl, inr, Bool, Bool-cases, true, false, if◌then◌else◌, Option,
  Option-cases, List, [], ◌∷◌, ℤ, pos, leb_ℤ, ltb_ℤ, ◌<ℤ◌, min_ℤ, arith,
}
use axiotick.Core.Float.{Float, IsExtended}
use axiotick.Core.Order.{Order}
use axiotick.Core.FixedPoint.{normalize_order_scalars, signed_notional_units, to_notional_units}
use axiotick.Core.FixedPoint.Bounds.{normalize_bounds}
use axiotick.Core.Validator.{is_valid_order, validate_order, valid}
use axiotick.Risk.{RiskManager, RiskLimits, Reservation, new_risk_manager, normalize_symbol}
use axiotick.Risk.Positions.{trigger_kill_switch, reset_kill_switch}
use axiotick.Risk.Reservations.{
  check_order, release_cancel, on_cancel, on_fill, release_fill, add_filled,
}
use axiotick.Risk.Checks.{
  IsAdmissible, reserved, check_order_admits, check_order-IsAdmissible, check_order_refused,
}
use axiotick.Risk.Keeps.{Keeps, book_fill-Keeps, mark_to_market-Keeps, maybe_roll_day-Keeps}
use axiotick.Risk.History.{Call, checks, fills, cancels, marks, rolls, triggers, resets, step, run}
use axiotick.Risk.Books.{
  IsBooked, IsScalar, IsUnits, IsScalar-released, released-IsBooked, to_notional_units-InInt64,
  neg_ℤ-IsUnits, wrap_int64-add, try_add_units-InInt64,
}

Keeps-IsBooked :
    {D : Type 0} ⦃f : Float D⦄ (m m' : RiskManager D) → Keeps m m' → IsBooked m → IsBooked m'
Keeps-IsBooked m m' k b = record {
  reserved_scalars = λ id r e.
      b.reserved_scalars id r (ap (λ (g : ℕ → Option Reservation). g id) (sym k.reservations) ∙ e);
  committed = rw k.committed b.committed;
  filled = rw k.filled b.filled;
}

module _ {D : Type 0} ⦃f : Float D⦄ (x : IsExtended f) where
  release_fill-IsBooked :
      (n : Order D) (m : RiskManager D)
      → pos 0 <ℤ n.quantity_lots
      → IsBooked m
      → IsBooked (release_fill n m)
  unfolding release_fill
  release_fill-IsBooked n m h b = elim (Option-cases (m.reservations n.order_id)) [
    | inl e ↦ rw (release_fill, e) b
    | inr (r, e) ↦
        let (some_lots, s) =
          IsScalar-released r.reserved_price_ticks r.remaining_lots n.quantity_lots h
            (b.reserved_scalars n.order_id r e) in
        let releases : ltb_ℤ (pos 0) (min_ℤ n.quantity_lots r.remaining_lots) ≡ true =
          ground arith in
        rw (release_fill, e, releases) (released-IsBooked x m n.order_id r _ b e some_lots s)
  ]

  release_cancel-IsBooked :
      (n : Order D) (m : RiskManager D)
      → pos 0 <ℤ n.quantity_lots
      → IsBooked m
      → IsBooked (release_cancel n m)
  unfolding release_cancel
  release_cancel-IsBooked n m h b = elim (Option-cases (m.reservations n.order_id)) [
    | inl e ↦ rw (release_cancel, e) b
    | inr (r, e) ↦
        let (some_lots, s) =
          IsScalar-released r.reserved_price_ticks r.remaining_lots n.quantity_lots h
            (b.reserved_scalars n.order_id r e) in
        let releases : leb_ℤ (min_ℤ n.quantity_lots r.remaining_lots) (pos 0) ≡ false =
          ground arith in
        rw (release_cancel, e, releases) (released-IsBooked x m n.order_id r _ b e some_lots s)
  ]

  normalize-IsScalar :
      (o : Order D)
      → is_valid_order (normalize_order_scalars o) ≡ true
      → IsScalar (normalize_order_scalars o).price_ticks (normalize_order_scalars o).quantity_lots
  unfolding is_valid_order
  normalize-IsScalar o v =
      let passed : validate_order (normalize_order_scalars o) ≡ valid = ground arith in
      let (ticks_pos, ticks_le, lots_pos, lots_le) = normalize_bounds o passed in
      record { ticks_pos = ticks_pos; ticks_le = ticks_le; lots_pos = lots_pos; lots_le = lots_le }

  signed_notional_units-IsUnits :
      (n : Order D) → IsScalar n.price_ticks n.quantity_lots → IsUnits (signed_notional_units n)
  unfolding signed_notional_units
  signed_notional_units-IsUnits n s =
      let raw = to_notional_units-InInt64 f x n.price_ticks n.quantity_lots s in
      let negated = neg_ℤ-IsUnits (to_notional_units f n.price_ticks n.quantity_lots) raw in
      ground arith

  add_filled-IsBooked :
      (n : Order D) (m : RiskManager D)
      → IsScalar n.price_ticks n.quantity_lots
      → IsBooked m
      → IsBooked (add_filled n m)
  add_filled-IsBooked n m s b = record {
    reserved_scalars = b.reserved_scalars;
    committed = b.committed;
    filled = wrap_int64-add m.filled_exposure_units _ b.filled (signed_notional_units-IsUnits n s);
  }

  on_fill-IsBooked : (o : Order D) (m : RiskManager D) → IsBooked m → IsBooked (on_fill o m)
  unfolding on_fill
  on_fill-IsBooked o m b =
      let n = normalize_order_scalars o in
      elim (Bool-cases (is_valid_order n)) [
        | inr bad ↦ rw (on_fill, bad) b
        | inl good ↦
            let s = normalize-IsScalar o good in
            rw (on_fill, good)
              (Keeps-IsBooked _ _ (book_fill-Keeps (normalize_symbol n.symbol) n _)
                (add_filled-IsBooked n _ s (release_fill-IsBooked n m s.lots_pos b)))
      ]

  on_cancel-IsBooked : (o : Order D) (m : RiskManager D) → IsBooked m → IsBooked (on_cancel o m)
  unfolding on_cancel
  on_cancel-IsBooked o m b = elim (Bool-cases (is_valid_order (normalize_order_scalars o))) [
    | inr bad ↦ rw (on_cancel, bad) b
    | inl good ↦
        rw (on_cancel, good)
          (release_cancel-IsBooked (normalize_order_scalars o) m
            (normalize-IsScalar o good).lots_pos b)
  ]

  reserved-IsBooked :
      (n : Order D) (m : RiskManager D) (proposed : ℤ)
      → IsScalar n.price_ticks n.quantity_lots
      → IsAdmissible n m proposed
      → IsBooked m
      → IsBooked (reserved n proposed m)
  reserved-IsBooked n m proposed s a b = record {
    reserved_scalars = λ j q k. record {
      ticks_pos = ground (arith, s.ticks_pos, b.reserved_scalars j q);
      ticks_le = ground (arith, s.ticks_le, b.reserved_scalars j q);
      lots_pos = ground (arith, s.lots_pos, b.reserved_scalars j q);
      lots_le = ground (arith, s.lots_le, b.reserved_scalars j q);
    };
    committed = try_add_units-InInt64 m.committed_exposure_units _ proposed b.committed a.sum;
    filled = b.filled;
  }

  check_order-IsBooked :
      (o : Order D) (m : RiskManager D) → IsBooked m → IsBooked (check_order o m).1
  check_order-IsBooked o m b = elim (Bool-cases (check_order o m).0) [
    | inr refused ↦ rw (check_order_refused o m refused) b
    | inl passed ↦
        let a = check_order-IsAdmissible o m passed in
        rw (check_order_admits o m _ a) (
          reserved-IsBooked (normalize_order_scalars o) m _ (normalize-IsScalar o a.acceptable) a b)
  ]

  -- Either answer of a change to the kill switch.
  switched-IsBooked :
      (m : RiskManager D) (changes active : Bool)
      → IsBooked m
      → (IsBooked (if changes then m else record m { kill_switch_active = active }))
        × (IsBooked (if changes then record m { kill_switch_active = active } else m))
  switched-IsBooked m true active b = (
    b,
    record { reserved_scalars = b.reserved_scalars; committed = b.committed; filled = b.filled },
  )
  switched-IsBooked m false active b = (
    record { reserved_scalars = b.reserved_scalars; committed = b.committed; filled = b.filled },
    b,
  )

  step-IsBooked : (m : RiskManager D) (c : Call D) → IsBooked m → IsBooked (step m c)
  unfolding step trigger_kill_switch reset_kill_switch
  step-IsBooked m (checks o) b = check_order-IsBooked o m b
  step-IsBooked m (fills o) b = on_fill-IsBooked o m b
  step-IsBooked m (cancels o) b = on_cancel-IsBooked o m b
  step-IsBooked m (marks symbol price) b =
      Keeps-IsBooked m _ (mark_to_market-Keeps symbol price m) b
  step-IsBooked m (rolls now_ns) b = Keeps-IsBooked m _ (maybe_roll_day-Keeps now_ns m) b
  step-IsBooked m triggers b = (switched-IsBooked m m.kill_switch_active true b).0
  step-IsBooked m resets b = (switched-IsBooked m m.kill_switch_active false b).1

  run_from-IsBooked : (cs : List (Call D)) (m : RiskManager D) → IsBooked m → IsBooked (run m cs)
  unfolding run
  run_from-IsBooked [] m b = b
  run_from-IsBooked (c ∷ cs) m b = run_from-IsBooked cs (step m c) (step-IsBooked m c b)

  -- On extended-precision products, after any history of calls from the construction on, every
  -- reservation has positive price ticks and lots within the bounds of a valid order, and the
  -- committed and the filled exposure are values of `int64_t`.
  pub run-IsBooked :
      (limits : RiskLimits D) (cs : List (Call D)) → IsBooked (run (new_risk_manager limits) cs)
  run-IsBooked limits cs = run_from-IsBooked cs (new_risk_manager limits) (record {
    reserved_scalars = λ id r e. absurd (ground arith);
    committed = omega arith;
    filled = omega arith;
  })
