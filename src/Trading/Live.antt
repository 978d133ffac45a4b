-- ===== src/Trading/Live.antt =====
-- The active orders that the calls of backend/modules/trading/src/order_manager.cpp write.
pub mod Submits
pub mod Steps
use axiotick.Common.{
  ℕ, ◌≡◌, ◌⊎◌, refl, inl, inr, sym, ◌∙◌, subst, Bool, Bool-cases, if◌then◌else◌, Option-cases,
  ◌==ℤ◌, true, false, Option, none, some, List, [], ◌∷◌, ℤ, pos, ◌<ℤ◌, ltb_ℤ, ◌==◌, Dict, find, put,
  remove, find-put, find-remove, arith,
}
use mathlib.Core.Option.{some-injective}
use axiotick.Core.Float.{Float}
use axiotick.Core.Order.{Order, Trade}
use axiotick.Engine.OrderBook.{Capacity}
use axiotick.Persist.Event.{JournalEvent}
use axiotick.Trading.{
  not_rejected, resting, partially_filled, OrderState, OrderManager, Clocks, now, emit_event,
  upsert_state,
}
use axiotick.Trading.Keeps.{SameDesk, emit_event-SameDesk}
use axiotick.Trading.Trades.{Taking, after_trade, apply_trade_to_maker, apply_trade, apply_trades}
use axiotick.Trading.Submit.{finish_resting, finish_done}
use axiotick.Trading.Changes.{retire, replace_state, reduce, rebook, cancel_lots}

module _ {D : Type 0} where
  -- An order that rests: it is not refused or done, and the lots it rests with are positive.
  pub record IsLive (s : OrderState D) : Type 0 where
    pub rests : (s.status ≡ resting) ⊎ (s.status ≡ partially_filled)
    pub lots_pos : pos 0 <ℤ s.remaining_lots
    pub order_lots : s.order.quantity_lots ≡ s.remaining_lots
    pub taken : s.reject_reason ≡ not_rejected

  abbrev pub AllLive : Dict (OrderState D) → Type 0
  AllLive d = (id : ℕ) (s : OrderState D) → find id d ≡ some s → IsLive s

  pub put-AllLive :
      (id : ℕ) (s : OrderState D) (d : Dict (OrderState D))
      → IsLive s
      → AllLive d
      → AllLive (put id s d)
  put-AllLive id s d live all other s' e = elim (Bool-cases (id == other)) [
    | inl same ↦
        let this : s ≡ s' = some-injective s s' (sym (find-put id other s d ∙ rw same refl) ∙ e) in
        subst IsLive this live
    | inr differs ↦ all other s' (sym (find-put id other s d ∙ rw differs refl) ∙ e)
  ]

  pub remove-AllLive : (id : ℕ) (d : Dict (OrderState D)) → AllLive d → AllLive (remove id d)
  remove-AllLive id d all other s e = elim (Bool-cases (id == other)) [
    | inl same ↦ absurd (ground (arith, find-remove id other d, same, e))
    | inr differs ↦ all other s (sym (find-remove id other d ∙ rw differs refl) ∙ e)
  ]

  -- A changed entry that is removed at once.
  remove-put-AllLive :
      (id : ℕ) (s : OrderState D) (d : Dict (OrderState D))
      → AllLive d
      → AllLive (remove id (put id s d))
  remove-put-AllLive id s d all other s' e = elim (Bool-cases (id == other)) [
    | inl same ↦ absurd (ground (arith, find-remove id other (put id s d), same, e))
    | inr differs ↦ all other s' (
        sym (
          find-remove id other (put id s d)
          ∙ (rw differs refl ∙ (find-put id other s d ∙ rw differs refl)))
        ∙ e)
  ]

  if-AllLive :
      (b : Bool) (x y : Dict (OrderState D))
      → (b ≡ true → AllLive x)
      → (b ≡ false → AllLive y)
      → AllLive (if b then x else y)
  if-AllLive true x y t e = t refl
  if-AllLive false x y t e = e refl

module _ {D : Type 0} ⦃f : Float D⦄ (clocks : Clocks) where
  -- What a write to the journal and the history leaves live.
  pub recorded-AllLive :
      (e : JournalEvent) (s : OrderState D) (m : OrderManager D)
      → AllLive m.active_orders
      → AllLive (emit_event clocks e (upsert_state s m)).active_orders
  unfolding upsert_state
  recorded-AllLive e s m all =
      subst AllLive (sym (emit_event-SameDesk clocks e (upsert_state s m)).active_orders) all

  after_trade-IsLive :
      (trade : Trade D) (time : ℕ) (s : OrderState D)
      → IsLive s
      → (after_trade clocks trade time s).remaining_lots ==ℤ pos 0 ≡ false
      → IsLive (after_trade clocks trade time s)
  after_trade-IsLive trade time s live e = record {
    rests = ground (arith, e);
    lots_pos = ground (arith, e);
    order_lots = refl;
    taken = live.taken;
  }

  apply_trade_to_maker-active_orders :
      (id : ℕ) (trade : Trade D) (m : OrderManager D) (s : OrderState D)
      → find id m.active_orders ≡ some s
      → let maker = after_trade clocks trade (now clocks m) s in
        (apply_trade_to_maker clocks id trade m).active_orders ≡ (
          if maker.remaining_lots ==ℤ pos 0
          then remove id (put id maker m.active_orders)
          else put id maker m.active_orders)
  unfolding apply_trade_to_maker upsert_state
  apply_trade_to_maker-active_orders id trade m s e = ground (arith, e)

  apply_trade_to_maker-AllLive :
      (id : ℕ) (trade : Trade D) (m : OrderManager D)
      → AllLive m.active_orders
      → AllLive (apply_trade_to_maker clocks id trade m).active_orders
  unfolding apply_trade_to_maker
  apply_trade_to_maker-AllLive id trade m all = elim (Option-cases (find id m.active_orders)) [
    | inl gone ↦ rw (apply_trade_to_maker, gone) all
    | inr (s, e) ↦
        let maker = after_trade clocks trade (now clocks m) s in
        subst AllLive (sym (apply_trade_to_maker-active_orders id trade m s e)) (
          if-AllLive (maker.remaining_lots ==ℤ pos 0) _ _
            (λ done. remove-put-AllLive id maker m.active_orders all)
            (λ more.
              put-AllLive id maker m.active_orders
                (after_trade-IsLive trade (now clocks m) s (all id s e) more) all))
  ]

  pub apply_trades-AllLive :
      (n : Order D) (signal tick : ℕ) (trades : List (Trade D)) (t : Taking D)
      → AllLive t.manager.active_orders
      → AllLive (apply_trades clocks n signal tick trades t).manager.active_orders
  unfolding apply_trades
  apply_trades-AllLive n signal tick [] t all = all
  apply_trades-AllLive n signal tick (trade ∷ trades) t all =
      apply_trades-AllLive n signal tick trades (apply_trade clocks n signal tick trade t) (
        apply_trade_to_maker-AllLive trade.maker_order_id trade _
          (subst AllLive (sym (emit_event-SameDesk clocks _ _).active_orders) all))
