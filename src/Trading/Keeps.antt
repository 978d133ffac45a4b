-- ===== src/Trading/Keeps.antt =====
-- What the journal, the history and the booking of trades of
-- backend/modules/trading/src/order_manager.cpp leave alone.
use axiotick.Common.{ℕ, ◌≡◌, refl, ◌∙◌, List, [], ◌∷◌, arith}
use axiotick.Core.Float.{Float}
use axiotick.Core.Order.{Order, Trade}
use axiotick.Persist.Event.{JournalEvent}
use axiotick.Trading.{OrderState, OrderManager, Clocks, emit_event, upsert_state}
use axiotick.Trading.Trades.{Taking, apply_trade_to_maker, apply_trade, apply_trades}

module _ {D : Type 0} where
  -- The parts that a write to the journal or the history leaves alone.
  pub record SameDesk (m m' : OrderManager D) : Type 0 where
    pub risk_manager : m'.risk_manager ≡ m.risk_manager
    pub order_book : m'.order_book ≡ m.order_book
    pub active_orders : m'.active_orders ≡ m.active_orders

  pub upsert_state-SameDesk :
      (s : OrderState D) (m : OrderManager D) → SameDesk m (upsert_state s m)
  unfolding upsert_state
  upsert_state-SameDesk s m = record {
    risk_manager = refl;
    order_book = refl;
    active_orders = refl;
  }

  module _ (clocks : Clocks) where
    pub emit_event-SameDesk :
        (e : JournalEvent) (m : OrderManager D) → SameDesk m (emit_event clocks e m)
    unfolding emit_event
    emit_event-SameDesk e m = record {
      risk_manager = ground arith;
      order_book = ground arith;
      active_orders = ground arith;
    }

module _ {D : Type 0} ⦃f : Float D⦄ (clocks : Clocks) where
  apply_trade_to_maker-order_book :
      (id : ℕ) (trade : Trade D) (m : OrderManager D)
      → (apply_trade_to_maker clocks id trade m).order_book ≡ m.order_book
  unfolding apply_trade_to_maker upsert_state
  apply_trade_to_maker-order_book id trade m = ground arith

  pub apply_trades-order_book :
      (n : Order D) (signal tick : ℕ) (trades : List (Trade D)) (t : Taking D)
      → (apply_trades clocks n signal tick trades t).manager.order_book ≡ t.manager.order_book
  unfolding apply_trades
  apply_trades-order_book n signal tick [] t = refl
  apply_trades-order_book n signal tick (trade ∷ trades) t =
      apply_trades-order_book n signal tick trades (apply_trade clocks n signal tick trade t)
      ∙ (apply_trade_to_maker-order_book trade.maker_order_id trade _
          ∙ (emit_event-SameDesk clocks _ _).order_book)
