-- ===== src/Persist/Event.antt =====
-- `JournalEvent` of backend/include/persist/event_journal.hpp.
use axiotick.Common.{ℕ, Bool, ℤ}

pub data JournalEventType : Type 0 where
  order_accepted order_rejected trade_executed order_canceled : JournalEventType
  order_replaced gateway_rejected : JournalEventType

pub record JournalEvent : Type 0 where
  pub seq : ℕ
  pub timestamp_ns : ℕ
  pub type : JournalEventType
  pub order_id : ℕ
  pub related_order_id : ℕ
  pub price_ticks : ℤ
  pub quantity_lots : ℤ
  pub remaining_lots : ℤ
  pub reason_code : ℤ
  pub side : ℕ
  pub order_type : ℕ
  pub tif : ℕ
  pub resting : Bool
  pub related_signal_id : ℕ
  pub tick_id : ℕ
  pub enqueued_at_ns : ℕ
