-- ===== src/Persist/Line/RoundTrip.antt =====
-- What backend/modules/persist/src/event_journal.cpp reads back from a line that it wrote.
use axiotick.Common.{
  ℕ, ◌%◌, ◌^◌, ◌≤◌, ◌<◌, ◌≡◌, refl, true, some, ℤ, pos, negsuc, ◌≤ℤ◌, InInt64, arith,
}
use axiotick.Common.Decimal.{Bytes, codes}
use axiotick.Persist.Event.{
  JournalEventType, order_accepted, order_rejected, trade_executed, order_canceled, order_replaced,
  gateway_rejected, JournalEvent,
}
use axiotick.Persist.Line.{
  journal_event_type_to_string, journal_event_type_from_string, event_entries, event_line, unsigned,
  signed, parse_string_field, parse_bool_field, u64_max, wrap_i32, parse_u64_field, parse_i64_field,
  parse_i32_field, parse_event,
}
use axiotick.Persist.Line.Scan.{letters, is_word}
use axiotick.Persist.Line.Lookup.{spelled, value_of_key}
use axiotick.Persist.Line.Readings.{
  parse_u64_field-entry, parse_i64_field-entry, parse_bool_field-entry, parse_string_field-entry,
}

-- The fields of an event are in the ranges of their types.
pub record InRange (event : JournalEvent) : Type 0 where
  pub seq : event.seq ≤ u64_max
  pub timestamp_ns : event.timestamp_ns ≤ u64_max
  pub order_id : event.order_id ≤ u64_max
  pub related_order_id : event.related_order_id ≤ u64_max
  pub related_signal_id : event.related_signal_id ≤ u64_max
  pub tick_id : event.tick_id ≤ u64_max
  pub price_ticks : InInt64 event.price_ticks
  pub quantity_lots : InInt64 event.quantity_lots
  pub remaining_lots : InInt64 event.remaining_lots
  pub reason_code :
      (negsuc 2_147_483_647 ≤ℤ event.reason_code) × (event.reason_code ≤ℤ pos 2_147_483_647)
  pub side : event.side < 2 ^ 8
  pub order_type : event.order_type < 2 ^ 8
  pub tif : event.tif < 2 ^ 8

type_letters : (t : JournalEventType) → letters (journal_event_type_to_string t) ≡ true
type_letters order_accepted = refl
type_letters order_rejected = refl
type_letters trade_executed = refl
type_letters order_canceled = refl
type_letters order_replaced = refl
type_letters gateway_rejected = refl

journal_event_type_from_to_string :
    (t : JournalEventType)
    → journal_event_type_from_string (journal_event_type_to_string t) ≡ some t
unfolding journal_event_type_from_string
journal_event_type_from_to_string order_accepted = refl
journal_event_type_from_to_string order_rejected = refl
journal_event_type_from_to_string trade_executed = refl
journal_event_type_from_to_string order_canceled = refl
journal_event_type_from_to_string order_replaced = refl
journal_event_type_from_to_string gateway_rejected = refl

wrap_i32-small : (z : ℤ) → (negsuc 2_147_483_647 ≤ℤ z) × (z ≤ℤ pos 2_147_483_647) → wrap_i32 z ≡ z
wrap_i32-small (pos n) h = ground (arith, h)
wrap_i32-small (negsuc n) h = ground (arith, h)

pub spelled-event_entries : (event : JournalEvent) → spelled (event_entries event) ≡ true
spelled-event_entries event = rw (type_letters event.type) refl

module _ (event : JournalEvent) (range : InRange event) where
  pub unsigned_read :
      (key : Bytes) (n : ℕ)
      → is_word key ≡ true
      → value_of_key key (event_entries event) ≡ some (unsigned n)
      → n ≤ u64_max
      → parse_u64_field key (event_line event) ≡ some n
  unfolding event_line
  unsigned_read key n word e fits =
      parse_u64_field-entry key word (event_entries event) (spelled-event_entries event) n e fits

  signed_read :
      (key : Bytes) (z : ℤ)
      → is_word key ≡ true
      → value_of_key key (event_entries event) ≡ some (signed z)
      → InInt64 z
      → parse_i64_field key (event_line event) ≡ some z
  unfolding event_line
  signed_read key z word e fits =
      parse_i64_field-entry key word (event_entries event) (spelled-event_entries event) z e fits

  type_read :
      parse_string_field (codes "type") (event_line event)
      ≡ some (journal_event_type_to_string event.type)
  unfolding event_line
  type_read =
      parse_string_field-entry (codes "type") refl (event_entries event)
        (spelled-event_entries event) (journal_event_type_to_string event.type)
        (type_letters event.type) refl

  resting_read : parse_bool_field (codes "resting") (event_line event) ≡ some event.resting
  unfolding event_line
  resting_read =
      parse_bool_field-entry (codes "resting") refl (event_entries event)
        (spelled-event_entries event) event.resting refl

  reason_read : parse_i32_field (codes "reason_code") (event_line event) ≡ some event.reason_code
  unfolding parse_i32_field
  reason_read =
      rw
        (
          signed_read (codes "reason_code") event.reason_code refl refl
              (ground (arith, range.reason_code)),
          wrap_i32-small event.reason_code range.reason_code,
        )
        refl

  byte_read : (n : ℕ) → n < 2 ^ 8 → n % 2 ^ 8 ≡ n
  byte_read n h = omega (arith, h)

  pub parse_event-event_line :
      parse_event (event_line event) ≡ some (record event { enqueued_at_ns = 0 })
  unfolding parse_event
  parse_event-event_line =
      rw
        (
          unsigned_read (codes "seq") event.seq refl refl range.seq,
          unsigned_read (codes "timestamp_ns") event.timestamp_ns refl refl range.timestamp_ns,
          type_read,
          journal_event_type_from_to_string event.type,
          unsigned_read (codes "order_id") event.order_id refl refl range.order_id,
          unsigned_read (codes "related_order_id") event.related_order_id refl refl
              range.related_order_id,
          unsigned_read (codes "related_signal_id") event.related_signal_id refl refl
              range.related_signal_id,
          unsigned_read (codes "tick_id") event.tick_id refl refl range.tick_id,
          signed_read (codes "price_ticks") event.price_ticks refl refl range.price_ticks,
          signed_read (codes "quantity_lots") event.quantity_lots refl refl range.quantity_lots,
          signed_read (codes "remaining_lots") event.remaining_lots refl refl range.remaining_lots,
          reason_read,
          unsigned_read (codes "side") event.side refl refl (omega (arith, range.side)),
          unsigned_read (codes "order_type") event.order_type refl refl
              (omega (arith, range.order_type)),
          unsigned_read (codes "tif") event.tif refl refl (omega (arith, range.tif)),
          resting_read,
          byte_read event.side range.side,
          byte_read event.order_type range.order_type,
          byte_read event.tif range.tif,
        )
        refl
