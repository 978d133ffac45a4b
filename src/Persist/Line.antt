-- ===== src/Persist/Line.antt =====
-- One line of the journal's file, as backend/modules/persist/src/event_journal.cpp writes it and reads
-- it back: `write_event`, the `parse_…_field` functions, the names of the types of events, and the
-- part of the loop of `replay_file` that fills in an event. A text is a list of bytes.
pub mod Scan
pub mod Lookup
pub mod Readings
pub mod RoundTrip
use axiotick.Common.{
  ℕ, suc, ◌+◌, ◌-◌, ◌%◌, ◌^◌, Bool, true, false, not, ◌&&◌, ◌||◌, if◌then◌else◌, ltb, ◌==◌, Option,
  none, some, List, [], ◌∷◌, ◌++◌, ℤ, pos, negsuc,
}
use mathlib.Core.Option.{get_or}
use axiotick.Common.Decimal.{Bytes, codes, decimal, is_digit, leading_digits, value_of, saturate}
use axiotick.Persist.Event.{
  JournalEventType, order_accepted, order_rejected, trade_executed, order_canceled, order_replaced,
  gateway_rejected, JournalEvent,
}

infixl 5 ◌>>=◌
abbrev pub ◌>>=◌ : {A B : Type 0} → Option A → (A → Option B) → Option B
none >>= f = none
some a >>= f = f a

abbrev pub equal : Bytes → Bytes → Bool
equal [] [] = true
equal [] (b ∷ t) = false
equal (a ∷ s) [] = false
equal (a ∷ s) (b ∷ t) = a == b && equal s t

-- The values that stand behind the keys: the numbers, a text in quotes, a truth value.
pub data Value : Type 0 where
  unsigned : ℕ → Value
  signed : ℤ → Value
  name : Bytes → Value
  flag : Bool → Value

unfoldable pub value_text : Value → Bytes
value_text (unsigned n) = decimal n
value_text (signed (pos n)) = decimal n
value_text (signed (negsuc n)) = b'-' ∷ decimal (suc n)
value_text (name s) = b'"' ∷ s ++ b'"' ∷ []
value_text (flag true) = codes "true"
value_text (flag false) = codes "false"

-- The entries, the first behind `lead` and the others behind a comma, and the closing brace.
unfoldable pub entries_text : ℕ → List (Bytes × Value) → Bytes
entries_text lead [] = b'}' ∷ []
entries_text lead ((key, value) ∷ es) =
    lead ∷ b'"' ∷ (key ++ b'"' ∷ b':' ∷ (value_text value ++ entries_text b',' es))

abbrev pub journal_event_type_to_string : JournalEventType → Bytes
journal_event_type_to_string order_accepted = codes "order_accepted"
journal_event_type_to_string order_rejected = codes "order_rejected"
journal_event_type_to_string trade_executed = codes "trade_executed"
journal_event_type_to_string order_canceled = codes "order_canceled"
journal_event_type_to_string order_replaced = codes "order_replaced"
journal_event_type_to_string gateway_rejected = codes "gateway_rejected"

abbrev pub event_entries : JournalEvent → List (Bytes × Value)
event_entries event =
    (codes "seq", unsigned event.seq)
    ∷ (codes "timestamp_ns", unsigned event.timestamp_ns)
    ∷ (codes "type", name (journal_event_type_to_string event.type))
    ∷ (codes "order_id", unsigned event.order_id)
    ∷ (codes "related_order_id", unsigned event.related_order_id)
    ∷ (codes "related_signal_id", unsigned event.related_signal_id)
    ∷ (codes "tick_id", unsigned event.tick_id)
    ∷ (codes "price_ticks", signed event.price_ticks)
    ∷ (codes "quantity_lots", signed event.quantity_lots)
    ∷ (codes "remaining_lots", signed event.remaining_lots)
    ∷ (codes "reason_code", signed event.reason_code)
    ∷ (codes "side", unsigned event.side)
    ∷ (codes "order_type", unsigned event.order_type)
    ∷ (codes "tif", unsigned event.tif)
    ∷ (codes "resting", flag event.resting)
    ∷ []

-- The line that `write_event` writes, without its end.
unfoldable pub event_line : JournalEvent → Bytes
event_line event = entries_text b'{' (event_entries event)

unfoldable pub strip : Bytes → Bytes → Option Bytes
strip [] s = some s
strip (a ∷ m) [] = none
strip (a ∷ m) (b ∷ s) = let rest = strip m s in if a == b then rest else none

-- What follows the first occurrence of a marker, which `std::string::find` looks for.
unfoldable pub after : Bytes → Bytes → Option Bytes
after m [] = none
after m (c ∷ s) =
    let later = after m s in elim (strip m (c ∷ s)) [ none ↦ later | some rest ↦ some rest ]

abbrev pub marker : Bytes → Bytes → Bytes
marker key opening = b'"' ∷ key ++ b'"' ∷ b':' ∷ opening

abbrev pub skip_blanks : Bytes → Bytes
skip_blanks [] = []
skip_blanks (c ∷ s) = let rest = skip_blanks s in if c == b' ' || c == b'\t' then rest else c ∷ s

abbrev pub u64_max : ℕ
u64_max = 18_446_744_073_709_551_615

abbrev pub i64_max : ℕ
i64_max = 9_223_372_036_854_775_807

unfoldable pub read_u64 : Bytes → Option ℕ
read_u64 [] = none
read_u64 (c ∷ s) = some (saturate u64_max (value_of 0 (c ∷ s)))

unfoldable pub read_i64 : Bool → Bytes → Option ℤ
read_i64 negative [] = none
read_i64 negative (c ∷ s) =
    let n = value_of 0 (c ∷ s) in
    some
      (if negative && ltb 0 n then negsuc (saturate i64_max (n - 1)) else pos (saturate i64_max n))

abbrev pub signed_digits : Bytes → Option ℤ
signed_digits [] = none
signed_digits (c ∷ s) =
    if c == b'-' then read_i64 true (leading_digits s) else read_i64 false (leading_digits (c ∷ s))

unfoldable pub parse_u64_field : Bytes → Bytes → Option ℕ
parse_u64_field key json = do
  s ← after (marker key []) json
  read_u64 (leading_digits (skip_blanks s))

unfoldable pub parse_i64_field : Bytes → Bytes → Option ℤ
parse_i64_field key json = do s ← after (marker key []) json; signed_digits (skip_blanks s)

-- The conversion to 32 bits, in two's complement.
abbrev pub wrap_i32 : ℤ → ℤ
wrap_i32 (pos n) = let m = n % 2 ^ 32 in if ltb m (2 ^ 31) then pos m else negsuc (2 ^ 32 - 1 - m)
wrap_i32 (negsuc n) =
    let m = n % 2 ^ 32 in if ltb m (2 ^ 31) then negsuc m else pos (2 ^ 32 - 1 - m)

unfoldable pub parse_i32_field : Bytes → Bytes → Option ℤ
parse_i32_field key json = do n ← parse_i64_field key json; some (wrap_i32 n)

abbrev pub read_bool : Bytes → Option Bool
read_bool s = elim (strip (codes "true") s) [
  | some _ ↦ some true
  | none ↦ elim (strip (codes "false") s) [ some _ ↦ some false | none ↦ none ]
]

unfoldable pub parse_bool_field : Bytes → Bytes → Option Bool
parse_bool_field key json = do s ← after (marker key []) json; read_bool (skip_blanks s)

-- The text up to the quote that ends it: the first byte, or a later one not behind a backslash.
unfoldable pub until_quote : Bool → ℕ → Bytes → Option Bytes
until_quote first previous [] = none
until_quote first previous (c ∷ s) =
    let rest = until_quote false c s in
    if c == b'"' && (first || not (previous == b'\\'))
    then some []
    else elim rest [ none ↦ none | some t ↦ some (c ∷ t) ]

unfoldable pub parse_string_field : Bytes → Bytes → Option Bytes
parse_string_field key json = do s ← after (marker key (b'"' ∷ [])) json; until_quote true 0 s

unfoldable pub journal_event_type_from_string : Bytes → Option JournalEventType
journal_event_type_from_string raw =
    if equal raw (codes "order_accepted")
    then some order_accepted
    else if equal raw (codes "order_rejected")
    then some order_rejected
    else if equal raw (codes "trade_executed")
    then some trade_executed
    else if equal raw (codes "order_canceled")
    then some order_canceled
    else if equal raw (codes "order_replaced")
    then some order_replaced
    else if equal raw (codes "gateway_rejected")
    then some gateway_rejected
    else none

-- The event that `replay_file` makes of a line, or `none` where it gives up.
unfoldable pub parse_event : Bytes → Option JournalEvent
parse_event line = do
  seq ← parse_u64_field (codes "seq") line
  timestamp_ns ← parse_u64_field (codes "timestamp_ns") line
  type_raw ← parse_string_field (codes "type") line
  type ← journal_event_type_from_string type_raw
  some (record {
    seq = seq;
    timestamp_ns = timestamp_ns;
    type = type;
    order_id = get_or (parse_u64_field (codes "order_id") line) 0;
    related_order_id = get_or (parse_u64_field (codes "related_order_id") line) 0;
    related_signal_id = get_or (parse_u64_field (codes "related_signal_id") line) 0;
    tick_id = get_or (parse_u64_field (codes "tick_id") line) 0;
    price_ticks = get_or (parse_i64_field (codes "price_ticks") line) (pos 0);
    quantity_lots = get_or (parse_i64_field (codes "quantity_lots") line) (pos 0);
    remaining_lots = get_or (parse_i64_field (codes "remaining_lots") line) (pos 0);
    reason_code = get_or (parse_i32_field (codes "reason_code") line) (pos 0);
    side = get_or (parse_u64_field (codes "side") line) 0 % 2 ^ 8;
    order_type = get_or (parse_u64_field (codes "order_type") line) 0 % 2 ^ 8;
    tif = get_or (parse_u64_field (codes "tif") line) 0 % 2 ^ 8;
    resting = get_or (parse_bool_field (codes "resting") line) false;
    enqueued_at_ns = 0;
  })
