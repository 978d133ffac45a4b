-- ===== src/Persist/Replay/Lines.antt =====
-- The journal's file, as backend/modules/persist/src/event_journal.cpp leaves it, read back by
-- `replay_file` of the same file.
use axiotick.Common.{
  map, ℕ, zero, suc, ◌+◌, ◌/◌, ◌%◌, ◌≡◌, refl, sym, ap, ◌∙◌, inl, inr, Bool, Option-cases, true,
  false, not, ◌&&◌, ◌==◌, Option, none, some, List, [], ◌∷◌, ◌++◌, pos, negsuc, arith,
}
use mathlib.Core.List.{append-nil, append_assoc}
use axiotick.Common.Decimal.{Bytes, digits_before, decimal}
use axiotick.Core.Float.{Float}
use axiotick.Persist.Event.{JournalEvent}
use axiotick.Persist.Line.{
  Value, unsigned, signed, name, flag, value_text, entries_text, event_entries, event_line,
  parse_event,
}
use axiotick.Persist.Line.Scan.{letters, spells}
use axiotick.Persist.Line.Lookup.{spelled, letters_of_word}
use axiotick.Persist.Line.RoundTrip.{InRange, spelled-event_entries, parse_event-event_line}
use axiotick.Persist.Replay.{Replay, new_replay}
use axiotick.Persist.Replay.Updates.{
  apply_type, apply_accepted, apply_rejected, apply_trade_event, apply_canceled, apply_replaced,
  add_party,
}
use axiotick.Persist.Replay.File.{
  lines_of, checked, replay_event, replay_events, replay_lines, finished, replay_file,
}

-- What `write_event` leaves of some events, one after the other.
abbrev pub journal_text : List JournalEvent → Bytes
journal_text [] = []
journal_text (event ∷ events) = event_line event ++ b'\n' ∷ journal_text events

abbrev pub AllInRange : List JournalEvent → Type 0
AllInRange [] = Unit {0}
AllInRange (event ∷ events) = InRange event × AllInRange events

pub one_line : Bytes → Bool
one_line [] = true
one_line (c ∷ s) = not (c == b'\n') && one_line s

one_line-append : (s t : Bytes) → one_line (s ++ t) ≡ (one_line s && one_line t)
unfolding one_line
one_line-append [] t = refl
one_line-append (c ∷ s) t = ground (arith, one_line-append s t)

one_line-letters : (s : Bytes) → letters s ≡ true → one_line s ≡ true
unfolding one_line
one_line-letters [] h = refl
one_line-letters (c ∷ s) h = ground (arith, h, one_line-letters s)

one_line-digits_before :
    (fuel n : ℕ) (out : Bytes) → one_line (digits_before fuel n out) ≡ one_line out
unfolding one_line digits_before
one_line-digits_before zero n out = ground arith
one_line-digits_before (suc fuel) n out =
    ground (arith, one_line-digits_before fuel (n / 10) ((48 + n % 10) ∷ out))

one_line-decimal : (n : ℕ) → one_line (decimal n) ≡ true
unfolding one_line decimal
one_line-decimal n = one_line-digits_before n n []

one_line-value : (value : Value) → spells value ≡ true → one_line (value_text value) ≡ true
unfolding one_line value_text
one_line-value (unsigned n) h = one_line-decimal n
one_line-value (signed (pos n)) h = one_line-decimal n
one_line-value (signed (negsuc n)) h = one_line-decimal (suc n)
one_line-value (name s) h = rw (one_line-append s, one_line-letters s h) refl
one_line-value (flag true) h = refl
one_line-value (flag false) h = refl

one_line-entries :
    (es : List (Bytes × Value)) (lead : ℕ)
    → (lead == b'\n') ≡ false
    → spelled es ≡ true
    → one_line (entries_text lead es) ≡ true
unfolding one_line entries_text
one_line-entries [] lead h all = refl
one_line-entries ((k, v) ∷ es) lead h all =
    let key : one_line k ≡ true = one_line-letters k (letters_of_word k (ground (arith, all))) in
    let value : one_line (value_text v) ≡ true = one_line-value v (ground (arith, all)) in
    let rest : one_line (entries_text b',' es) ≡ true =
      one_line-entries es b',' refl (ground (arith, all)) in
    rw (one_line-append k, key, one_line-append (value_text v), value, rest, h) refl

pub one_line-event : (event : JournalEvent) → one_line (event_line event) ≡ true
unfolding event_line
one_line-event event =
    one_line-entries (event_entries event) b'{' refl (spelled-event_entries event)

pub lines_of-append :
    (s rest line : Bytes)
    → one_line s ≡ true
    → lines_of (s ++ b'\n' ∷ rest) line ≡ (line ++ s) ∷ lines_of rest []
unfolding one_line lines_of
lines_of-append [] rest line h = rw append-nil refl
lines_of-append (c ∷ s) rest line h =
    let stays : (c == b'\n') ≡ false = ground (arith, h) in
    let later : one_line s ≡ true = ground (arith, h) in
    rw (stays, lines_of-append s rest (line ++ c ∷ []) later, append_assoc) refl

-- A line of an event starts with the brace, so it is not empty.
pub event_line_starts : (event : JournalEvent) → (s : Bytes) × (event_line event ≡ b'{' ∷ s)
unfolding event_line entries_text
event_line_starts event = (_, refl)

parse_event-journal_text :
    (events : List JournalEvent)
    → AllInRange events
    → map parse_event (lines_of (journal_text events) [])
      ≡ map (λ (event : JournalEvent). some (record event { enqueued_at_ns = 0 })) events
parse_event-journal_text [] all = unfold lines_of in refl
parse_event-journal_text (event ∷ events) (range, all) =
    let first =
      lines_of-append (event_line event) (journal_text events) [] (one_line-event event) in
    rw (first, parse_event-event_line event range, parse_event-journal_text events all) refl

module _ {D : Type 0} (f : Float D) (strict_replay : Bool) where
  -- The time at which an event was enqueued is not written, and not looked at.
  replay_event-stored :
      (event : JournalEvent) (r : Replay)
      → replay_event f strict_replay (record event { enqueued_at_ns = 0 }) r
        ≡ replay_event f strict_replay event r
  unfolding replay_event checked apply_type apply_accepted apply_rejected apply_trade_event
      apply_canceled apply_replaced add_party
  replay_event-stored event r = refl

  replay_lines-step :
      (s : Bytes) (lines : List Bytes) (c : ℕ) (line : Bytes) (event : JournalEvent) (r : Replay)
      → line ≡ c ∷ s
      → parse_event line ≡ some (record event { enqueued_at_ns = 0 })
      → replay_lines f strict_replay (line ∷ lines) r
        ≡ (elim (replay_event f strict_replay event r) as (λ _. Option Replay) [
          | none ↦ none
          | some r' ↦ replay_lines f strict_replay lines r'
        ])
  unfolding replay_lines
  replay_lines-step s lines c line event r e parsed =
      rw e (rw (sym (ap parse_event e) ∙ parsed) (rw (replay_event-stored event r) refl))

  replay_lines-journal_text :
      (events : List JournalEvent) (r : Replay)
      → AllInRange events
      → replay_lines f strict_replay (lines_of (journal_text events) []) r
        ≡ replay_events f strict_replay events r
  unfolding replay_events
  replay_lines-journal_text [] r all = unfold replay_lines replay_events lines_of in refl
  replay_lines-journal_text (event ∷ events) r (range, all) =
      let (s, starts) = event_line_starts event in
      let lines = lines_of (journal_text events) [] in
      ap (λ (ls : List Bytes). replay_lines f strict_replay ls r)
        (lines_of-append (event_line event) (journal_text events) [] (one_line-event event))
      ∙ replay_lines-step s lines b'{' (event_line event) event r starts
          (parse_event-event_line event range)
      ∙ elim (Option-cases (replay_event f strict_replay event r)) [
        | inl refused ↦ rw (replay_events, refused) refl
        | inr (r', goes) ↦ rw (replay_events, goes) (replay_lines-journal_text events r' all)
      ]

  -- A file of written events is read line by line as these events, with every field that is written
  -- as it was and with no time of enqueueing, whatever the numbers in the fields are, if each is in
  -- the range of its type; and its replay, strict or not, is that of the list of the events.
  pub replay_file-journal_text :
      (events : List JournalEvent)
      → AllInRange events
      → (map parse_event (lines_of (journal_text events) [])
          ≡ map (λ (event : JournalEvent). some (record event { enqueued_at_ns = 0 })) events)
        × (replay_file f strict_replay (some (journal_text events))
            ≡ finished f (replay_events f strict_replay events new_replay))
  unfolding replay_file
  replay_file-journal_text events all = (
    parse_event-journal_text events all,
    ap (finished f) (replay_lines-journal_text events new_replay all),
  )
