-- ===== src/Persist/Journal/Reopening.antt =====
-- `load_tail_stats` of backend/modules/persist/src/event_journal.cpp on the file of written events.
use axiotick.Common.{ℕ, ◌+◌, ◌≡◌, refl, sym, ap, ◌∙◌, some, List, [], ◌∷◌, length, arith}
use axiotick.Common.Decimal.{Bytes, codes}
use axiotick.Persist.Event.{JournalEvent}
use axiotick.Persist.Line.{event_line, parse_u64_field}
use axiotick.Persist.Line.RoundTrip.{unsigned_read}
use axiotick.Persist.Replay.File.{lines_of}
use axiotick.Persist.Replay.Lines.{
  journal_text, AllInRange, lines_of-append, one_line-event, event_line_starts,
}
use axiotick.Persist.Journal.{greater, tail_stats, load_tail_stats}
use axiotick.Persist.Journal.Numbering.{Numbered, last_time}

tail_stats-line :
    (s : Bytes) (lines : List Bytes) (c : ℕ) (line : Bytes) (seq ts max_seq max_ts : ℕ)
    → line ≡ c ∷ s
    → parse_u64_field (codes "seq") line ≡ some seq
    → parse_u64_field (codes "timestamp_ns") line ≡ some ts
    → tail_stats (line ∷ lines) max_seq max_ts
      ≡ tail_stats lines (greater max_seq seq) (greater max_ts ts)
unfolding tail_stats
tail_stats-line s lines c line seq ts max_seq max_ts e h h' =
    let number : parse_u64_field (codes "seq") (c ∷ s) ≡ some seq =
      ap (parse_u64_field (codes "seq")) (sym e) ∙ h in
    let time : parse_u64_field (codes "timestamp_ns") (c ∷ s) ≡ some ts =
      ap (parse_u64_field (codes "timestamp_ns")) (sym e) ∙ h' in
    rw e (rw (number, time) refl)

tail_stats-journal_text :
    (events : List JournalEvent) (last t : ℕ)
    → Numbered (last + 1) t events
    → AllInRange events
    → tail_stats (lines_of (journal_text events) []) last t
      ≡ (last + length events, last_time t events)
unfolding tail_stats lines_of
tail_stats-journal_text [] last t h all =
    let total : last ≡ last + 0 = omega arith in ap (λ (n : ℕ). (n, t)) total
tail_stats-journal_text (event ∷ events) last t (here, later, rest) (range, all) =
    let (s, starts) = event_line_starts event in
    let lines = lines_of (journal_text events) [] in
    let number : greater last event.seq ≡ last + 1 = ground (arith, here) in
    let time : greater t event.timestamp_ns ≡ event.timestamp_ns = ground (arith, later) in
    let total : last + 1 + length events ≡ last + length (event ∷ events) = omega arith in
    ap (λ (ls : List Bytes). tail_stats ls last t)
      (lines_of-append (event_line event) (journal_text events) [] (one_line-event event))
    ∙ tail_stats-line s lines b'{' (event_line event) event.seq event.timestamp_ns last t starts
        (unsigned_read event range (codes "seq") event.seq refl refl range.seq)
        (unsigned_read event range (codes "timestamp_ns") event.timestamp_ns refl refl
          range.timestamp_ns)
    ∙ rw (number, time) (tail_stats-journal_text events (last + 1) event.timestamp_ns rest all)
    ∙ ap (λ (n : ℕ). (n, last_time event.timestamp_ns events)) total

pub load_tail_stats-journal_text :
    (events : List JournalEvent)
    → Numbered 1 0 events
    → AllInRange events
    → load_tail_stats (journal_text events) ≡ (length events, last_time 0 events)
load_tail_stats-journal_text events numbered all =
    let total : 0 + length events ≡ length events = omega arith in
    tail_stats-journal_text events 0 0 numbered all ∙ ap (λ (n : ℕ). (n, last_time 0 events)) total
