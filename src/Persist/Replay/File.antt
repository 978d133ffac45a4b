-- ===== src/Persist/Replay/File.antt =====
-- The loop of `EventReplayer::replay_file` of backend/modules/persist/src/event_journal.cpp over the
-- lines of the file, with its checks of the sequence and of the time.
use axiotick.Common.{
  Bool, false, not, ◌&&◌, if◌then◌else◌, ltb, leb, ◌==◌, Option, none, some, List, [], ◌∷◌, ◌++◌,
  ◌+ℤ◌, Dict, put,
}
use axiotick.Common.Decimal.{Bytes}
use axiotick.Core.Float.{Float}
use axiotick.Persist.Event.{JournalEvent}
use axiotick.Persist.Line.{parse_event}
use axiotick.Persist.Replay.{ReplayOrderState, ReplaySummary, Replay, new_replay, next_u64}
use axiotick.Persist.Replay.Updates.{signed_notional_units, apply_type}

-- The lines that `std::getline` yields; `line` is what was read of the line so far.
unfoldable pub lines_of : Bytes → Bytes → List Bytes
lines_of [] [] = []
lines_of [] (c ∷ line) = (c ∷ line) ∷ []
lines_of (c ∷ text) line =
    let same = lines_of text (line ++ c ∷ []) in
    let next = lines_of text [] in if c == b'\n' then line ∷ next else same

abbrev pub is_gap : JournalEvent → Replay → Bool
is_gap event r = not (r.last_seq == 0) && not (event.seq == next_u64 r.last_seq)

-- The checks of the sequence and of the time, where a gap is not the end.
unfoldable pub checked : JournalEvent → Replay → Replay
checked event r =
    let s = r.summary in
    let gap = is_gap event r in
    record r {
      summary = record s {
        total_events = next_u64 s.total_events;
        monotonic_seq =
            if not (r.last_seq == 0) && leb event.seq r.last_seq then false else s.monotonic_seq;
        sequence_gaps = if gap then next_u64 s.sequence_gaps else s.sequence_gaps;
        gap_positions =
            if gap then s.gap_positions ++ next_u64 r.last_seq ∷ [] else s.gap_positions;
        monotonic_time =
            if not (r.last_ts == 0) && ltb event.timestamp_ns r.last_ts
            then false
            else s.monotonic_time;
      };
      last_seq = event.seq;
      last_ts = event.timestamp_ns;
    }

module _ {D : Type 0} (f : Float D) where
  unfoldable pub replay_event : Bool → JournalEvent → Replay → Option Replay
  replay_event strict_replay event r =
      if is_gap event r && strict_replay then none else some (apply_type f event (checked event r))

  unfoldable pub replay_events : Bool → List JournalEvent → Replay → Option Replay
  replay_events strict_replay [] r = some r
  replay_events strict_replay (event ∷ events) r = elim (replay_event strict_replay event r) [
    | none ↦ none
    | some r' ↦ replay_events strict_replay events r'
  ]

  -- The loop over the lines, of which the empty ones are passed over.
  unfoldable pub replay_lines : Bool → List Bytes → Replay → Option Replay
  replay_lines strict_replay [] r = some r
  replay_lines strict_replay ([] ∷ lines) r = replay_lines strict_replay lines r
  replay_lines strict_replay ((c ∷ s) ∷ lines) r = elim (parse_event (c ∷ s)) [
    | none ↦ none
    | some event ↦ elim (replay_event strict_replay event r) [
      | none ↦ none
      | some r' ↦ replay_lines strict_replay lines r'
    ]
  ]

  -- The last loop, over the active orders.
  unfoldable pub commit : Dict ReplayOrderState → ReplaySummary → ReplaySummary
  commit [] s = s
  commit ((id, st) ∷ active) s = commit active (record s {
    committed_exposure_units =
        s.committed_exposure_units
        +ℤ signed_notional_units f st.price_ticks st.remaining_lots st.side;
    order_history = put id st s.order_history;
  })

  abbrev pub finished : Option Replay → Option ReplaySummary
  finished none = none
  finished (some r) = some (commit r.summary.active_orders r.summary)

  -- A file is the text that it holds, or `none` where it cannot be opened.
  unfoldable pub replay_file : Bool → Option Bytes → Option ReplaySummary
  replay_file strict_replay none = none
  replay_file strict_replay (some text) =
      finished (replay_lines strict_replay (lines_of text []) new_replay)
