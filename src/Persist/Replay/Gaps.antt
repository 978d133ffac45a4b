-- ===== src/Persist/Replay/Gaps.antt =====
-- The checks of the sequence in `replay_file` of backend/modules/persist/src/event_journal.cpp.
use axiotick.Common.{
  ℕ, ◌+◌, ◌^◌, ◌≡◌, refl, sym, ap, ◌∙◌, inl, inr, Bool, Bool-cases, true, false, ◌&&◌, ◌||◌,
  if◌then◌else◌, ltb, leb, ◌==◌, some, List, [], ◌∷◌, ◌++◌, ℤ, length, ◌<◌, arith,
}
use mathlib.Core.List.{append-nil, append_assoc}
use axiotick.Core.Float.{Float}
use axiotick.Persist.Event.{JournalEvent}
use axiotick.Persist.Replay.{Replay, next_u64}
use axiotick.Persist.Replay.Updates.{
  apply_fill, apply_type, apply_accepted, apply_rejected, apply_trade_event, apply_canceled,
  apply_replaced, add_party,
}
use axiotick.Persist.Replay.File.{is_gap, checked, replay_event, replay_events}

-- The numbers that an event should have had, where it does not have the one behind that of the event
-- before it: one for each such event, however many numbers it skips, and also where the numbers fall
-- back. An event that is numbered 0 is followed by any number.
abbrev pub expected_numbers : ℕ → List JournalEvent → List ℕ
expected_numbers last [] = []
expected_numbers last (event ∷ events) =
    let rest = expected_numbers event.seq events in
    if last == 0 || event.seq == next_u64 last then rest else next_u64 last ∷ rest

-- No number, or time, is less than (or equal to) the one before it.
abbrev pub rising_seq : ℕ → List JournalEvent → Bool
rising_seq last [] = true
rising_seq last (event ∷ events) = (last == 0 || ltb last event.seq) && rising_seq event.seq events

abbrev pub rising_time : ℕ → List JournalEvent → Bool
rising_time last [] = true
rising_time last (event ∷ events) =
    (last == 0 || leb last event.timestamp_ns) && rising_time event.timestamp_ns events

-- What the types of events leave as it is.
pub record SameChecks (r r' : Replay) : Type 0 where
  pub seq : r'.last_seq ≡ r.last_seq
  pub ts : r'.last_ts ≡ r.last_ts
  pub gaps : r'.summary.gap_positions ≡ r.summary.gap_positions
  pub rises : r'.summary.monotonic_seq ≡ r.summary.monotonic_seq
  pub time : r'.summary.monotonic_time ≡ r.summary.monotonic_time
  pub total : r'.summary.total_events ≡ r.summary.total_events

apply_fill-SameChecks : (id : ℕ) (lots : ℤ) (r : Replay) → SameChecks r (apply_fill id lots r)
unfolding apply_fill
apply_fill-SameChecks id lots r = record {
  seq = ground arith;
  ts = ground arith;
  gaps = ground arith;
  rises = ground arith;
  time = ground arith;
  total = ground arith;
}

module _ {D : Type 0} (f : Float D) where
  apply_trade_event-SameChecks :
      (event : JournalEvent) (r : Replay) → SameChecks r (apply_trade_event f event r)
  unfolding apply_trade_event add_party
  apply_trade_event-SameChecks event r =
      let counted = record r {
        summary = record r.summary { trades = next_u64 r.summary.trades };
      } in
      let taken = apply_fill event.order_id event.quantity_lots counted in
      let first = apply_fill-SameChecks event.order_id event.quantity_lots counted in
      let second = apply_fill-SameChecks event.related_order_id event.quantity_lots taken in
      let begins : SameChecks r taken = record {
        seq = first.seq;
        ts = first.ts;
        gaps = first.gaps;
        rises = first.rises;
        time = first.time;
        total = first.total;
      } in
      elim (Bool-cases (event.related_order_id == 0)) [
        | inl alone ↦ rw alone (record {
          seq = begins.seq;
          ts = begins.ts;
          gaps = begins.gaps;
          rises = begins.rises;
          time = begins.time;
          total = begins.total;
        })
        | inr both ↦ rw both (record {
          seq = second.seq ∙ begins.seq;
          ts = second.ts ∙ begins.ts;
          gaps = second.gaps ∙ begins.gaps;
          rises = second.rises ∙ begins.rises;
          time = second.time ∙ begins.time;
          total = second.total ∙ begins.total;
        })
      ]

  pub apply_type-SameChecks :
      (event : JournalEvent) (r : Replay) → SameChecks r (apply_type f event r)
  unfolding apply_type apply_accepted apply_rejected apply_canceled apply_replaced
  apply_type-SameChecks event r =
      let made = apply_trade_event-SameChecks event r in
      record {
        seq = ground (arith, made.seq);
        ts = ground (arith, made.ts);
        gaps = ground (arith, made.gaps);
        rises = ground (arith, made.rises);
        time = ground (arith, made.time);
        total = ground (arith, made.total);
      }

  -- One event that is not refused.
  pub after_event :
      (event : JournalEvent) (r : Replay)
      → (r' : Replay) × (replay_event f false event r ≡ some r')
        × (r'.last_seq ≡ event.seq)
        × (r'.last_ts ≡ event.timestamp_ns)
        × (r'.summary.gap_positions ≡ (
            if is_gap event r
            then r.summary.gap_positions ++ next_u64 r.last_seq ∷ []
            else r.summary.gap_positions))
        × (r'.summary.monotonic_seq
            ≡ (r.summary.monotonic_seq && (r.last_seq == 0 || ltb r.last_seq event.seq)))
        × (r'.summary.monotonic_time
            ≡ (r.summary.monotonic_time && (r.last_ts == 0 || leb r.last_ts event.timestamp_ns)))
        × (r'.summary.total_events ≡ next_u64 r.summary.total_events)
  unfolding replay_event checked
  after_event event r =
      let checks = apply_type-SameChecks event (checked event r) in
      (
        apply_type f event (checked event r),
        ground arith,
        checks.seq,
        checks.ts,
        checks.gaps,
        checks.rises ∙ ground arith,
        checks.time ∙ ground arith,
        checks.total,
      )

  -- A replay that is not strict takes every list of events. For each event that does not have the
  -- number behind that of the event before it, where that is not 0, it adds the number behind to its
  -- list of gaps, one for each such event. It says whether the number of each event is greater than
  -- that of the event before it, and whether no time is less than the one before it, where those
  -- before are not 0.
  pub replay_events-checks :
      (events : List JournalEvent) (r : Replay)
      → (r' : Replay) × (replay_events f false events r ≡ some r')
        × (r'.summary.gap_positions ≡ r.summary.gap_positions ++ expected_numbers r.last_seq events)
        × (r'.summary.monotonic_seq ≡ (r.summary.monotonic_seq && rising_seq r.last_seq events))
        × (r'.summary.monotonic_time ≡ (r.summary.monotonic_time && rising_time r.last_ts events))
  unfolding replay_events
  replay_events-checks [] r = (r, refl, sym (append-nil _), ground arith, ground arith)
  replay_events-checks (event ∷ events) r =
      let (r1, goes, seq, ts, gaps, rises, time, total) = after_event event r in
      let (r2, rest, gaps', rises', time') = replay_events-checks events r1 in
      (
        r2,
        rw (replay_events, goes) rest,
        gaps'
            ∙ rw (gaps, seq)
                (elim (Bool-cases (is_gap event r)) [
                  | inl gap ↦
                      let behind : (r.last_seq == 0 || event.seq == next_u64 r.last_seq) ≡ false =
                        ground (arith, gap) in
                      rw (gap, behind)
                        (append_assoc r.summary.gap_positions (next_u64 r.last_seq ∷ []) _)
                  | inr none_here ↦
                      let behind : (r.last_seq == 0 || event.seq == next_u64 r.last_seq) ≡ true =
                        ground (arith, none_here) in
                      rw (none_here, behind) refl
                ]),
        rises' ∙ rw (rises, seq) (ground arith),
        time' ∙ rw (time, ts) (ground arith),
      )

  -- Every event is counted.
  pub replay_events-total :
      (events : List JournalEvent) (r r' : Replay)
      → replay_events f false events r ≡ some r'
      → r.summary.total_events + length events < 2 ^ 64
      → r'.summary.total_events ≡ r.summary.total_events + length events
  unfolding replay_events
  replay_events-total [] r r' e below =
      let same : r' ≡ r = cc in ap (λ (q : Replay). q.summary.total_events) same ∙ omega arith
  replay_events-total (event ∷ events) r r' e below =
      let (r1, goes, seq, ts, gaps, rises, time, total) = after_event event r in
      let rest : replay_events f false events r1 ≡ some r' =
        sym (rw (replay_events, goes) refl) ∙ e in
      let counted : r1.summary.total_events ≡ r.summary.total_events + 1 =
        omega (arith, total, below) in
      omega (
        arith,
        counted,
        below,
        replay_events-total events r1 r' rest (omega (arith, counted, below)),
      )
