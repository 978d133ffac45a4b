-- ===== src/Persist/Journal/Numbering.antt =====
-- Lists of events as `AsyncEventJournal` of backend/modules/persist/src/event_journal.cpp numbers and
-- times them, and what `replay_file` reports of their files.
use axiotick.Common.{
  ℕ, ◌+◌, ◌^◌, ◌<◌, ◌≡◌, refl, sym, ap, subst, ◌∙◌, true, false, ◌||◌, ltb, ◌==◌, some, List, [],
  ◌∷◌, ◌++◌, length, arith,
}
use axiotick.Core.Float.{Float}
use axiotick.Persist.Event.{JournalEvent}
use axiotick.Persist.Line.RoundTrip.{InRange}
use axiotick.Persist.Replay.{ReplaySummary, new_replay, next_u64}
use axiotick.Persist.Replay.File.{commit, finished, replay_file}
use axiotick.Persist.Replay.Lines.{journal_text, AllInRange, replay_file-journal_text}
use axiotick.Persist.Replay.Gaps.{
  expected_numbers, rising_seq, rising_time, replay_events-checks, replay_events-total,
}
use axiotick.Persist.Replay.Strict.{replay_file-strict, commit_checks}

-- The events have the numbers from `n` on, and each time is later than the one before it, the first
-- than `t`; a time of 0 comes before every time.
abbrev pub Numbered : ℕ → ℕ → List JournalEvent → Type 0
Numbered n t [] = Unit {0}
Numbered n t (event ∷ events) =
    (event.seq ≡ n)
    × ((t == 0 || ltb t event.timestamp_ns) ≡ true)
    × Numbered (n + 1) event.timestamp_ns events

abbrev pub last_time : ℕ → List JournalEvent → ℕ
last_time t [] = t
last_time t (event ∷ events) = last_time event.timestamp_ns events

pub Numbered-append :
    (events : List JournalEvent) (event : JournalEvent) (n t : ℕ)
    → Numbered n t events
    → event.seq ≡ n + length events
    → (last_time t events == 0 || ltb (last_time t events) event.timestamp_ns) ≡ true
    → Numbered n t (events ++ event ∷ [])
Numbered-append [] event n t h seq time = (omega (arith, seq), time, tt)
Numbered-append (e ∷ events) event n t (here, later, rest) seq time = (
  here,
  later,
  Numbered-append events event (n + 1) e.timestamp_ns rest (omega (arith, seq)) time,
)

pub last_time-append :
    (events : List JournalEvent) (event : JournalEvent) (t : ℕ)
    → last_time t (events ++ event ∷ []) ≡ event.timestamp_ns
last_time-append [] event t = refl
last_time-append (e ∷ events) event t = last_time-append events event e.timestamp_ns

pub AllInRange-append :
    (events : List JournalEvent) (event : JournalEvent)
    → AllInRange events
    → InRange event
    → AllInRange (events ++ event ∷ [])
AllInRange-append [] event all range = (range, tt)
AllInRange-append (e ∷ events) event (here, all) range =
    (here, AllInRange-append events event all range)

-- A prefix is numbered as the whole is.
pub Numbered-prefix :
    (events more : List JournalEvent) (n t : ℕ)
    → Numbered n t (events ++ more)
    → Numbered n t events
Numbered-prefix [] more n t h = tt
Numbered-prefix (e ∷ events) more n t (here, later, rest) =
    (here, later, Numbered-prefix events more (n + 1) e.timestamp_ns rest)

pub AllInRange-prefix :
    (events more : List JournalEvent) → AllInRange (events ++ more) → AllInRange events
AllInRange-prefix [] more all = tt
AllInRange-prefix (e ∷ events) more (here, all) = (here, AllInRange-prefix events more all)

none_expected :
    (events : List JournalEvent) (last t : ℕ)
    → Numbered (last + 1) t events
    → AllInRange events
    → expected_numbers last events ≡ []
none_expected [] last t h all = refl
none_expected (e ∷ events) last t (here, later, rest) (range, all) =
    let after_it : Numbered (e.seq + 1) e.timestamp_ns events =
      subst (λ (n : ℕ). Numbered (n + 1) e.timestamp_ns events) (sym here) rest in
    let below : (e.seq == next_u64 last) ≡ true = ground (arith, here, range.seq) in
    ground (arith, below, none_expected events e.seq e.timestamp_ns after_it all)

all_rising :
    (events : List JournalEvent) (last t : ℕ)
    → Numbered (last + 1) t events
    → rising_seq last events ≡ true
all_rising [] last t h = refl
all_rising (e ∷ events) last t (here, later, rest) =
    let after_it : Numbered (e.seq + 1) e.timestamp_ns events =
      subst (λ (n : ℕ). Numbered (n + 1) e.timestamp_ns events) (sym here) rest in
    ground (arith, here, all_rising events e.seq e.timestamp_ns after_it)

times_rising :
    (events : List JournalEvent) (n t : ℕ) → Numbered n t events → rising_time t events ≡ true
times_rising [] n t h = refl
times_rising (e ∷ events) n t (here, later, rest) =
    ground (arith, later, times_rising events (n + 1) e.timestamp_ns rest)

-- What a strict replay reports of a file that can be read to the end.
pub record Clean (s : ReplaySummary) : Type 0 where
  pub no_gap : s.gap_positions ≡ []
  pub rising_seqs : s.monotonic_seq ≡ true
  pub rising_times : s.monotonic_time ≡ true

pub replay_file-Numbered :
    {D : Type 0} (f : Float D) (events : List JournalEvent)
    → Numbered 1 0 events
    → AllInRange events
    → length events < 2 ^ 64
    → (s : ReplaySummary) × (replay_file f true (some (journal_text events)) ≡ some s)
      × Clean s
      × (s.total_events ≡ length events)
replay_file-Numbered f events numbered all below =
    let (r, runs, gaps, rises, times) = replay_events-checks f events new_replay in
    let active = r.summary.active_orders in
    let kept = commit_checks f active r.summary in
    let done : replay_file f false (some (journal_text events)) ≡ some (commit f active r.summary) =
      (replay_file-journal_text f false events all).1 ∙ ap (finished f) runs in
    let clean : (commit f active r.summary).gap_positions ≡ [] =
      kept.0 ∙ gaps ∙ none_expected events 0 0 numbered all in
    (
      commit f active r.summary,
      replay_file-strict f (some (journal_text events)) ∙ rw (done, clean) refl,
      record {
        no_gap = clean;
        rising_seqs = kept.1 ∙ rises ∙ all_rising events 0 0 numbered;
        rising_times = kept.2 ∙ times ∙ times_rising events 1 0 numbered;
      },
      omega (arith, kept.3, replay_events-total f events new_replay r runs (omega (arith, below))),
    )
