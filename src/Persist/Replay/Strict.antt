-- ===== src/Persist/Replay/Strict.antt =====
-- The strict mode of `replay_file` of backend/modules/persist/src/event_journal.cpp.
use axiotick.Common.{
  ℕ, ◌≡◌, refl, sym, ap, ◌∙◌, inl, inr, Bool, Bool-cases, Option-cases, true, false, if◌then◌else◌,
  Option, none, some, List, [], ◌∷◌, ◌++◌, Dict, arith,
}
use mathlib.Core.List.{append-nil, append_assoc}
use axiotick.Common.Decimal.{Bytes}
use axiotick.Core.Float.{Float}
use axiotick.Persist.Event.{JournalEvent}
use axiotick.Persist.Line.{parse_event}
use axiotick.Persist.Replay.{ReplayOrderState, ReplaySummary, Replay, new_replay, next_u64}
use axiotick.Persist.Replay.File.{
  is_gap, replay_event, replay_lines, commit, finished, replay_file, lines_of,
}
use axiotick.Persist.Replay.Gaps.{after_event}

abbrev pub is_empty : List ℕ → Bool
is_empty [] = true
is_empty (n ∷ ns) = false

-- A summary that reports no gap.
abbrev pub gapless : Option ReplaySummary → Option ReplaySummary
gapless none = none
gapless (some s) = if is_empty s.gap_positions then some s else none

module _ {D : Type 0} (f : Float D) where
  pub commit_checks :
      (active : Dict ReplayOrderState) (s : ReplaySummary)
      → let after = commit f active s in
        (after.gap_positions ≡ s.gap_positions)
        × (after.monotonic_seq ≡ s.monotonic_seq)
        × (after.monotonic_time ≡ s.monotonic_time)
        × (after.total_events ≡ s.total_events)
  unfolding commit
  commit_checks [] s = (refl, refl, refl, refl)
  commit_checks ((id, st) ∷ active) s = commit_checks active _

  replay_event-strict :
      (event : JournalEvent) (r : Replay)
      → replay_event f true event r
        ≡ (if is_gap event r then none else replay_event f false event r)
  unfolding replay_event
  replay_event-strict event r = ground arith

  module _ (strict : Bool) (c : ℕ) (s : Bytes) (lines : List Bytes) (r : Replay) where
    pub stops : parse_event (c ∷ s) ≡ none → replay_lines f strict ((c ∷ s) ∷ lines) r ≡ none
    unfolding replay_lines
    stops bad = rw (replay_lines, bad) refl

    pub refuses :
        (event : JournalEvent)
        → parse_event (c ∷ s) ≡ some event
        → replay_event f strict event r ≡ none
        → replay_lines f strict ((c ∷ s) ∷ lines) r ≡ none
    unfolding replay_lines
    refuses event parsed bad = rw (replay_lines, parsed, bad) refl

    pub goes_on :
        (event : JournalEvent) (r' : Replay)
        → parse_event (c ∷ s) ≡ some event
        → replay_event f strict event r ≡ some r'
        → replay_lines f strict ((c ∷ s) ∷ lines) r ≡ replay_lines f strict lines r'
    unfolding replay_lines
    goes_on event r' parsed goes = rw (replay_lines, parsed, goes) refl

  -- A gap that was reported stays reported.
  replay_lines-grows :
      (lines : List Bytes) (r r' : Replay)
      → replay_lines f false lines r ≡ some r'
      → (more : List ℕ) × (r'.summary.gap_positions ≡ r.summary.gap_positions ++ more)
  unfolding replay_lines
  replay_lines-grows [] r r' e =
      let same : r' ≡ r = cc in
      ([], ap (λ (q : Replay). q.summary.gap_positions) same ∙ sym (append-nil _))
  replay_lines-grows ([] ∷ lines) r r' e = replay_lines-grows lines r r' e
  replay_lines-grows ((c ∷ s) ∷ lines) r r' e = elim (Option-cases (parse_event (c ∷ s))) [
    | inl bad ↦ let gone = stops false c s lines r bad in absurd (cc)
    | inr (event, parsed) ↦
        let (r1, goes, seq, ts, gaps, rises, time, total) = after_event f event r in
        let rest : replay_lines f false lines r1 ≡ some r' =
          sym (goes_on false c s lines r event r1 parsed goes) ∙ e in
        let (more, grown) = replay_lines-grows lines r1 r' rest in
        elim (Bool-cases (is_gap event r)) [
          | inl gap ↦ (
            next_u64 r.last_seq ∷ more,
            grown
                ∙ rw (gaps, gap)
                    (append_assoc r.summary.gap_positions (next_u64 r.last_seq ∷ []) more),
          )
          | inr none_here ↦ (more, grown ∙ rw (gaps, none_here) refl)
        ]
  ]

  abbrev end : Bool → List Bytes → Replay → Option ReplaySummary
  end strict lines r = finished f (replay_lines f strict lines r)

  reported :
      (lines : List Bytes) (r : Replay) (n : ℕ)
      → r.summary.gap_positions ≡ n ∷ []
      → gapless (end false lines r) ≡ none
  reported lines r n gaps = elim (Option-cases (replay_lines f false lines r)) [
    | inl gone ↦ rw gone refl
    | inr (r', e) ↦
        let (more, grown) = replay_lines-grows lines r r' e in
        let listed : (commit f r'.summary.active_orders r'.summary).gap_positions ≡ n ∷ more =
          (commit_checks r'.summary.active_orders r'.summary).0 ∙ grown ∙ rw gaps refl in
        rw (e, listed) refl
  ]

  replay_lines-strict :
      (lines : List Bytes) (r : Replay)
      → r.summary.gap_positions ≡ []
      → end true lines r ≡ gapless (end false lines r)
  unfolding replay_lines
  replay_lines-strict [] r clean =
      let listed : (commit f r.summary.active_orders r.summary).gap_positions ≡ [] =
        (commit_checks r.summary.active_orders r.summary).0 ∙ clean in
      rw listed refl
  replay_lines-strict ([] ∷ lines) r clean = replay_lines-strict lines r clean
  replay_lines-strict ((c ∷ s) ∷ lines) r clean = elim (Option-cases (parse_event (c ∷ s))) [
    | inl bad ↦ rw (stops true c s lines r bad, stops false c s lines r bad) refl
    | inr (event, parsed) ↦
        let (r1, goes, seq, ts, gaps, rises, time, total) = after_event f event r in
        let later : replay_lines f false ((c ∷ s) ∷ lines) r ≡ replay_lines f false lines r1 =
          goes_on false c s lines r event r1 parsed goes in
        elim (Bool-cases (is_gap event r)) [
          | inl gap ↦
              let stopped : replay_event f true event r ≡ none =
                replay_event-strict event r ∙ rw gap refl in
              let listed : r1.summary.gap_positions ≡ next_u64 r.last_seq ∷ [] =
                gaps ∙ rw (gap, clean) refl in
              ap (finished f) (refuses true c s lines r event parsed stopped)
              ∙ sym (reported lines r1 (next_u64 r.last_seq) listed)
              ∙ ap (λ (o : Option Replay). gapless (finished f o)) (sym later)
          | inr none_here ↦
              let same : replay_event f true event r ≡ some r1 =
                replay_event-strict event r ∙ rw none_here goes in
              let listed : r1.summary.gap_positions ≡ [] = gaps ∙ rw none_here clean in
              ap (finished f) (goes_on true c s lines r event r1 parsed same)
              ∙ replay_lines-strict lines r1 listed
              ∙ ap (λ (o : Option Replay). gapless (finished f o)) (sym later)
        ]
  ]

  -- Strictly, any file is replayed as it is otherwise, but refused exactly if the summary then lists
  -- a gap of the sequence.
  pub replay_file-strict :
      (file : Option Bytes) → replay_file f true file ≡ gapless (replay_file f false file)
  unfolding replay_file
  replay_file-strict none = refl
  replay_file-strict (some text) = replay_lines-strict (lines_of text []) new_replay refl
