-- ===== src/Persist/JournalRing/Examples.antt =====
-- The theorem on the ring, applied to a ring of two cells.
use axiotick.Common.{ℕ, ◌^◌, ◌≡◌, refl, true, false, none, some, List, [], ◌∷◌, arith}
use axiotick.Persist.JournalRing.{new_journal_ring}
use axiotick.Persist.JournalRing.History.{
  Request, pushes, pops, serve_ring, serve_queue, serve_ring-new_journal_ring,
}

abbrev requests : List (Request ℕ)
requests = pushes 7 ∷ pushes 8 ∷ pushes 9 ∷ pops ∷ pushes 9 ∷ pops ∷ []

serve_ring-new_journal_ring_example :
    serve_ring (2 ^ 1) requests (new_journal_ring (2 ^ 1)) ≡ some (serve_queue (2 ^ 1) requests [])
serve_ring-new_journal_ring_example = serve_ring-new_journal_ring 1 requests (omega arith)

third_refused :
    serve_queue 2 requests []
    ≡ (true, none)
      ∷ (true, none)
      ∷ (false, none)
      ∷ (true, some 7)
      ∷ (true, none)
      ∷ (true, some 8)
      ∷ []
third_refused = refl
