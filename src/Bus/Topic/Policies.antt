-- ===== src/Bus/Topic/Policies.antt =====
-- The policies of backend/modules/bus/src/message_bus.cpp that do not wait, for a topic whose ring
-- holds a queue.
use axiotick.Common.{
  ℕ, ◌+◌, ◌^◌, ◌≤◌, ◌<◌, ◌≡◌, refl, subst, ap, ◌∙◌, inl, inr, Bool, Bool-cases, true, false, ◌||◌,
  if◌then◌else◌, ltb, ◌==◌, some, List, [], ◌∷◌, ◌++◌, length, arith,
}
use axiotick.Bus.Protocol.{ArgentumStatus, ok}
use axiotick.Bus.SpscRing.{Reading, try_publish, try_discard_oldest}
use axiotick.Bus.SpscRing.Slots.{Queues}
use axiotick.Bus.SpscRing.Fifo.{publish, try_publish-Queues}
use axiotick.Bus.SpscRing.Reads.{try_discard_oldest-Queues}
use axiotick.Bus.Topic.{
  max_message_size, drop_oldest, InprocBusConfig, add_u64, sub_u64, TopicState, publish_now,
  drop_old, publish_to, update_publish_latency,
}

module _ (mono_now_ns : ℕ → ℕ) (k : ℕ) (m : List ℕ) (some_bytes : 0 < length m)
    (fits : length m ≤ max_message_size) where
  good : (length m == 0 || ltb max_message_size (length m)) ≡ false
  good = ground (arith, some_bytes, fits)

  module _ (t : TopicState) (queue : List (List ℕ)) (q : Queues k max_message_size t.ring queue)
      (start_ns : ℕ) where
    publish_now-room :
        ltb (length queue) (2 ^ k) ≡ true
        → ((publish_now mono_now_ns start_ns (some m) (length m) t).0 ≡ true)
          × Queues k max_message_size
              (publish_now mono_now_ns start_ns (some m) (length m) t).1.ring
              (queue ++ m ∷ [])
    unfolding publish_now update_publish_latency
    publish_now-room room =
        let (same, after) = try_publish-Queues k max_message_size t.ring queue q m in
        let sent : (try_publish max_message_size (some m) (length m) t.ring).0 ≡ true =
          same ∙ rw (good, room) refl in
        let stepped : publish (2 ^ k) max_message_size m queue ≡ (true, queue ++ m ∷ []) =
          rw (good, room) refl in
        let held : Queues k max_message_size
            (try_publish max_message_size (some m) (length m) t.ring).1 (queue ++ m ∷ []) =
          subst
            (λ (p : Bool × List (List ℕ)).
              Queues k max_message_size (try_publish max_message_size (some m) (length m) t.ring).1
                p.1)
            stepped after in
        rw sent (refl, held)

    publish_now-full :
        ltb (length queue) (2 ^ k) ≡ false
        → publish_now mono_now_ns start_ns (some m) (length m) t ≡ (false, t)
    unfolding publish_now
    publish_now-full filled =
        let (same, _) = try_publish-Queues k max_message_size t.ring queue q m in
        let refused : (try_publish max_message_size (some m) (length m) t.ring).0 ≡ false =
          same ∙ rw (good, filled) refl in
        rw refused refl

  -- The step of the policy that drops the oldest message, where the ring was full.
  drop_old-full :
      (t : TopicState) (oldest : List ℕ) (ms : List (List ℕ))
      → Queues k max_message_size t.ring (oldest ∷ ms)
      → (start_ns : ℕ)
      → ((drop_old mono_now_ns start_ns (some m) (length m) t).0 ≡ ok)
        × Queues k max_message_size
            (drop_old mono_now_ns start_ns (some m) (length m) t).1.ring
            (ms ++ m ∷ [])
  unfolding drop_old
  drop_old-full t oldest ms q start_ns =
      let (same, after) =
        try_discard_oldest-Queues k max_message_size t.ring true (oldest ∷ ms) q in
      let read : (try_discard_oldest true t.ring).0.answer ≡ true =
        ap (λ (r : Reading). r.answer) same in
      let room : ltb (length ms) (2 ^ k) ≡ true = ground (arith, q.bounded) in
      let old = t.metrics in
      let discarded = record t {
        ring = (try_discard_oldest true t.ring).1;
        metrics = record old {
          drops = add_u64 old.drops 1;
          queue_depth = sub_u64 old.queue_depth 1;
        };
      } in
      let (sent, held) = publish_now-room discarded ms after start_ns room in
      rw (read, sent) (refl, held)

  -- Under the policy that drops the oldest message, a publish of 1 to 256 bytes to a running topic
  -- returns and answers ok, if the topic's ring of 2 ^ k slots holds a queue of one message or more.
  -- Then the ring holds that queue with the new message behind it, and the oldest message is gone
  -- from it exactly if the queue was full.
  pub publish_to-drop_oldest :
      (fuel : ℕ) (meanwhile : TopicState → TopicState) (config : InprocBusConfig) (t : TopicState)
      (oldest : List ℕ) (ms : List (List ℕ))
      → config.policy ≡ drop_oldest
      → t.running ≡ true
      → Queues k max_message_size t.ring (oldest ∷ ms)
      → let answer = publish_to mono_now_ns fuel meanwhile config (some m) (length m) t in
        (t' : TopicState) × (answer ≡ some (ok, t'))
        × Queues k max_message_size t'.ring
            ((if ltb (length (oldest ∷ ms)) (2 ^ k) then oldest ∷ ms else ms) ++ m ∷ [])
  unfolding publish_to
  publish_to-drop_oldest fuel meanwhile config t oldest ms policy running q =
      let start_ns = mono_now_ns t.mono_readings in
      let started = record t { mono_readings = t.mono_readings + 1 } in
      elim (Bool-cases (ltb (length (oldest ∷ ms)) (2 ^ k))) [
        | inl room ↦
            let (sent, held) = publish_now-room started (oldest ∷ ms) q start_ns room in
            (
              (publish_now mono_now_ns start_ns (some m) (length m) started).1,
              rw (good, sent, running) refl,
              rw room held,
            )
        | inr filled ↦
            let blocked = publish_now-full started (oldest ∷ ms) q start_ns filled in
            let old = t.metrics in
            let hit = record started {
              metrics = record old { backpressure_hits = add_u64 old.backpressure_hits 1 };
            } in
            let (kept, held) = drop_old-full hit oldest ms q start_ns in
            let dropped_one : drop_old mono_now_ns start_ns (some m) (length m) hit
                ≡ (ok, (drop_old mono_now_ns start_ns (some m) (length m) hit).1) =
              ap
                (λ (s : ArgentumStatus).
                  (s, (drop_old mono_now_ns start_ns (some m) (length m) hit).1))
                kept in
            (
              (drop_old mono_now_ns start_ns (some m) (length m) hit).1,
              rw (good, policy, blocked, dropped_one, running) refl,
              rw filled held,
            )
      ]
