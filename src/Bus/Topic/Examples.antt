-- ===== src/Bus/Topic/Examples.antt =====
-- The theorem on the policy that drops the oldest message, applied to a ring of two slots that is full.
use axiotick.Common.{◌+◌, ◌*◌, ◌≡◌, refl, true, some, [], ◌∷◌, ℕ, arith}
use axiotick.Core.Histogram.{uint64_max}
use axiotick.Bus.Protocol.{ok}
use axiotick.Bus.SpscRing.{SpscRingBuffer}
use axiotick.Bus.SpscRing.Slots.{Queues}
use axiotick.Bus.Topic.{TopicState, InprocBusConfig, drop_oldest, max_message_size, publish_to}
use axiotick.Bus.Topic.Policies.{publish_to-drop_oldest}

abbrev clock : ℕ → ℕ
clock reading = 1000 + 16 * reading

abbrev full_ring : SpscRingBuffer
full_ring = record {
  slots = λ _. record { size = 1; bytes = 7 ∷ []; ready = true };
  logical_capacity = 2;
  write_pos = 2;
  read_pos = 0;
}

abbrev full_topic : TopicState
full_topic = record {
  ring = full_ring;
  metrics = record {
    queue_depth = 2;
    drops = 0;
    backpressure_hits = 0;
    published = 2;
    publish_latency_ns_total = 0;
    publish_latency_ns_max = 0;
    publish_hist = record { buckets = λ _. 0; count = 0; sum = 0; max_ns = 0; min_ns = uint64_max };
  };
  running = true;
  mono_readings = 0;
}

abbrev drops_oldest : InprocBusConfig
drops_oldest = record { policy = drop_oldest; block_timeout_ms = 0 }

full_ring-Queues : Queues 1 max_message_size full_ring ((7 ∷ []) ∷ (7 ∷ []) ∷ [])
full_ring-Queues = record {
  sized = refl;
  bounded = omega arith;
  written = refl;
  held = (refl, refl, refl, omega arith, (refl, refl, refl, omega arith, tt));
  free = λ j above below. ground (arith, above, below);
}

publish_to-drop_oldest_example :
    (t' : TopicState) × (publish_to clock 0 (λ t. t) drops_oldest (some (5 ∷ 6 ∷ [])) 2 full_topic
      ≡ some (ok, t'))
    × Queues 1 max_message_size t'.ring ((7 ∷ []) ∷ (5 ∷ 6 ∷ []) ∷ [])
publish_to-drop_oldest_example =
    publish_to-drop_oldest clock 1 (5 ∷ 6 ∷ []) (omega arith) (omega arith) 0 (λ t. t) drops_oldest
      full_topic (7 ∷ []) ((7 ∷ []) ∷ []) refl refl full_ring-Queues
