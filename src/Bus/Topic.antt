-- ===== src/Bus/Topic.antt =====
-- One topic of `InprocMessageBus` of backend/modules/bus/src/message_bus.cpp, to which `publish` has
-- found its way. A call is one step, but for the policy that blocks: there `meanwhile` is what the
-- consumer and a shutdown do between two tries, and the answer is `none` if `fuel` tries are not
-- enough. The monotonic clock is a parameter that gives its readings in turn.
pub mod Policies
mod Examples
use axiotick.Common.{
  ℕ, zero, suc, ◌+◌, ◌-◌, ◌*◌, ◌/◌, ◌%◌, ◌^◌, bit_and, Bool, true, false, not, ◌&&◌, ◌||◌,
  if◌then◌else◌, ltb, leb, ◌==◌, Option, none, some, List,
}
use axiotick.Core.Histogram.{LatencyHistogram, record_value}
use axiotick.Bus.Protocol.{ArgentumStatus, ok, err_timeout, err_invalid}
use axiotick.Bus.SpscRing.{SpscRingBuffer, try_publish, try_discard_oldest, Reading}

abbrev pub max_message_size : ℕ
max_message_size = 256

pub data BackpressurePolicy : Type 0 where
  drop_newest drop_oldest block : BackpressurePolicy

pub record InprocBusConfig : Type 0 where
  pub policy : BackpressurePolicy
  pub block_timeout_ms : ℕ

pub record TopicMetricsInternal : Type 0 where
  pub queue_depth : ℕ
  pub drops : ℕ
  pub backpressure_hits : ℕ
  pub published : ℕ
  pub publish_latency_ns_total : ℕ
  pub publish_latency_ns_max : ℕ
  pub publish_hist : LatencyHistogram

pub record TopicState : Type 0 where
  pub ring : SpscRingBuffer
  pub metrics : TopicMetricsInternal
  pub running : Bool
  pub mono_readings : ℕ

-- Sums and differences of 64 bits.
abbrev pub add_u64 : ℕ → ℕ → ℕ
add_u64 a b = (a + b) % 2 ^ 64

abbrev pub sub_u64 : ℕ → ℕ → ℕ
sub_u64 a b = (a + 2 ^ 64 - b) % 2 ^ 64

module _ (mono_now_ns : ℕ → ℕ) where
  unfoldable pub update_publish_latency : ℕ → TopicState → TopicState
  update_publish_latency start_ns t =
      let m = t.metrics in
      let elapsed = sub_u64 (mono_now_ns t.mono_readings) start_ns in
      record t {
        mono_readings = t.mono_readings + 1;
        metrics = record m {
          publish_latency_ns_total = add_u64 m.publish_latency_ns_total elapsed;
          publish_latency_ns_max =
              if ltb m.publish_latency_ns_max elapsed then elapsed else m.publish_latency_ns_max;
          publish_hist =
              if bit_and start_ns 15 == 0
              then record_value elapsed m.publish_hist
              else m.publish_hist;
        };
      }

  unfoldable pub publish_now : ℕ → Option (List ℕ) → ℕ → TopicState → Bool × TopicState
  publish_now start_ns source size t =
      let (sent, ring) = try_publish max_message_size source size t.ring in
      let m = t.metrics in
      if not sent then (false, t) else (
        true,
        update_publish_latency start_ns (record t {
          ring = ring;
          metrics = record m {
            queue_depth = add_u64 m.queue_depth 1;
            published = add_u64 m.published 1;
          };
        }),
      )

  -- What the two policies that do not wait do for a full queue.
  unfoldable pub drop_new : ℕ → TopicState → ArgentumStatus × TopicState
  drop_new start_ns t =
      let m = t.metrics in
      (
        err_timeout,
        update_publish_latency start_ns
            (record t { metrics = record m { drops = add_u64 m.drops 1 } }),
      )

  unfoldable pub drop_old : ℕ → Option (List ℕ) → ℕ → TopicState → ArgentumStatus × TopicState
  drop_old start_ns source size t =
      let (reading, ring) = try_discard_oldest true t.ring in
      let m = t.metrics in
      let discarded = record t {
        ring = ring;
        metrics = record m { drops = add_u64 m.drops 1; queue_depth = sub_u64 m.queue_depth 1 };
      } in
      let (sent, after) = publish_now start_ns source size discarded in
      if not reading.answer
      then (err_timeout, update_publish_latency start_ns t)
      else if sent
      then (ok, after)
      else (err_timeout, update_publish_latency start_ns after)

  -- The loop of the policy that blocks; a reading of the clock is taken where there is a timeout.
  unfoldable pub block_until :
      ℕ
      → (TopicState → TopicState)
      → ℕ
      → ℕ
      → Option (List ℕ)
      → ℕ
      → TopicState
      → Option (ArgentumStatus × TopicState)
  block_until zero meanwhile timeout_ms start_ns source size t = none
  block_until (suc fuel) meanwhile timeout_ms start_ns source size t =
      let (sent, after) = publish_now start_ns source size t in
      let timed = not (timeout_ms == 0) in
      let elapsed = sub_u64 (mono_now_ns after.mono_readings) start_ns in
      let checked =
        if timed then record after { mono_readings = after.mono_readings + 1 } else after in
      let later = block_until fuel meanwhile timeout_ms start_ns source size (meanwhile checked) in
      if not t.running
      then some (err_timeout, update_publish_latency start_ns t)
      else if sent
      then some (ok, after)
      else if timed && leb (timeout_ms * 1000000) elapsed
      then some (err_timeout, update_publish_latency start_ns checked)
      else later

  -- `publish`, behind the choice of the topic.
  unfoldable pub publish_to :
      ℕ
      → (TopicState → TopicState)
      → InprocBusConfig
      → Option (List ℕ)
      → ℕ
      → TopicState
      → Option (ArgentumStatus × TopicState)
  publish_to fuel meanwhile config source size t =
      let start_ns = mono_now_ns t.mono_readings in
      let started = record t { mono_readings = t.mono_readings + 1 } in
      let (sent, after) = publish_now start_ns source size started in
      let m = after.metrics in
      let hit = record after {
        metrics = record m { backpressure_hits = add_u64 m.backpressure_hits 1 };
      } in
      let null : Bool = elim source [ none ↦ true | some _ ↦ false ] in
      if null || size == 0 || ltb max_message_size size
      then some (err_invalid, t)
      else if not t.running
      then some (err_invalid, started)
      else if sent
      then some (ok, after)
      else elim config.policy [
        | drop_newest ↦ some (drop_new start_ns hit)
        | drop_oldest ↦ some (drop_old start_ns source size hit)
        | block ↦ block_until fuel meanwhile config.block_timeout_ms start_ns source size hit
      ]
