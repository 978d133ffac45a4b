-- ===== src/Core/Trace.antt =====
-- `TraceSpans` of backend/include/core/trace_context.hpp, in the build with latency traces, which is
-- the default. `mono_now_ns` gives the monotonic clock's readings in turn.
use axiotick.Common.{ℕ, Bool, not, if◌then◌else◌, ◌==◌, update}

-- The stages that the order manager stamps, by their indices in `TraceStage`.
abbrev pub risk_verdict : ℕ
risk_verdict = 7

abbrev pub journal_enqueue : ℕ
journal_enqueue = 8

abbrev pub oms_accept : ℕ
oms_accept = 9

pub record TraceSpans : Type 0 where
  pub tick_id : ℕ
  pub ingress_wall_ns : ℕ
  pub mono_ns : ℕ → ℕ

-- `at` and `stamped`.
abbrev pub stage_at : TraceSpans → ℕ → ℕ
stage_at t stage = t.mono_ns stage

abbrev pub stamped : TraceSpans → ℕ → Bool
stamped t stage = not (stage_at t stage == 0)

-- The trace after `stamp`, for the reading that the clock gives if it is read.
abbrev pub stamp : ℕ → ℕ → TraceSpans → TraceSpans
stamp stage reading t =
    if t.mono_ns stage == 0 then record t { mono_ns = update t.mono_ns stage reading } else t

abbrev pub reset_trace : TraceSpans → TraceSpans
reset_trace t = record { tick_id = 0; ingress_wall_ns = 0; mono_ns = λ _. 0 }
