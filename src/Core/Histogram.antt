-- ===== src/Core/Histogram.antt =====
-- `BasicLatencyHistogram` of backend/include/core/latency_histogram.hpp, in its plain variant. The
-- loop of `percentile` is given the rank that the code casts from a floating-point product.
pub mod Buckets
mod Examples
use axiotick.Common.{
  ℕ, zero, suc, ◌+◌, ◌-◌, ◌*◌, ◌/◌, ◌%◌, ◌^◌, bit_and, if◌then◌else◌, ltb, ◌==◌, update, pos,
}
use axiotick.Core.Float.{Float}

abbrev pub sub_bucket_bits : ℕ
sub_bucket_bits = 5

abbrev pub sub_buckets : ℕ
sub_buckets = 32

abbrev pub max_exponent : ℕ
max_exponent = 41

abbrev pub group_count : ℕ
group_count = max_exponent - sub_bucket_bits + 2

abbrev pub bucket_count : ℕ
bucket_count = group_count * sub_buckets

abbrev pub max_tracked_value : ℕ
max_tracked_value = 2 ^ (max_exponent + 1) - 1

abbrev pub uint64_max : ℕ
uint64_max = 2 ^ 64 - 1

pub record LatencyHistogram : Type 0 where
  pub buckets : ℕ → ℕ
  pub count : ℕ
  pub sum : ℕ
  pub max_ns : ℕ
  pub min_ns : ℕ

-- `63 - std::countl_zero(value)` for a value above 0: the place of its highest digit, on fuel.
unfoldable pub highest_bit : ℕ → ℕ → ℕ
highest_bit zero value = 0
highest_bit (suc fuel) value =
    let rest = highest_bit fuel (value / 2) in if value / 2 == 0 then 0 else suc rest

-- Above the clamp, for a value of at least `sub_buckets`.
abbrev pub log_index : ℕ → ℕ
log_index value =
    let msb = highest_bit 63 value in
    let shift = msb - sub_bucket_bits in
    let sub = bit_and (value / 2 ^ shift) (sub_buckets - 1) in
    let group = msb - sub_bucket_bits + 1 in group * sub_buckets + sub

unfoldable pub bucket_index : ℕ → ℕ
unfolding highest_bit
bucket_index value =
    let clamped = if ltb max_tracked_value value then max_tracked_value else value in
    if ltb clamped sub_buckets then clamped else log_index clamped

unfoldable pub bucket_upper_edge : ℕ → ℕ
bucket_upper_edge index =
    let group = index / sub_buckets in
    let sub = index % sub_buckets in
    let msb = group + sub_bucket_bits - 1 in
    let base = 2 ^ msb in
    let width = base / 2 ^ sub_bucket_bits in
    if ltb index sub_buckets then index else base + sub * width + (width - 1)

-- `add` on a counter of 64 bits.
abbrev pub add_count : ℕ → ℕ → ℕ
add_count c v = (c + v) % 2 ^ 64

abbrev pub update_max : ℕ → LatencyHistogram → LatencyHistogram
update_max v h = if ltb h.max_ns v then record h { max_ns = v } else h

abbrev pub update_min : ℕ → LatencyHistogram → LatencyHistogram
update_min v h = if ltb v h.min_ns then record h { min_ns = v } else h

unfoldable pub record_value : ℕ → LatencyHistogram → LatencyHistogram
unfolding bucket_index
record_value value_ns h =
    let index = bucket_index value_ns in
    update_min value_ns (
      update_max value_ns (record h {
        buckets = update h.buckets index (add_count (h.buckets index) 1);
        count = add_count h.count 1;
        sum = add_count h.sum value_ns;
      }))

unfoldable pub reset_histogram : LatencyHistogram → LatencyHistogram
reset_histogram h = record { buckets = λ _. 0; count = 0; sum = 0; max_ns = 0; min_ns = uint64_max }

unfoldable pub merge : LatencyHistogram → LatencyHistogram → LatencyHistogram
merge other h =
    let added = update_max other.max_ns (record h {
      buckets = λ i. add_count (h.buckets i) (other.buckets i);
      count = add_count h.count other.count;
      sum = add_count h.sum other.sum;
    }) in
    if other.min_ns == uint64_max then added else update_min other.min_ns added

abbrev pub min_observed : LatencyHistogram → ℕ
min_observed h = if h.min_ns == uint64_max then 0 else h.min_ns

unfoldable pub mean : {D : Type 0} → ⦃f : Float D⦄ → LatencyHistogram → D
mean ⦃f⦄ h =
    if h.count == 0 then f.nought else f.div (f.of_int (pos h.sum)) (f.of_int (pos h.count))

abbrev pub clamp_to_observed : ℕ → LatencyHistogram → ℕ
clamp_to_observed v h =
    if ltb h.max_ns v then h.max_ns else if ltb v (min_observed h) then min_observed h else v

-- The loop over the buckets from `i` on, of which `left` are left.
unfoldable pub percentile_from : LatencyHistogram → ℕ → ℕ → ℕ → ℕ → ℕ
unfolding bucket_upper_edge
percentile_from h rank zero i cumulative = h.max_ns
percentile_from h rank (suc left) i cumulative =
    let sum = add_count cumulative (h.buckets i) in
    let later = percentile_from h rank left (i + 1) sum in
    if ltb sum rank
    then later
    else if i == bucket_count - 1
    then h.max_ns
    else clamp_to_observed (bucket_upper_edge i) h

unfoldable pub percentile : ℕ → LatencyHistogram → ℕ
unfolding percentile_from
percentile cast_rank h =
    let least = if cast_rank == 0 then 1 else cast_rank in
    let rank = if ltb h.count least then h.count else least in
    if h.count == 0 then 0 else percentile_from h rank bucket_count 0 0
