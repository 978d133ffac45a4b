-- ===== src/Core/Histogram/Examples.antt =====
-- The theorem on the buckets, and a histogram of three values.
use axiotick.Common.{◌-◌, ◌*◌, ◌≤◌, ◌<◌, ◌≡◌, refl, arith}
use axiotick.Core.Histogram.{
  LatencyHistogram, highest_bit, bucket_index, bucket_upper_edge, bucket_count, record_value,
  uint64_max,
}
use axiotick.Core.Histogram.Buckets.{bucket_upper_edge-bucket_index}

bucket_upper_edge-bucket_index_example :
    let edge = bucket_upper_edge (bucket_index 1000) in
    (1000 ≤ edge) × (32 * (edge - 1000) ≤ 1000) × (bucket_index 1000 < bucket_count)
bucket_upper_edge-bucket_index_example = bucket_upper_edge-bucket_index 1000 (omega arith)

edge_of_1000 : bucket_upper_edge (bucket_index 1000) ≡ 1007
unfolding bucket_upper_edge bucket_index highest_bit
edge_of_1000 = refl

abbrev empty : LatencyHistogram
empty = record { buckets = λ _. 0; count = 0; sum = 0; max_ns = 0; min_ns = uint64_max }

count_of_two : (record_value 40 (record_value 1000 empty)).count ≡ 2
unfolding record_value
count_of_two = refl
