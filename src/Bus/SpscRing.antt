-- ===== src/Bus/SpscRing.antt =====
-- `SpscRingBuffer` of backend/include/bus/spsc_ring_buffer.hpp, for the template's two arguments.
-- Each operation is one step, in which a compare and exchange succeeds at once; the positions are
-- not reduced to 64 bits. A pointer to bytes is `none` if it is null, and the bytes it points to.
pub mod Capacity
pub mod Slots
pub mod Fifo
pub mod Reads
pub mod History
mod Examples
use axiotick.Common.{
  ℕ, zero, suc, ◌+◌, ◌-◌, ◌*◌, bit_and, Bool, true, false, not, ◌&&◌, ◌||◌, if◌then◌else◌, ltb,
  ◌==◌, Option, none, some, List, [], ◌++◌, take, drop, update,
}

pub record Slot : Type 0 where
  pub bytes : List ℕ
  pub size : ℕ
  pub ready : Bool

pub record SpscRingBuffer : Type 0 where
  pub write_pos : ℕ
  pub read_pos : ℕ
  pub slots : ℕ → Slot
  pub logical_capacity : ℕ

-- The loop of `normalize_capacity`, on fuel.
unfoldable pub double_until : ℕ → ℕ → ℕ → ℕ → ℕ
double_until capacity zero requested normalized = normalized
double_until capacity (suc fuel) requested normalized =
    let next = double_until capacity fuel requested (normalized * 2) in
    if ltb normalized requested && ltb normalized capacity then next else normalized

-- Each round of the loop raises `normalized`, which stays below the capacity.
unfoldable pub normalize_capacity : ℕ → ℕ → ℕ
unfolding double_until
normalize_capacity capacity requested =
    let normalized = double_until capacity capacity requested 1 in
    if ltb capacity normalized then capacity else normalized

unfoldable pub new_ring : ℕ → ℕ → SpscRingBuffer
new_ring capacity requested = record {
  write_pos = 0;
  read_pos = 0;
  slots = λ _. record { bytes = []; size = 0; ready = false };
  logical_capacity = normalize_capacity capacity requested;
}

-- `pos & mask_`.
abbrev pub slot_index : SpscRingBuffer → ℕ → ℕ
slot_index r position = bit_and position (r.logical_capacity - 1)

abbrev pub release : ℕ → SpscRingBuffer → SpscRingBuffer
release index r = record r {
  slots = update r.slots index (record (r.slots index) { ready = false });
}

unfoldable pub try_publish : ℕ → Option (List ℕ) → ℕ → SpscRingBuffer → Bool × SpscRingBuffer
try_publish message_size none size r = (false, r)
try_publish message_size (some source) size r =
    let index = slot_index r r.write_pos in
    let slot = r.slots index in
    if size == 0 || ltb message_size size then (false, r) else if slot.ready then (false, r) else (
      true,
      record r {
        slots = update r.slots index (record {
          bytes = take size source ++ drop size slot.bytes;
          size = size;
          ready = true;
        });
        write_pos = r.write_pos + 1;
      },
    )

-- The answer of a read: whether it succeeded, the bytes it copied, and `*out_size` after it.
pub record Reading : Type 0 where
  pub answer : Bool
  pub copied : List ℕ
  pub out_size : Option ℕ

-- `wants` is whether `out_data` is not null; `out_size` is null or points to the room there is.
unfoldable pub try_consume : Bool → Option ℕ → SpscRingBuffer → Reading × SpscRingBuffer
try_consume wants none r = (record { answer = false; copied = []; out_size = none }, r)
try_consume wants (some room) r =
    let index = slot_index r r.read_pos in
    let slot = r.slots index in
    let claimed = record r { read_pos = r.read_pos + 1 } in
    if not slot.ready
    then (record { answer = false; copied = []; out_size = some room }, r)
    else if wants && ltb room slot.size
    then (record { answer = false; copied = []; out_size = some room }, claimed)
    else (
      record {
        answer = true;
        copied = if wants then take slot.size slot.bytes else [];
        out_size = some slot.size;
      },
      release index claimed,
    )

-- `reports` is whether `out_size` is not null.
unfoldable pub try_discard_oldest : Bool → SpscRingBuffer → Reading × SpscRingBuffer
try_discard_oldest reports r =
    let index = slot_index r r.read_pos in
    let slot = r.slots index in
    if not slot.ready then (record { answer = false; copied = []; out_size = none }, r) else (
      record { answer = true; copied = []; out_size = if reports then some slot.size else none },
      release index (record r { read_pos = r.read_pos + 1 }),
    )

unfoldable pub size_approx : SpscRingBuffer → ℕ
size_approx r =
    let delta = if ltb r.read_pos r.write_pos then r.write_pos - r.read_pos else 0 in
    if ltb r.logical_capacity delta then r.logical_capacity else delta
