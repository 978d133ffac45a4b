-- ===== src/Persist/JournalRing.antt =====
-- `LockFreeRingBuffer` of backend/include/persist/journal_ring_buffer.hpp, for its two template
-- arguments. Each operation is one step, in which a compare and exchange succeeds at once; the
-- positions are not reduced to 64 bits. An answer is `none` where the loop would go round for ever.
pub mod Fifo
pub mod Steps
pub mod History
mod Examples
use axiotick.Common.{
  ℕ, ◌+◌, ◌-◌, bit_and, Bool, true, false, if◌then◌else◌, ltb, ◌==◌, Option, none, some, update,
}

pub record Cell (T : Type 0) : Type 0 where
  pub sequence : ℕ
  pub value : Option T

pub record LockFreeRingBuffer (T : Type 0) : Type 0 where
  pub write_pos : ℕ
  pub read_pos : ℕ
  pub cells : ℕ → Cell T

abbrev pub cell_index : ℕ → ℕ → ℕ
cell_index n position = bit_and position (n - 1)

module _ {T : Type 0} (n : ℕ) where
  -- A cell that was never written has no value.
  unfoldable pub new_journal_ring : LockFreeRingBuffer T
  new_journal_ring = record {
    write_pos = 0;
    read_pos = 0;
    cells = λ i. record { sequence = i; value = none };
  }

  -- `try_push_impl`.
  unfoldable pub try_push : T → LockFreeRingBuffer T → Option (Bool × LockFreeRingBuffer T)
  try_push value r =
      let position = r.write_pos in
      let index = cell_index n position in
      let sequence = (r.cells index).sequence in
      if sequence == position
      then some (
        true,
        record r {
          write_pos = position + 1;
          cells = update r.cells index (record { sequence = position + 1; value = some value });
        },
      )
      else if ltb sequence position
      then some (false, r)
      else none

  -- The value is what `*out` receives; the cell is left with what is moved from.
  unfoldable pub try_pop : LockFreeRingBuffer T → Option (Bool × Option T × LockFreeRingBuffer T)
  try_pop r =
      let position = r.read_pos in
      let index = cell_index n position in
      let cell = r.cells index in
      if cell.sequence == position + 1
      then some (
        true,
        cell.value,
        record r {
          read_pos = position + 1;
          cells = update r.cells index (record cell { sequence = position + n });
        },
      )
      else if ltb cell.sequence (position + 1)
      then some (false, none, r)
      else none

  unfoldable pub journal_size_approx : LockFreeRingBuffer T → ℕ
  journal_size_approx r =
      let delta = r.write_pos - r.read_pos in
      if ltb r.read_pos r.write_pos then if ltb n delta then n else delta else 0
