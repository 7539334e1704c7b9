-- ===== src/RingBuffer.antt =====
-- The lock-free byte ring of embedded_debug_toolkit/src/core/ring_buffer.c: its operations, each run
-- to its end. `Spsc` interleaves them.
pub mod Copy
pub mod Inv
pub mod Moves
pub mod Queue
pub mod Refine
pub mod Capacity
pub mod Create
pub mod Spsc
mod Tests
use Prim.Native.Nat.{bit_and}
use plat.Base.{
  ℕ, zero, suc, ◌-◌, ◌*◌, ◌%◌, Bool, not, ◌&&◌, Option, none, some, List, [], ◌++◌, ltb, ◌==◌,
  if◌then◌else◌, take, drop,
}
use plat.Base.Words.{size_mod, add_size, sub_size}
use plat.Base.Memory.{memcpy}

-- `edt_ring_buffer_t`. `data` is `none` for a null pointer. A byte is a number.
pub record Ring : Type 0 where
  pub bytes : Option (List ℕ)
  pub capacity : ℕ
  pub mask : ℕ
  pub write_pos : ℕ
  pub read_pos : ℕ

unfoldable pub is_power_of_two : ℕ → Bool
is_power_of_two v = not (v == 0) && (bit_and v (v - 1) == 0)

-- The loop of `edt_round_up_pow2`, on fuel: `none` is a loop that has not ended.
unfoldable pub round_up_from : ℕ → ℕ → ℕ → Option ℕ
round_up_from zero p v = none
round_up_from (suc fuel) p v =
    let rest = round_up_from fuel (p * 2 % size_mod) v in if ltb p v then rest else some p

-- 65 rounds double 1 past every power of two that a size_t holds.
unfoldable pub round_up_pow2 : ℕ → Option ℕ
round_up_pow2 v = round_up_from 65 1 v

-- The capacity that is allocated for a request.
unfoldable pub rounded_capacity : ℕ → Option ℕ
rounded_capacity n = if is_power_of_two n then some n else round_up_pow2 n

-- What `edt_ring_buffer_init` leaves: an error (-1), a ring, or no return.
pub data Init : Type 0 where
  failed : Init
  hangs : Init
  ready : Ring → Init

unfoldable pub fresh_ring : ℕ → List ℕ → Ring
fresh_ring cap bytes = record {
  bytes = some bytes;
  capacity = cap;
  mask = sub_size cap 1;
  write_pos = 0;
  read_pos = 0;
}

-- `calloc` is the allocator, which may fail.
unfoldable pub init : (ℕ → Option (List ℕ)) → ℕ → Init
init calloc n = if ltb n 2 then failed else elim (rounded_capacity n) [
  | none ↦ hangs
  | some cap ↦ elim (calloc cap) [ none ↦ failed | some bytes ↦ ready (fresh_ring cap bytes) ]
]

unfoldable pub destroy : Ring → Ring
destroy rb = record { bytes = none; capacity = 0; mask = 0; write_pos = 0; read_pos = 0 }

unfoldable pub reset : Ring → Ring
reset rb = record rb { write_pos = 0; read_pos = 0 }

unfoldable pub available_data : Ring → ℕ
available_data rb = elim rb.bytes [ none ↦ 0 | some bytes ↦ sub_size rb.write_pos rb.read_pos ]

unfoldable pub available_space : Ring → ℕ
unfolding available_data
available_space rb = elim rb.bytes [
  | none ↦ 0
  | some bytes ↦ sub_size rb.capacity (available_data rb)
]

-- The bytes from `pos` up to the end of the storage, `n` at most.
unfoldable pub first_chunk : Ring → ℕ → ℕ → ℕ
first_chunk rb pos n =
    let to_end = sub_size rb.capacity (bit_and pos rb.mask) in if ltb n to_end then n else to_end

-- The two copies of `edt_ring_buffer_write`.
unfoldable pub copy_in : Ring → List ℕ → ℕ → List ℕ → ℕ → List ℕ
copy_in rb bytes pos src n =
    let first = first_chunk rb pos n in
    let once = memcpy bytes (bit_and pos rb.mask) src first in
    if ltb first n then memcpy once 0 (drop first src) (sub_size n first) else once

-- The two copies of `edt_ring_buffer_read` and `edt_ring_buffer_peek`: what stands in `dst`.
unfoldable pub copy_out : Ring → List ℕ → ℕ → ℕ → List ℕ
copy_out rb bytes pos n =
    let first = first_chunk rb pos n in
    let once = take first (drop (bit_and pos rb.mask) bytes) in
    if ltb first n then once ++ take (sub_size n first) bytes else once

-- How many of `len` bytes a write takes, and a read gives.
unfoldable pub write_count : Ring → ℕ → ℕ
write_count rb len =
    let free = sub_size rb.capacity (sub_size rb.write_pos rb.read_pos) in
    if ltb len free then len else free

unfoldable pub read_count : Ring → ℕ → ℕ
read_count rb len =
    let available = sub_size rb.write_pos rb.read_pos in
    if ltb len available then len else available

unfoldable pub write : Ring → List ℕ → ℕ → ℕ × Ring
write rb src len = elim rb.bytes [
  | none ↦ (0, rb)
  | some bytes ↦
      let n = write_count rb len in
      if len == 0 then (0, rb) else if n == 0 then (0, rb) else (
        n,
        record rb {
          bytes = some (copy_in rb bytes rb.write_pos src n);
          write_pos = add_size rb.write_pos n;
        },
      )
]

-- The result's list is what the call stores at `dst`.
unfoldable pub read : Ring → ℕ → ℕ × List ℕ × Ring
read rb len = elim rb.bytes [
  | none ↦ (0, [], rb)
  | some bytes ↦
      let n = read_count rb len in
      if len == 0
      then (0, [], rb)
      else if n == 0
      then (0, [], rb)
      else (n, copy_out rb bytes rb.read_pos n, record rb { read_pos = add_size rb.read_pos n })
]

unfoldable pub peek : Ring → ℕ → ℕ × List ℕ
peek rb len = elim rb.bytes [
  | none ↦ (0, [])
  | some bytes ↦
      let n = read_count rb len in
      if len == 0 then (0, []) else if n == 0 then (0, []) else (n, copy_out rb bytes rb.read_pos n)
]
