-- ===== src/RingBuffer/Spsc.antt =====
-- One writer thread and one reader thread on the same ring. A call of `edt_ring_buffer_write` or
-- `_read` is split into its load of the other side's position, the copy of each byte, and the store
-- of its own position; the steps of the two threads interleave at will. A copy goes upwards.
pub mod Safe
pub mod Delivery
use Prim.Native.Nat.{bit_and}
use plat.Base.{
  ℕ, zero, suc, ◌+◌, ◌-◌, ◌*◌, ◌≤◌, ◌<◌, ◌≡◌, List, [], ◌∷◌, ◌++◌, Option, none, some, ltb,
  if◌then◌else◌, length, get_or, set, take,
}
use plat.Base.Words.{add_size}
use plat.RingBuffer.{Ring, first_chunk, write_count, read_count}
use plat.RingBuffer.Inv.{storage}

-- The index of the byte `t` of a copy of `n` bytes at `pos`: in the first part or in the second.
unfoldable pub place : Ring → ℕ → ℕ → ℕ → ℕ
place rb pos n t =
    let first = first_chunk rb pos n in if ltb t first then bit_and pos rb.mask + t else t - first

-- Where a thread stands in its call. A writer has copied `t` of the `n` bytes that fit; a reader has
-- the bytes `out` of the `n` that it may take.
pub data Writer : Type 0 where
  resting : Writer
  filling : List ℕ → ℕ → ℕ → Writer

pub data Reader : Type 0 where
  waiting : Reader
  draining : ℕ → List ℕ → Reader

-- The ring, the threads, and what all finished calls have sent and received.
pub record System : Type 0 where
  pub ring : Ring
  pub writer : Writer
  pub reader : Reader
  pub sent : List ℕ
  pub received : List ℕ

abbrev pub store_byte : Ring → ℕ → ℕ → Ring
store_byte rb i x = record rb { bytes = some (set (storage rb) i x) }

abbrev pub publish_write : Ring → ℕ → Ring
publish_write rb n = record rb { write_pos = add_size rb.write_pos n }

abbrev pub publish_read : Ring → ℕ → Ring
publish_read rb n = record rb { read_pos = add_size rb.read_pos n }

pub data Step (s : System) : System → Type 0 where
  start_write :
      (src : List ℕ) (len : ℕ)
      → s.writer ≡ resting
      → len ≤ length src
      → Step s (record s { writer = filling src (write_count s.ring len) 0 })
  copy_byte :
      (src : List ℕ) (n t : ℕ)
      → s.writer ≡ filling src n t
      → t < n
      → Step s (record s {
        ring = store_byte s.ring (place s.ring s.ring.write_pos n t) (get_or src t 0);
        writer = filling src n (suc t);
      })
  finish_write :
      (src : List ℕ) (n : ℕ)
      → s.writer ≡ filling src n n
      → Step s (record s {
        ring = publish_write s.ring n;
        writer = resting;
        sent = s.sent ++ take n src;
      })
  start_read :
      (len : ℕ)
      → s.reader ≡ waiting
      → Step s (record s { reader = draining (read_count s.ring len) [] })
  fetch_byte :
      (n : ℕ) (out : List ℕ)
      → s.reader ≡ draining n out
      → length out < n
      → Step s (record s {
        reader =
            draining n
              (out ++ get_or (storage s.ring) (place s.ring s.ring.read_pos n (length out)) 0 ∷ []);
      })
  finish_read :
      (n : ℕ) (out : List ℕ)
      → s.reader ≡ draining n out
      → length out ≡ n
      → Step s (record s {
        ring = publish_read s.ring n;
        reader = waiting;
        received = s.received ++ out;
      })

pub data Reach (s : System) : System → Type 0 where
  here : Reach s s
  next : {t u : System} → Reach s t → Step t u → Reach s u
