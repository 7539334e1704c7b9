-- ===== src/RingBuffer/Create.antt =====
-- `edt_ring_buffer_init` and a client's whole history of calls.
use native.Mathlib.Nat.{pow-le-pow_right}
use plat.Base.{
  ℕ, ◌*◌, ◌^◌, ◌≤◌, ◌<◌, ◌≡◌, refl, ap, ap₂, ◌∙◌, inl, inr, Option, none, some, List, [], ◌∷◌,
  length, arith, Option-cases,
}
use plat.Base.Bits.{pow_lt_size}
use plat.RingBuffer.{Ring, Init, failed, ready, init, fresh_ring, write, read, peek, reset}
use plat.RingBuffer.Capacity.{rounded_capacity_lem}
use plat.RingBuffer.Inv.{IsValid, contents}
use plat.RingBuffer.Refine.{write_refines, read_refines, reset_empties}
use plat.RingBuffer.Queue
use plat.RingBuffer.Queue.{Op, put, get, look, clear, Reply}

fresh_ring-IsValid :
    (k : ℕ) (bytes : List ℕ)
    → 1 ≤ k
    → k ≤ 63
    → length bytes ≡ 2 ^ k
    → IsValid k (fresh_ring (2 ^ k) bytes) × (contents k (fresh_ring (2 ^ k) bytes) ≡ [])
unfolding fresh_ring
fresh_ring-IsValid k bytes one top size = (
  record {
    geometry = record {
      two = one;
      fits = omega arith;
      capacity_pow = refl;
      mask_pow =
          omega (arith, pow_lt_size k (omega arith), pow-le-pow_right {n = 2} (omega arith) one);
    };
    live = refl;
    size = size;
    write_word = omega arith;
    read_word = omega arith;
    held_fits = omega arith;
  },
  refl,
)

-- What `edt_ring_buffer_init` leaves for a request of `n` bytes.
pub data Created (calloc : ℕ → Option (List ℕ)) (n : ℕ) (r : Init) : Type 0 where
  no_memory :
      (k : ℕ) → n ≤ 2 ^ k → 2 ^ k < 2 * n → calloc (2 ^ k) ≡ none → r ≡ failed → Created calloc n r
  created :
      (k : ℕ) (bytes : List ℕ) (rb : Ring)
      → calloc (2 ^ k) ≡ some bytes
      → r ≡ ready rb
      → IsValid k rb
      → contents k rb ≡ []
      → n ≤ 2 ^ k
      → 2 ^ k < 2 * n
      → Created calloc n r

-- For a request of 2 to 2 ^ 63 bytes `edt_ring_buffer_init` returns: it fails if the allocator, whose
-- regions have the size that was asked for, refuses the least power of two that is at least the
-- request, and if the allocator grants it leaves a valid empty ring of that capacity.
pub init-Created :
    (calloc : ℕ → Option (List ℕ)) (n : ℕ)
    → ((m : ℕ) (bytes : List ℕ) → calloc m ≡ some bytes → length bytes ≡ m)
    → 2 ≤ n
    → n ≤ 2 ^ 63
    → Created calloc n (init calloc n)
unfolding init
init-Created calloc n sized two top =
    let (k, e, one, small, enough, tight) = rounded_capacity_lem n two top in
    elim (Option-cases (calloc (2 ^ k))) [
      | inl nothing ↦ no_memory k enough tight nothing (ground (arith, e))
      | inr (bytes, got) ↦
          let (valid, empty) = fresh_ring-IsValid k bytes one small (sized _ bytes got) in
          created k bytes (fresh_ring (2 ^ k) bytes) got (ground (arith, e)) valid empty enough
            tight
    ]

-- A client's calls in order, with what each returns.
pub step : Ring → Op → Reply × Ring
step rb (put src len) = let (n, rb') = write rb src len in ((n, []), rb')
step rb (get len) = let (n, out, rb') = read rb len in ((n, out), rb')
step rb (look len) = (peek rb len, rb)
step rb clear = ((0, []), reset rb)

pub run : Ring → List Op → List Reply
run rb [] = []
run rb (op ∷ ops) = let (reply, rb') = step rb op in reply ∷ run rb' ops

-- No write reads past the end of its source.
abbrev pub InSource : Op → Type 0
InSource (put src len) = len ≤ length src
InSource (get len) = Unit {0}
InSource (look len) = Unit {0}
InSource clear = Unit {0}

abbrev pub AllInSource : List Op → Type 0
AllInSource [] = Unit {0}
AllInSource (op ∷ ops) = InSource op × AllInSource ops

step_refines :
    (k : ℕ) (rb : Ring) (op : Op)
    → IsValid k rb
    → InSource op
    → ((step rb op).0 ≡ (Queue.step (2 ^ k) (contents k rb) op).0)
      × (contents k (step rb op).1 ≡ (Queue.step (2 ^ k) (contents k rb) op).1)
      × IsValid k (step rb op).1
unfolding step Queue.step
step_refines k rb (put src len) v h =
    let (n, q, v') = write_refines k rb v src len h in (ap (λ m. (m, [])) n, q, v')
step_refines k rb (get len) v h =
    let (n, out, q, v', p) = read_refines k rb v len in (ap₂ (λ m o. (m, o)) n out, q, v')
step_refines k rb (look len) v h =
    let (n, out, q, v', p) = read_refines k rb v len in (p ∙ ap₂ (λ m o. (m, o)) n out, refl, v)
step_refines k rb clear v h = let (q, v') = reset_empties k rb v in (refl, q, v')

-- No history of calls tells a valid ring from the bounded queue of its contents: every count and every
-- byte that is returned is the queue's.
pub run_refines :
    (k : ℕ) (rb : Ring) (ops : List Op)
    → IsValid k rb
    → AllInSource ops
    → run rb ops ≡ Queue.run (2 ^ k) (contents k rb) ops
unfolding run Queue.run
run_refines k rb [] v h = refl
run_refines k rb (op ∷ ops) v h =
    let (reply, q, v') = step_refines k rb op v h.0 in
    ap₂ ◌∷◌ reply (run_refines k (step rb op).1 ops v' h.1 ∙ ap (λ c. Queue.run (2 ^ k) c ops) q)
