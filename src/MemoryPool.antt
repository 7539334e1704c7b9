-- ===== src/MemoryPool.antt =====
-- The reference-counted frame pool of smart_home_hub/src/core/memory_pool.c. A block is named by its
-- index in `blocks`. `Race` takes a release apart, and so do the steps of the threads in
-- VideoPipeline.Frames; elsewhere every call runs to its end.
pub mod Laws
pub mod Acquire
pub mod Race
mod Tests
use plat.Base.{
  ℕ, zero, suc, ◌+◌, ◌-◌, Bool, true, false, Option, none, some, List, [], ◌∷◌, leb, ◌==◌,
  if◌then◌else◌, get_elem?, set, replicate, map,
}
use plat.Base.Int.{ℤ, pos, negsuc}

-- `hub_mem_block_t`. `data` holds the bytes of the frame, `none` for a null pointer. `refs` is the
-- count at rest; the negative value that a release of a free block passes through is gone when
-- the release returns.
pub record Block : Type 0 where
  pub bytes : Option (List ℕ)
  pub capacity : ℕ
  pub used : ℕ
  pub width : ℕ
  pub height : ℕ
  pub format : ℕ
  pub timestamp_ms : ℕ
  pub seq : ℕ
  pub index : ℕ
  pub refs : ℕ

-- `hub_mem_pool_t`. The lock and the condition are not state: a call under the lock is one step.
pub record Pool : Type 0 where
  pub blocks : Option (List Block)
  pub block_count : ℕ
  pub block_size : ℕ
  pub shutdown : Bool

unfoldable pub is_block_free : Block → Bool
is_block_free b = b.refs == 0

unfoldable pub fresh_block : ℕ → ℕ → List ℕ → Block
fresh_block size i bytes = record {
  bytes = some bytes;
  capacity = size;
  used = 0;
  width = 0;
  height = 0;
  format = 0;
  timestamp_ms = 0;
  seq = 0;
  index = i;
  refs = 0;
}

-- The loop of `hub_mem_pool_init` from block `i` on, `n` rounds left; `none` if an allocation fails.
unfoldable pub init_blocks : (ℕ → ℕ → Option (List ℕ)) → ℕ → ℕ → ℕ → Option (List Block)
init_blocks calloc size i zero = some []
init_blocks calloc size i (suc n) =
    let rest = init_blocks calloc size (i + 1) n in
    elim (calloc i size) [
      | none ↦ none
      | some bytes ↦ elim rest [ none ↦ none | some bs ↦ some (fresh_block size i bytes ∷ bs) ]
    ]

-- `calloc i size` is the allocation of the data of block `i`; `array` tells whether the block array is
-- granted. `none` is the result -1.
unfoldable pub init : Bool → (ℕ → ℕ → Option (List ℕ)) → ℕ → ℤ → Option Pool
init array calloc block_size (negsuc n) = none
init array calloc block_size (pos n) =
    if block_size == 0
    then none
    else if n == 0
    then none
    else if array
    then elim (init_blocks calloc block_size 0 n) [
      | none ↦ none
      | some bs ↦
          some (record {
            blocks = some bs;
            block_count = n;
            block_size = block_size;
            shutdown = false;
          })
    ]
    else none

unfoldable pub shut_down : Pool → Pool
shut_down p = record p { shutdown = true }

unfoldable pub destroy : Pool → Pool
destroy p = record p { blocks = none; block_count = 0 }

-- The scan of `hub_mem_pool_acquire`: the index of the first free block, and the blocks after it has
-- been taken.
unfoldable pub take_first : ℕ → List Block → Option (ℕ × List Block)
take_first i [] = none
take_first i (b ∷ bs) =
    let rest = take_first (i + 1) bs in
    if is_block_free b
    then some (i, record b { refs = 1; used = 0 } ∷ bs)
    else elim rest [ none ↦ none | some (j, bs') ↦ some (j, b ∷ bs') ]

-- What ends a wait on the condition: a signal, or the time limit. Each comes with the pool as the
-- other threads have left it.
pub data Wake : Type 0 where
  signalled : Pool → Wake
  timed_out : Pool → Wake

-- `got` has the block's index; `refused` is the result NULL; `asleep` still waits.
pub data Acquired : Type 0 where
  got : ℕ → Pool → Acquired
  refused : Pool → Acquired
  asleep : Pool → Acquired

abbrev pub block_list : Pool → List Block
block_list p = elim p.blocks [ none ↦ [] | some bs ↦ bs ]

-- One round of the loop, before it waits: closed by `shutdown`, a block taken, or none free.
pub data Round : Type 0 where
  closed : Round
  taken : ℕ → Pool → Round
  none_free : Round

unfoldable pub attempt : Pool → Round
attempt p = if p.shutdown then closed else elim (take_first 0 (block_list p)) [
  | none ↦ none_free
  | some (i, bs) ↦ taken i (record p { blocks = some bs })
]

-- How the round ends the loop: `limited` is what a wait of `wait_ms > 0` comes to, `unlimited` one of
-- `wait_ms < 0`.
unfoldable pub after_round : Round → Pool → ℤ → Acquired → Acquired → Acquired
after_round closed p wait limited unlimited = refused p
after_round (taken i q) p wait limited unlimited = got i q
after_round none_free p (pos zero) limited unlimited = refused p
after_round none_free p (pos (suc n)) limited unlimited = limited
after_round none_free p (negsuc n) limited unlimited = unlimited

-- The loop, with the wakes that it will meet. A wait without limit is not ended by a time limit.
unfoldable pub acquire_loop : Pool → ℤ → List Wake → Acquired
acquire_loop p wait [] = after_round (attempt p) p wait (asleep p) (asleep p)
acquire_loop p wait (signalled q ∷ ws) =
    let rest = acquire_loop q wait ws in after_round (attempt p) p wait rest rest
acquire_loop p wait (timed_out q ∷ ws) =
    let rest = acquire_loop q wait ws in after_round (attempt p) p wait (refused q) rest

unfoldable pub acquire : Pool → ℤ → List Wake → Acquired
acquire p wait ws = elim p.blocks [ none ↦ refused p | some bs ↦ acquire_loop p wait ws ]

-- A change of the count of block `i`.
unfoldable pub change_refs : (ℕ → ℕ) → ℕ → List Block → List Block
change_refs f i [] = []
change_refs f zero (b ∷ bs) = record b { refs = f b.refs } ∷ bs
change_refs f (suc i) (b ∷ bs) = b ∷ change_refs f i bs

abbrev pub with_refs : (ℕ → ℕ) → ℕ → Pool → Pool
with_refs f i p = record p {
  blocks = elim p.blocks [ none ↦ none | some bs ↦ some (change_refs f i bs) ];
}

unfoldable pub retain : Pool → ℕ → Pool
retain p i = with_refs (λ r. r + 1) i p

-- `atomic_fetch_sub`, and the store of 0 where the count was at most 1.
unfoldable pub released : ℕ → ℕ
released r = if leb r 1 then 0 else r - 1

unfoldable pub release : Pool → ℕ → Pool
release p i = with_refs released i p
