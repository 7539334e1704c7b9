-- ===== src/MemoryPool/Tests.antt =====
-- The theorems of the pool at a pool of two blocks.
use plat.Base.{ℕ, ◌≡◌, refl, false, some, [], ◌∷◌, arith}
use plat.Base.Int.{pos}
use plat.MemoryPool.{
  Block, Pool, got, acquire, take_first, attempt, after_round, acquire_loop, is_block_free,
}
use plat.MemoryPool.Laws.{refs, refs_in}
use plat.MemoryPool.Acquire.{Seen, Took, acquire-got}
use plat.MemoryPool.Race.{sub_ref, store_zero, release_race}

abbrev block : ℕ → ℕ → Block
block i refs = record {
  bytes = some (0 ∷ []);
  capacity = 1;
  used = 0;
  width = 0;
  height = 0;
  format = 0;
  timestamp_ms = 0;
  seq = 0;
  index = i;
  refs = refs;
}

-- Block 0 is held once, block 1 is free.
abbrev half : Pool
half = record {
  blocks = some (block 0 1 ∷ block 1 0 ∷ []);
  block_count = 2;
  block_size = 1;
  shutdown = false;
}

abbrev full : Pool
full = record half { blocks = some (block 0 1 ∷ block 1 1 ∷ []) }

acquire-got_example : (s : Pool) × Seen half [] s × Took s 1 full
unfolding acquire acquire_loop after_round attempt take_first is_block_free
acquire-got_example = acquire-got half (pos 0) [] 1 full refl

release_race_example :
    (q r : Pool) × (acquire (sub_ref half 0) (pos 0) [] ≡ got 0 q)
    × (acquire (store_zero q 0) (pos 0) [] ≡ got 0 r)
unfolding refs_in
release_race_example =
    release_race half 0 refl refl (omega arith) refl (λ j h. absurd (omega arith))
