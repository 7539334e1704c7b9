-- ===== src/MemoryPool/Acquire.antt =====
-- `hub_mem_pool_acquire` on every branch, and how a held block becomes free.
use mathlib.Core.Path.{subst₂}
use mathlib.Core.Bool.{false≢true}
use plat.Base.{
  ℕ, zero, suc, ◌<◌, ◌≡◌, refl, sym, ◌∙◌, true, false, Option, none, some, List, [], ◌∷◌, arith,
  dec_lt, length, ◌==◌, if◌then◌else◌, Bool-cases, Option-cases, inl, inr,
}
use plat.Base.Int.{ℤ, pos, negsuc}
use plat.MemoryPool.{
  Block, Pool, Wake, signalled, timed_out, Acquired, got, refused, asleep, Round, closed, taken,
  none_free, block_list, attempt, after_round, acquire_loop, acquire, take_first,
}
use plat.MemoryPool.Laws.{refs, Scanned, no_block, first_free, take_first-Scanned}

-- The pools that a call may look at: the one it starts with, and those of the wakes that it meets.
pub data Seen : Pool → List Wake → Pool → Type 0 where
  at_start : {p : Pool} {ws : List Wake} → Seen p ws p
  after_signal : {p q s : Pool} {ws : List Wake} → Seen q ws s → Seen p (signalled q ∷ ws) s
  after_limit : {p q s : Pool} {ws : List Wake} → Seen q ws s → Seen p (timed_out q ∷ ws) s

-- Block `i` was the first free one of the open pool `s`; in `q` it is held once, and nothing else is
-- changed in any count.
pub record Took (s : Pool) (i : ℕ) (q : Pool) : Type 0 where
  pub opened : s.shutdown ≡ false
  pub in_range : i < length (block_list s)
  pub was_free : refs s i ≡ 0
  pub first : (j : ℕ) → j < i → 0 < refs s j
  pub size : length (block_list q) ≡ length (block_list s)
  pub counts : (j : ℕ) → refs q j ≡ (if j == i then 1 else refs s j)
  pub still_open : q.shutdown ≡ false
  pub still_live : q.blocks ≡ some (block_list q)

-- What one round of the loop finds.
pub data Tried (p : Pool) (r : Round) : Type 0 where
  was_closed : r ≡ closed → p.shutdown ≡ true → Tried p r
  all_held :
      r ≡ none_free
      → p.shutdown ≡ false
      → ((j : ℕ) → j < length (block_list p) → 0 < refs p j)
      → Tried p r
  took : (i : ℕ) (q : Pool) → r ≡ taken i q → Took p i q → Tried p r

attempt-Tried : (p : Pool) → Tried p (attempt p)
unfolding attempt
attempt-Tried p = elim (Bool-cases p.shutdown) [
  | inl shut ↦ was_closed (ground arith) shut
  | inr opened ↦
      scanned opened (take_first 0 (block_list p)) refl (take_first-Scanned 0 (block_list p))
]
  where
    scanned :
        p.shutdown ≡ false
        → (r : Option (ℕ × List Block)) → take_first 0 (block_list p) ≡ r
        → Scanned 0 (block_list p) r
        → Tried p (attempt p)
    scanned opened r e (no_block none_left all) = all_held (ground arith) opened all
    scanned opened r e (first_free i bs found in_range free before size at) =
        took i (record p { blocks = some bs }) (ground arith)
          (record {
            opened = opened;
            in_range = in_range;
            was_free = free;
            first = before;
            size = size;
            counts = at;
            still_open = opened;
            still_live = refl;
          })

-- A block that a round takes was the pool's first free one.
pub attempt-Took : (p : Pool) (i : ℕ) (q : Pool) → attempt p ≡ taken i q → Took p i q
attempt-Took p i q e = elim (attempt-Tried p) [
  | was_closed r shut ↦ cc
  | all_held r opened all ↦ cc
  | took j q' r t ↦ subst₂ (Took p) (cc) (cc) t
]

-- A block that the call returns was taken from one of the pools that it saw.
abbrev TookFrom : Pool → List Wake → ℕ → Pool → Type 0
TookFrom p ws i q = (s : Pool) × Seen p ws s × Took s i q

same_block : (p : Pool) (j i : ℕ) (q' q : Pool) → got j q' ≡ got i q → Took p j q' → Took p i q
same_block p j i q' q e t = subst₂ (Took p) (cc) (cc) t

after_round-got :
    (p : Pool) (wait : ℤ) (ws : List Wake) (limited unlimited : Acquired) (i : ℕ) (q : Pool)
    → after_round (attempt p) p wait limited unlimited ≡ got i q
    → (limited ≡ got i q → TookFrom p ws i q)
    → (unlimited ≡ got i q → TookFrom p ws i q)
    → TookFrom p ws i q
unfolding after_round
after_round-got p wait ws limited unlimited i q e lim unl = by_round (attempt-Tried p)
  where
    waited : (w : ℤ) → after_round none_free p w limited unlimited ≡ got i q → TookFrom p ws i q
    waited (pos zero) d = cc
    waited (pos (suc n)) d = lim d
    waited (negsuc n) d = unl d

    by_round : Tried p (attempt p) → TookFrom p ws i q
    by_round (was_closed r shut) = cc
    by_round (all_held r opened all) = waited wait (rw r at e)
    by_round (took j q' r t) = (p, at_start, same_block p j i q' q (rw r at e) t)

signal_took :
    {p r : Pool} {ws : List Wake} {i : ℕ} {q : Pool}
    → TookFrom r ws i q
    → TookFrom p (signalled r ∷ ws) i q
signal_took (s, seen, t) = (s, after_signal seen, t)

limit_took :
    {p r : Pool} {ws : List Wake} {i : ℕ} {q : Pool}
    → TookFrom r ws i q
    → TookFrom p (timed_out r ∷ ws) i q
limit_took (s, seen, t) = (s, after_limit seen, t)

acquire_loop-got :
    (p : Pool) (wait : ℤ) (ws : List Wake) (i : ℕ) (q : Pool)
    → acquire_loop p wait ws ≡ got i q
    → TookFrom p ws i q
unfolding acquire_loop
acquire_loop-got p wait [] i q e =
    after_round-got p wait [] (asleep p) (asleep p) i q e (λ d. cc) (λ d. cc)
acquire_loop-got p wait (signalled r ∷ ws) i q e =
    after_round-got p wait _ _ _ i q e (λ d. signal_took (acquire_loop-got r wait ws i q d))
      (λ d. signal_took (acquire_loop-got r wait ws i q d))
acquire_loop-got p wait (timed_out r ∷ ws) i q e =
    after_round-got p wait _ _ _ i q e (λ d. cc)
      (λ d. limit_took (acquire_loop-got r wait ws i q d))

-- A block that `hub_mem_pool_acquire` returns, after whatever waits, was the first free block of an
-- open pool that the call saw; the caller holds it once, every other count is as it was.
pub acquire-got :
    (p : Pool) (wait : ℤ) (ws : List Wake) (i : ℕ) (q : Pool)
    → acquire p wait ws ≡ got i q
    → (s : Pool) × Seen p ws s × Took s i q
unfolding acquire
acquire-got p wait ws i q e = elim (Option-cases p.blocks) [
  | inl null ↦ absurd (no_blocks null)
  | inr (bs, live) ↦ acquire_loop-got p wait ws i q (ground arith)
]
  where
    no_blocks : p.blocks ≡ none → ⊥
    no_blocks null = ground arith

no_wait :
    (p : Pool) (ws : List Wake)
    → acquire_loop p (pos 0) ws ≡ after_round (attempt p) p (pos 0) (refused p) (refused p)
unfolding acquire_loop after_round
no_wait p [] = ground arith
no_wait p (signalled q ∷ ws) = ground arith
no_wait p (timed_out q ∷ ws) = ground arith

first_unique :
    (f : ℕ → ℕ) (i j : ℕ)
    → f i ≡ 0
    → f j ≡ 0
    → ((k : ℕ) → k < i → 0 < f k)
    → ((k : ℕ) → k < j → 0 < f k)
    → i ≡ j
first_unique f i j zi zj bi bj = elim (dec_lt i j) [
  | yes p ↦ absurd (omega (arith, bj i p))
  | no p ↦ elim (dec_lt j i) [ yes r ↦ absurd (omega (arith, bi j r)) | no r ↦ omega arith ]
]

-- The first free block of an open pool is the one that a call gets.
pub acquire-first :
    (p : Pool) (bs : List Block) (i : ℕ)
    → p.blocks ≡ some bs
    → p.shutdown ≡ false
    → i < length (block_list p)
    → refs p i ≡ 0
    → ((j : ℕ) → j < i → 0 < refs p j)
    → (q : Pool) × (acquire p (pos 0) [] ≡ got i q) × Took p i q
unfolding acquire after_round
acquire-first p bs i live opened h free before = elim (attempt-Tried p) [
  | was_closed r shut ↦ absurd (false≢true (sym opened ∙ shut))
  | all_held r o all ↦ absurd (omega (arith, all i h))
  | took i' q r t ↦
      let same : i' ≡ i = first_unique (refs p) i' i t.was_free free t.first before in
      (q, ground (arith, no_wait p [], same), rw same at t)
]
