-- ===== src/MemoryPool/Race.antt =====
-- `hub_mem_pool_release` taken apart into its two atomic accesses, between which another thread may
-- acquire the block.
use plat.Base.{
  ℕ, zero, suc, ◌-◌, ◌<◌, ◌≡◌, ◌≢◌, refl, ap, ◌∙◌, false, some, List, [], ◌∷◌, Bool-cases, inl, inr,
  arith, length, if◌then◌else◌, leb,
}
use plat.Base.Int.{pos}
use plat.MemoryPool.{
  Block, Pool, got, block_list, acquire, change_refs, with_refs, released, release,
}
use plat.MemoryPool.Laws.{refs, refs_in, refs_in-change_refs, length-change_refs}
use plat.MemoryPool.Acquire.{Took, acquire-first}

-- `atomic_fetch_sub(&block->refs, 1)` of a block that is held, and `atomic_store(&block->refs, 0)`.
unfoldable pub sub_ref : Pool → ℕ → Pool
sub_ref p i = with_refs (λ r. r - 1) i p

unfoldable pub store_zero : Pool → ℕ → Pool
store_zero p i = with_refs (λ r. 0) i p

two_changes :
    (f g : ℕ → ℕ) (i : ℕ) (bs : List Block)
    → change_refs g i (change_refs f i bs) ≡ change_refs (λ r. g (f r)) i bs
unfolding change_refs
two_changes f g i [] = refl
two_changes f g zero (b ∷ bs) = refl
two_changes f g (suc i) (b ∷ bs) = ap (◌∷◌ b) (two_changes f g i bs)

same_change :
    (f g : ℕ → ℕ) (i : ℕ) (bs : List Block)
    → f (refs_in bs i) ≡ g (refs_in bs i)
    → change_refs f i bs ≡ change_refs g i bs
unfolding change_refs refs_in
same_change f g i [] e = refl
same_change f g zero (b ∷ bs) e = ap (λ r. record b { refs = r } ∷ bs) e
same_change f g (suc i) (b ∷ bs) e = ap (◌∷◌ b) (same_change f g i bs e)

-- With nothing in between, the accesses of a release come to what `release` computes: the store of 0
-- follows where the count was at most 1.
pub release-accesses :
    (p : Pool) (bs : List Block) (i : ℕ)
    → p.blocks ≡ some bs
    → release p i ≡ (if leb (refs p i) 1 then store_zero (sub_ref p i) i else sub_ref p i)
unfolding release released sub_ref store_zero
release-accesses p bs i live = elim (Bool-cases (leb (refs p i) 1)) [
  | inl low ↦
      ground (arith, two_changes (λ r. r - 1) (λ r. 0) i bs, same_change released (λ r. 0) i bs)
  | inr high ↦ ground (arith, same_change released (λ r. r - 1) i bs)
]

-- A change of the count of block `i` in a live pool.
record Changed (f : ℕ → ℕ) (p : Pool) (i : ℕ) (q : Pool) : Type 0 where
  still_live : q.blocks ≡ some (block_list q)
  size : length (block_list q) ≡ length (block_list p)
  here : refs q i ≡ f (refs p i)
  elsewhere : (j : ℕ) → j ≢ i → refs q j ≡ refs p j
  same_gate : q.shutdown ≡ p.shutdown

with_refs-Changed :
    (f : ℕ → ℕ) (p : Pool) (i : ℕ)
    → p.blocks ≡ some (block_list p)
    → i < length (block_list p)
    → Changed f p i (with_refs f i p)
with_refs-Changed f p i live h = record {
  still_live = ground arith;
  size = ground (arith, length-change_refs f (block_list p) i);
  here = ground (arith, refs_in-change_refs f (block_list p) i i h);
  elsewhere = λ j ne. ground (arith, refs_in-change_refs f (block_list p) i j h);
  same_gate = refl;
}

kept :
    {f : ℕ → ℕ} {p : Pool} {i : ℕ} {q : Pool}
    → Changed f p i q
    → (j : ℕ) → j < i
    → 0 < refs p j
    → 0 < refs q j
kept c j lt h = omega (arith, c.elsewhere j (omega arith))

others_taken :
    {s : Pool} {i : ℕ} {q : Pool} → Took s i q → (j : ℕ) → j < i → 0 < refs s j → 0 < refs q j
others_taken t j lt h = ground (arith, t.counts j)

-- The race of release and acquire: block `i` is held once and the blocks before it are held. Thread A
-- releases it, and after A's subtraction thread B acquires it. A's store of 0 then frees the block under B,
-- and the next acquire gives block `i` out again, though B has not released it.
pub release_race :
    (p : Pool) (i : ℕ)
    → p.blocks ≡ some (block_list p)
    → p.shutdown ≡ false
    → i < length (block_list p)
    → refs p i ≡ 1
    → ((j : ℕ) → j < i → 0 < refs p j)
    → (q r : Pool) × (acquire (sub_ref p i) (pos 0) [] ≡ got i q)
      × (acquire (store_zero q i) (pos 0) [] ≡ got i r)
unfolding sub_ref store_zero
release_race p i live opened h once before =
    let c : Changed (λ r. r - 1) p i (sub_ref p i) = with_refs-Changed (λ r. r - 1) p i live h in
    let (q, e, t) =
      acquire-first (sub_ref p i) _ i c.still_live (c.same_gate ∙ opened) (omega (arith, c.size))
        (omega (arith, c.here)) (λ j lt. kept c j lt (before j lt)) in
    let d : Changed (λ r. 0) q i (store_zero q i) =
      with_refs-Changed (λ r. 0) q i t.still_live (omega (arith, c.size, t.size)) in
    let (r, e', t') =
      acquire-first (store_zero q i) _ i d.still_live (d.same_gate ∙ t.still_open)
        (omega (arith, d.size, c.size, t.size)) d.here
        (λ j lt. kept d j lt (others_taken t j lt (kept c j lt (before j lt)))) in
    (q, r, e, e')
