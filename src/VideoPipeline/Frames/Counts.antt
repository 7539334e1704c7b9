-- ===== src/VideoPipeline/Frames/Counts.antt =====
-- How often a block stands in a list of blocks, and the counts of the pool after the calls of the
-- pipeline.
use plat.Base.{
  ℕ, zero, suc, ◌+◌, ◌≤◌, ◌<◌, ◌≡◌, refl, ap, ◌∙◌, List, [], ◌∷◌, ◌++◌, ◌==◌, if◌then◌else◌, arith,
  dec_lt, length, drop, get_or,
}
use plat.MemoryPool.{Block, Pool, block_list, change_refs}
use plat.MemoryPool.Laws.{refs, refs_in}
use plat.VideoPipeline.Frames.{change_block}
use plat.VideoPipeline.Frames.Threads.{occurrences}

-- A change of the count of a block that leaves 0 as it is.
pub refs_in-change :
    (f : ℕ → ℕ)
    → f 0 ≡ 0
    → (bs : List Block) (i j : ℕ)
    → refs_in (change_refs f i bs) j ≡ (if j == i then f (refs_in bs i) else refs_in bs j)
unfolding refs_in change_refs
refs_in-change f z [] i j = ground (arith, z)
refs_in-change f z (b ∷ bs) zero zero = ground arith
refs_in-change f z (b ∷ bs) zero (suc j) = ground arith
refs_in-change f z (b ∷ bs) (suc i) zero = ground arith
refs_in-change f z (b ∷ bs) (suc i) (suc j) = refs_in-change f z bs i j ∙ ground arith

pub occurrences-append :
    (j : ℕ) (xs ys : List ℕ) → occurrences j (xs ++ ys) ≡ occurrences j xs + occurrences j ys
occurrences-append j [] ys = omega arith
occurrences-append j (x ∷ xs) ys = omega (arith, occurrences-append j xs ys)

pub refs_in-beyond : (bs : List Block) (i : ℕ) → length bs ≤ i → refs_in bs i ≡ 0
unfolding refs_in
refs_in-beyond [] i h = refl
refs_in-beyond (b ∷ bs) zero h = absurd (omega arith)
refs_in-beyond (b ∷ bs) (suc i) h = refs_in-beyond bs i (omega arith)

pub refs_in-change_block :
    (f : Block → Block) (keeps : (b : Block) → (f b).refs ≡ b.refs) (bs : List Block) (i j : ℕ)
    → refs_in (change_block f i bs) j ≡ refs_in bs j
unfolding refs_in change_block
refs_in-change_block f keeps [] i j = refl
refs_in-change_block f keeps (b ∷ bs) zero zero = keeps b
refs_in-change_block f keeps (b ∷ bs) zero (suc j) = refl
refs_in-change_block f keeps (b ∷ bs) (suc i) zero = refl
refs_in-change_block f keeps (b ∷ bs) (suc i) (suc j) = refs_in-change_block f keeps bs i j

pub length-change_block :
    (f : Block → Block) (i : ℕ) (bs : List Block) → length (change_block f i bs) ≡ length bs
unfolding change_block
length-change_block f i [] = refl
length-change_block f zero (b ∷ bs) = refl
length-change_block f (suc i) (b ∷ bs) = ap suc (length-change_block f i bs)

-- A held block is a block of the pool.
pub held_in_range : (p : Pool) (i : ℕ) → 0 < refs p i → i < length (block_list p)
held_in_range p i h = elim (dec_lt i (length (block_list p))) [
  | yes p ↦ p
  | no beyond ↦ absurd (omega (arith, refs_in-beyond (block_list p) i (omega arith)))
]

pub occurrences-head :
    (j : ℕ) (xs : List ℕ)
    → 0 < length xs
    → occurrences j xs ≡ (if j == get_or xs 0 0 then 1 else 0) + occurrences j (drop 1 xs)
occurrences-head j [] h = absurd (omega arith)
occurrences-head j (x ∷ xs) h = refl
