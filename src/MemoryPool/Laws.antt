-- ===== src/MemoryPool/Laws.antt =====
-- Counts: what retain, release and acquire do to the count of every block.
use plat.Base.{
  ℕ, zero, suc, ◌+◌, ◌<◌, ◌≡◌, refl, ap, ◌∙◌, Option, none, some, List, [], ◌∷◌, arith, length,
  ◌==◌, if◌then◌else◌, Bool-cases, inl, inr,
}
use plat.MemoryPool.{Block, Pool, block_list, change_refs, take_first, is_block_free}

-- The count of block `i`; 0 where there is no such block.
unfoldable pub refs_in : List Block → ℕ → ℕ
refs_in [] i = 0
refs_in (b ∷ bs) zero = b.refs
refs_in (b ∷ bs) (suc i) = refs_in bs i

abbrev pub refs : Pool → ℕ → ℕ
refs p i = refs_in (block_list p) i

pub refs_in-change_refs :
    (f : ℕ → ℕ) (bs : List Block) (i j : ℕ)
    → i < length bs
    → refs_in (change_refs f i bs) j ≡ (if j == i then f (refs_in bs i) else refs_in bs j)
unfolding refs_in change_refs
refs_in-change_refs f [] i j h = absurd (omega arith)
refs_in-change_refs f (b ∷ bs) zero zero h = ground arith
refs_in-change_refs f (b ∷ bs) zero (suc j) h = ground arith
refs_in-change_refs f (b ∷ bs) (suc i) zero h = ground arith
refs_in-change_refs f (b ∷ bs) (suc i) (suc j) h =
    refs_in-change_refs f bs i j (omega arith) ∙ ground arith

pub length-change_refs :
    (f : ℕ → ℕ) (bs : List Block) (i : ℕ) → length (change_refs f i bs) ≡ length bs
unfolding change_refs
length-change_refs f [] i = refl
length-change_refs f (b ∷ bs) zero = refl
length-change_refs f (b ∷ bs) (suc i) = ap suc (length-change_refs f bs i)

-- What the scan returns: the first block with count 0 is taken, or every count is positive.
pub data Scanned (k : ℕ) (bs : List Block) (r : Option (ℕ × List Block)) : Type 0 where
  no_block : r ≡ none → ((j : ℕ) → j < length bs → 0 < refs_in bs j) → Scanned k bs r
  first_free :
      (i : ℕ) (bs' : List Block)
      → r ≡ some (k + i, bs')
      → i < length bs
      → refs_in bs i ≡ 0
      → ((j : ℕ) → j < i → 0 < refs_in bs j)
      → length bs' ≡ length bs
      → ((j : ℕ) → refs_in bs' j ≡ (if j == i then 1 else refs_in bs j))
      → Scanned k bs r

Scanned-cons_full :
    (k : ℕ) (b : Block) (bs : List Block) (r : Option (ℕ × List Block))
    → 0 < b.refs
    → Scanned (k + 1) bs r
    → Scanned k (b ∷ bs) (elim r [ none ↦ none | some (j, bs') ↦ some (j, b ∷ bs') ])
unfolding refs_in
Scanned-cons_full k b bs r h (no_block e all) = no_block (rw e) (λ j. full j)
  where
    full : (j : ℕ) → j < suc (length bs) → 0 < refs_in (b ∷ bs) j
    full zero p = h
    full (suc j) p = all j (omega arith)
Scanned-cons_full k b bs r h (first_free i bs' e in_range free before size at) =
    first_free (suc i) (b ∷ bs') (rw e (ap (λ m. some (m, b ∷ bs')) (omega arith))) (omega arith)
      free earlier (ap suc size) place
  where
    earlier : (j : ℕ) → j < suc i → 0 < refs_in (b ∷ bs) j
    earlier zero p = h
    earlier (suc j) p = before j (omega arith)

    place : (j : ℕ) → refs_in (b ∷ bs') j ≡ (if j == suc i then 1 else refs_in (b ∷ bs) j)
    place zero = ground arith
    place (suc j) = at j ∙ ground arith

pub take_first-Scanned : (k : ℕ) (bs : List Block) → Scanned k bs (take_first k bs)
unfolding take_first is_block_free refs_in
take_first-Scanned k [] = no_block refl (λ j h. absurd (omega arith))
take_first-Scanned k (b ∷ bs) = elim (Bool-cases (b.refs == 0)) [
  | inl free ↦ rw free (taken_here (ground arith))
  | inr full ↦ rw full (Scanned-cons_full k b bs _ (ground arith) (take_first-Scanned (k + 1) bs))
]
  where
    taken_here : b.refs ≡ 0 → Scanned k (b ∷ bs) (some (k, record b { refs = 1; used = 0 } ∷ bs))
    taken_here e =
        first_free 0 (record b { refs = 1; used = 0 } ∷ bs)
          (ap (λ m. some (m, record b { refs = 1; used = 0 } ∷ bs)) (omega arith)) (omega arith) e
          (λ j h. absurd (omega arith)) refl (elim [ zero ↦ ground arith | suc j ↦ ground arith ])
