-- ===== src/Base/Memory.antt =====
-- memcpy on byte lists, and index arithmetic round a ring.
use Prim.Native.Nat.{ℕ, zero, suc, ◌+◌, ◌-◌, ◌%◌, ◌≤◌, ◌<◌}
use mathlib.Core.Path.{◌≡◌, refl, ◌∙◌}
use mathlib.Core.List.{List, [], ◌∷◌}
use mathlib.Core.Logic.{◌⊎◌, inl, inr}
use native.Mathlib.Decide.{dec_lt}
use native.Mathlib.Nat.{mod-lt, mod-eq_of_lt, mod-eq-sub-mod, mod-add-mod}
use native.Mathlib.Omega.{arith}
use plat.Base.Lists.{length, get_or, set, length-set, get_or-set_at, get_or-set_off}

-- `n` bytes of `src` written over `dst` from index `off` on.
unfoldable pub memcpy : List ℕ → ℕ → List ℕ → ℕ → List ℕ
memcpy dst off src zero = dst
memcpy dst off [] (suc n) = dst
memcpy dst off (x ∷ src) (suc n) = memcpy (set dst off x) (off + 1) src n

pub memcpy-none :
    (dst : List ℕ) (off : ℕ) (src : List ℕ) (n : ℕ) → n ≡ 0 → memcpy dst off src n ≡ dst
unfolding memcpy
memcpy-none dst off src n e = rw e

pub length-memcpy :
    (dst : List ℕ) (off : ℕ) (src : List ℕ) (n : ℕ) → length (memcpy dst off src n) ≡ length dst
unfolding memcpy
length-memcpy dst off src zero = refl
length-memcpy dst off [] (suc n) = refl
length-memcpy dst off (x ∷ src) (suc n) =
    length-memcpy (set dst off x) (off + 1) src n ∙ length-set dst off x

-- Outside the copied range nothing changes.
pub memcpy-outside :
    (dst : List ℕ) (off : ℕ) (src : List ℕ) (n j : ℕ)
    → (j < off) ⊎ (off + n ≤ j)
    → get_or (memcpy dst off src n) j 0 ≡ get_or dst j 0
unfolding memcpy
memcpy-outside dst off src zero j h = refl
memcpy-outside dst off [] (suc n) j h = refl
memcpy-outside dst off (x ∷ src) (suc n) j h =
    memcpy-outside (set dst off x) (off + 1) src n j (omega arith)
    ∙ get_or-set_off dst off j x 0 (omega arith)

-- Inside it stands the source.
pub memcpy-inside :
    (dst : List ℕ) (off : ℕ) (src : List ℕ) (n t : ℕ)
    → off + n ≤ length dst
    → n ≤ length src
    → t < n
    → get_or (memcpy dst off src n) (off + t) 0 ≡ get_or src t 0
unfolding memcpy
memcpy-inside dst off src zero t hd hs ht = absurd (omega arith)
memcpy-inside dst off [] (suc n) t hd hs ht = absurd (omega arith)
memcpy-inside dst off (x ∷ src) (suc n) zero hd hs ht =
    let here : off + zero ≡ off = omega arith in
    rw here (
      memcpy-outside (set dst off x) (off + 1) src n off (omega arith)
      ∙ get_or-set_at dst off x 0 (omega arith))
memcpy-inside dst off (x ∷ src) (suc n) (suc t) hd hs ht =
    let next : off + suc t ≡ off + 1 + t = omega arith in
    rw next (
      memcpy-inside (set dst off x) (off + 1) src n t (omega (arith, length-set dst off x))
        (omega arith) (omega arith))

-- The two cases of an index that goes round at `cap`.
pub wrap_index :
    (cap pos t : ℕ)
    → 0 < cap
    → t ≤ cap
    → ((pos % cap + t < cap) × ((pos + t) % cap ≡ pos % cap + t))
      ⊎ ((cap ≤ pos % cap + t) × ((pos + t) % cap ≡ pos % cap + t - cap))
wrap_index cap pos t h ht = elim (dec_lt (pos % cap + t) cap) [
  | yes p ↦ inl (p, omega (arith, mod-add-mod pos cap t, mod-eq_of_lt p))
  | no p ↦ inr (
    omega arith,
    omega (
      arith,
      mod-lt pos h,
      mod-add-mod pos cap t,
      mod-eq-sub-mod {n = pos % cap + t} {m = cap} (omega arith),
      mod-eq_of_lt {n = pos % cap + t - cap} {m = cap} (omega (arith, mod-lt pos h)),
    ),
  )
]
