-- ===== src/RingBuffer/Copy.antt =====
-- The two-part copies of ring_buffer.c, index by index: where each byte comes from.
use native.Mathlib.Nat.{mod-lt, one-le-pow}
use Prim.Native.Nat.{bit_and}
use plat.Base.{
  ℕ, zero, suc, ◌+◌, ◌-◌, ◌%◌, ◌^◌, ◌≤◌, ◌<◌, ◌≡◌, refl, ap, ap₂, ◌∙◌, sym, inl, inr, List, [], ◌∷◌,
  ◌++◌, min, length, get_or, take, drop, tabulate, arith, length-drop, take-eq-tabulate,
  tabulate-add, tabulate_cong,
}
use mathlib.Core.List.{append-nil}
use plat.Base.Bits.{bit_and-low_mask, pow_lt_size}
use plat.Base.Words.{sub_size}
use plat.Base.Memory.{memcpy, length-memcpy, memcpy-none, memcpy-inside, memcpy-outside, wrap_index}
use plat.RingBuffer.{Ring, first_chunk, copy_in, copy_out}

-- The capacity is 2 ^ k, and the mask has its k low bits.
pub record Geometry (k : ℕ) (rb : Ring) : Type 0 where
  pub two : 1 ≤ k
  pub fits : k < 64
  pub capacity_pow : rb.capacity ≡ 2 ^ k
  pub mask_pow : rb.mask ≡ 2 ^ k - 1

get_or-drop : (f : ℕ) (xs : List ℕ) (j : ℕ) → get_or (drop f xs) j 0 ≡ get_or xs (f + j) 0
get_or-drop zero xs j = ap (λ i. get_or xs i 0) (omega arith)
get_or-drop (suc f) [] j = refl
get_or-drop (suc f) (x ∷ xs) j =
    let e : suc f + j ≡ suc (f + j) = omega arith in rw e (get_or-drop f xs j)

append-take_none : (xs ys : List ℕ) (m : ℕ) → m ≡ 0 → xs ++ take m ys ≡ xs
append-take_none xs ys m e = rw e (append-nil xs)

-- The two copies, for the offset `o` and the first part's length `f`.
abbrev pub split_in : List ℕ → ℕ → List ℕ → ℕ → ℕ → List ℕ
split_in bytes o src n f = memcpy (memcpy bytes o src f) 0 (drop f src) (n - f)

abbrev pub split_out : List ℕ → ℕ → ℕ → ℕ → List ℕ
split_out bytes o n f = take f (drop o bytes) ++ take (n - f) bytes

abbrev pub part : ℕ → ℕ → ℕ → ℕ
part cap o n = min n (cap - o)

module _ (k : ℕ) (rb : Ring) (g : Geometry k rb) where
  pub offset : (pos : ℕ) → bit_and pos rb.mask ≡ pos % 2 ^ k
  offset pos = rw g.mask_pow (bit_and-low_mask k pos)

  pub offset_lt : (pos : ℕ) → pos % 2 ^ k < 2 ^ k
  offset_lt pos = mod-lt pos (one-le-pow k 2 (omega arith))

  pub first_chunk-part : (pos n : ℕ) → first_chunk rb pos n ≡ part (2 ^ k) (pos % 2 ^ k) n
  unfolding first_chunk
  first_chunk-part pos n =
      ground (arith, g.capacity_pow, offset pos, offset_lt pos, pow_lt_size k g.fits)

  pub copy_in-split :
      (bytes : List ℕ) (pos : ℕ) (src : List ℕ) (n : ℕ)
      → n ≤ 2 ^ k
      → copy_in rb bytes pos src n
        ≡ split_in bytes (pos % 2 ^ k) src n (part (2 ^ k) (pos % 2 ^ k) n)
  unfolding copy_in
  copy_in-split bytes pos src n h =
      let f : ℕ = part (2 ^ k) (pos % 2 ^ k) n in
      let once : List ℕ = memcpy bytes (pos % 2 ^ k) src f in
      rw (first_chunk-part pos n, offset pos)
        (ground (arith, pow_lt_size k g.fits, memcpy-none once 0 (drop f src) (n - f)))

  pub copy_out-split :
      (bytes : List ℕ) (pos n : ℕ)
      → n ≤ 2 ^ k
      → copy_out rb bytes pos n ≡ split_out bytes (pos % 2 ^ k) n (part (2 ^ k) (pos % 2 ^ k) n)
  unfolding copy_out
  copy_out-split bytes pos n h =
      let f : ℕ = part (2 ^ k) (pos % 2 ^ k) n in
      let once : List ℕ = take f (drop (pos % 2 ^ k) bytes) in
      rw (first_chunk-part pos n, offset pos)
        (ground (arith, pow_lt_size k g.fits, append-take_none once bytes (n - f)))

-- What stands after a copy at the index `t` places on from `pos`.
module _ (cap pos : ℕ) (bytes src : List ℕ) (n t : ℕ) (pos_cap : 0 < cap)
    (size : length bytes ≡ cap) (n_cap : n ≤ cap) (n_src : n ≤ length src) (t_cap : t < cap) where
  abbrev pub split_at : List ℕ
  split_at = split_in bytes (pos % cap) src n (part cap (pos % cap) n)

  abbrev pub part_at : ℕ
  part_at = part cap (pos % cap) n

  abbrev pub once_at : List ℕ
  once_at = memcpy bytes (pos % cap) src part_at

  pub split_in-new : t < n → get_or split_at ((pos + t) % cap) 0 ≡ get_or src t 0
  split_in-new h = elim (wrap_index cap pos t pos_cap (omega arith)) [
    | inl (p, e) ↦ rw e (
        memcpy-outside once_at 0 (drop part_at src) (n - part_at) (pos % cap + t) (omega arith)
        ∙ memcpy-inside bytes (pos % cap) src part_at t (omega arith) (omega arith) (omega arith))
    | inr (p, e) ↦
        let moved : pos % cap + t - cap ≡ 0 + (t - part_at) = omega (arith, mod-lt pos pos_cap) in
        let back : part_at + (t - part_at) ≡ t = omega (arith, mod-lt pos pos_cap) in
        rw (e, moved)
          (memcpy-inside once_at 0 (drop part_at src) (n - part_at) (t - part_at)
              (omega (arith, length-memcpy bytes (pos % cap) src part_at, mod-lt pos pos_cap))
              (omega (arith, length-drop part_at src)) (omega (arith, mod-lt pos pos_cap))
            ∙ get_or-drop part_at src (t - part_at)
            ∙ ap (λ i. get_or src i 0) back)
  ]

  pub split_in-old : n ≤ t → get_or split_at ((pos + t) % cap) 0 ≡ get_or bytes ((pos + t) % cap) 0
  split_in-old h =
      memcpy-outside once_at 0 (drop part_at src) (n - part_at) ((pos + t) % cap)
        (omega (arith, wrap_index cap pos t pos_cap (omega arith), mod-lt pos pos_cap))
      ∙ memcpy-outside bytes (pos % cap) src part_at ((pos + t) % cap)
          (omega (arith, wrap_index cap pos t pos_cap (omega arith), mod-lt pos pos_cap))

-- A read of `n` bytes from `pos` gives the bytes at the `n` next indices, going round.
module _ (cap pos : ℕ) (bytes : List ℕ) (n : ℕ) (pos_cap : 0 < cap) (size : length bytes ≡ cap)
    (n_cap : n ≤ cap) where
  abbrev pub read_part : ℕ
  read_part = part cap (pos % cap) n

  split_out_first :
      take read_part (drop (pos % cap) bytes)
      ≡ tabulate read_part (λ i. get_or bytes ((pos + i) % cap) 0)
  split_out_first =
      take-eq-tabulate read_part (drop (pos % cap) bytes) 0
        (omega (arith, length-drop (pos % cap) bytes, mod-lt pos pos_cap))
      ∙ tabulate_cong read_part _ _ (λ i h.
        get_or-drop (pos % cap) bytes i
        ∙ ap (λ j. get_or bytes j 0)
            (omega (arith, wrap_index cap pos i pos_cap (omega arith), mod-lt pos pos_cap)))

  split_out_second :
      take (n - read_part) bytes
      ≡ tabulate (n - read_part) (λ i. get_or bytes ((pos + (read_part + i)) % cap) 0)
  split_out_second =
      take-eq-tabulate (n - read_part) bytes 0 (omega arith)
      ∙ tabulate_cong (n - read_part) _ _ (λ i h.
        ap (λ j. get_or bytes j 0)
          (omega (
            arith,
            wrap_index cap pos (read_part + i) pos_cap (omega (arith, mod-lt pos pos_cap)),
            mod-lt pos pos_cap,
          )))

  pub split_out-tabulate :
      split_out bytes (pos % cap) n read_part ≡ tabulate n (λ i. get_or bytes ((pos + i) % cap) 0)
  split_out-tabulate =
      let whole : read_part + (n - read_part) ≡ n = omega arith in
      ap₂ ◌++◌ split_out_first split_out_second
      ∙ sym (tabulate-add read_part (n - read_part) (λ i. get_or bytes ((pos + i) % cap) 0))
      ∙ ap (λ m. tabulate m (λ i. get_or bytes ((pos + i) % cap) 0)) whole

pub length-copy_in :
    (rb : Ring) (bytes : List ℕ) (pos : ℕ) (src : List ℕ) (n : ℕ)
    → length (copy_in rb bytes pos src n) ≡ length bytes
unfolding copy_in
length-copy_in rb bytes pos src n =
    let o : ℕ = bit_and pos rb.mask in
    let f : ℕ = first_chunk rb pos n in
    let once : List ℕ = memcpy bytes o src f in
    ground (arith, length-memcpy bytes o src f, length-memcpy once 0 (drop f src) (sub_size n f))
