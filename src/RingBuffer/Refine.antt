-- ===== src/RingBuffer/Refine.antt =====
-- The operations of ring_buffer.c implement the bounded queue.
use plat.Base.{
  ℕ, ◌-◌, ◌^◌, ◌≤◌, ◌≡◌, refl, sym, inl, inr, ◌⊎◌, List, [], ◌++◌, length, take, drop,
  length-tabulate, arith, min,
}
use mathlib.Core.List.{append-nil}
use plat.Base.Bits.{pow_lt_size}
use plat.RingBuffer.{Ring, copy_out, write_count, read_count, write, read, peek, reset}
use plat.RingBuffer.Inv.{IsValid, storage, held, contents}
use plat.RingBuffer.Moves.{
  wrote, took, contents-wrote, wrote-IsValid, read-bytes, contents-took, took-IsValid,
}

module _ (k : ℕ) (rb : Ring) (v : IsValid k rb) where
  pub length-contents : length (contents k rb) ≡ held rb
  length-contents = length-tabulate (held rb) _

  write_count-min : (len : ℕ) → write_count rb len ≡ min len (2 ^ k - held rb)
  unfolding write_count
  write_count-min len =
      ground (arith, v.geometry.capacity_pow, pow_lt_size k v.geometry.fits, v.held_fits)

  read_count-min : (len : ℕ) → read_count rb len ≡ min len (held rb)
  unfolding read_count
  read_count-min len = ground arith

  write_cases :
      (src : List ℕ) (len : ℕ)
      → let n = min len (2 ^ k - held rb) in
        ((n ≡ 0) × (write rb src len ≡ (0, rb))) ⊎ (write rb src len ≡ (n, wrote rb src n))
  unfolding write
  write_cases src len = ground (arith, v.live, write_count-min len)

  read_cases :
      (len : ℕ)
      → let n = min len (held rb) in
        ((n ≡ 0) × (read rb len ≡ (0, [], rb)) × (peek rb len ≡ (0, [])))
        ⊎ ((read rb len ≡ (n, copy_out rb (storage rb) rb.read_pos n, took rb n))
            × (peek rb len ≡ (n, copy_out rb (storage rb) rb.read_pos n)))
  unfolding read peek
  read_cases len = ground (arith, v.live, read_count-min len)

  -- A write takes as many bytes as are offered and fit, appends just those, and keeps the ring valid.
  pub write_refines :
      (src : List ℕ) (len : ℕ)
      → len ≤ length src
      → let n = min len (2 ^ k - length (contents k rb)) in
        let (count, rb') = write rb src len in
        (count ≡ n) × (contents k rb' ≡ contents k rb ++ take n src) × IsValid k rb'
  write_refines src len enough = rw length-contents (elim (write_cases src len) [
    | inl (none_fit, e) ↦ rw (e, none_fit) (refl, sym (append-nil _), v)
    | inr e ↦ rw e (
      refl,
      contents-wrote k rb v src _ (omega (arith, v.held_fits)) (omega arith),
      wrote-IsValid k rb v src _ (omega (arith, v.held_fits)) (omega arith),
    )
  ])

  -- A read gives the oldest bytes, as many as are asked for and held, removes just those, and keeps
  -- the ring valid. A peek gives the same bytes.
  pub read_refines :
      (len : ℕ)
      → let n = min len (length (contents k rb)) in
        let (count, out, rb') = read rb len in
        (count ≡ n)
        × (out ≡ take n (contents k rb))
        × (contents k rb' ≡ drop n (contents k rb))
        × IsValid k rb'
        × (peek rb len ≡ (count, out))
  read_refines len = rw length-contents (elim (read_cases len) [
    | inl (none_held, e, e') ↦ rw (e, e', none_held) (refl, refl, refl, v, refl)
    | inr (e, e') ↦
        rw (e, e')
          (
            refl,
            read-bytes k rb v _ (omega arith),
            contents-took k rb v _ (omega arith),
            took-IsValid k rb v _ (omega arith),
            refl,
          )
  ])

  pub reset_empties : (contents k (reset rb) ≡ []) × IsValid k (reset rb)
  unfolding reset
  reset_empties = (
    refl,
    record {
      geometry = record {
        two = v.geometry.two;
        fits = v.geometry.fits;
        capacity_pow = v.geometry.capacity_pow;
        mask_pow = v.geometry.mask_pow;
      };
      live = v.live;
      size = v.size;
      write_word = omega arith;
      read_word = omega arith;
      held_fits = omega arith;
    },
  )
