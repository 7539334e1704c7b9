-- ===== src/RingBuffer/Moves.antt =====
-- What a write of `n` bytes and a read of `n` bytes do to a valid ring, the counts being given.
use plat.Base.{
  ℕ, ◌+◌, ◌-◌, ◌%◌, ◌^◌, ◌≤◌, ◌<◌, ◌≡◌, refl, sym, ap, ap₂, ◌∙◌, some, List, ◌++◌, length, get_or,
  take, drop, tabulate, tabulate_cong, tabulate-add, take-tabulate, drop-tabulate, take-eq-tabulate,
  arith,
}
use native.Mathlib.Nat.{one-le-pow}
use plat.Base.Bits.{pow_lt_size}
use plat.Base.Words.{add_size}
use plat.RingBuffer.{Ring, copy_in, copy_out}
use plat.RingBuffer.Copy.{
  copy_in-split, copy_out-split, split_in-new, split_in-old, split_out-tabulate, length-copy_in,
}
use plat.RingBuffer.Inv.{
  IsValid, storage, held, byte_at, contents, held_index, held_place, wrapped_index,
}

-- The ring after `n` bytes have been written, and after `n` have been read.
abbrev pub wrote : Ring → List ℕ → ℕ → Ring
wrote rb src n = record rb {
  bytes = some (copy_in rb (storage rb) rb.write_pos src n);
  write_pos = add_size rb.write_pos n;
}

abbrev pub took : Ring → ℕ → Ring
took rb n = record rb { read_pos = add_size rb.read_pos n }

module _ (k : ℕ) (rb : Ring) (v : IsValid k rb) where
  pub held-wrote :
      (src : List ℕ) (n : ℕ) → held rb + n ≤ 2 ^ k → held (wrote rb src n) ≡ held rb + n
  held-wrote src n h = omega (arith, pow_lt_size k v.geometry.fits)

  pub held-took : (n : ℕ) → n ≤ held rb → held (took rb n) ≡ held rb - n
  held-took n h = omega arith

  pub cap_pos : 0 < 2 ^ k
  cap_pos = one-le-pow k 2 (omega arith)

  module _ (src : List ℕ) (n : ℕ) (room : held rb + n ≤ 2 ^ k) (enough : n ≤ length src) where
    wrote_old : (i : ℕ) → i < held rb → byte_at k (wrote rb src n) i ≡ byte_at k rb i
    wrote_old i h =
        let t : ℕ = 2 ^ k - held rb + i in
        rw
          (
            held_place k rb v i h,
            copy_in-split k rb v.geometry (storage rb) rb.write_pos src n (omega arith),
          )
          (split_in-old (2 ^ k) rb.write_pos (storage rb) src n t cap_pos v.size (omega arith)
            enough (omega arith) (omega arith))

    wrote_new : (j : ℕ) → j < n → byte_at k (wrote rb src n) (held rb + j) ≡ get_or src j 0
    wrote_new j h =
        rw
          (
            ← held_index k rb v j,
            copy_in-split k rb v.geometry (storage rb) rb.write_pos src n (omega arith),
          )
          (split_in-new (2 ^ k) rb.write_pos (storage rb) src n j cap_pos v.size (omega arith)
            enough (omega arith) h)

    pub contents-wrote : contents k (wrote rb src n) ≡ contents k rb ++ take n src
    contents-wrote =
        ap (λ m. tabulate m (byte_at k (wrote rb src n))) (held-wrote src n room)
        ∙ tabulate-add (held rb) n (byte_at k (wrote rb src n))
        ∙ ap₂ ◌++◌ (tabulate_cong (held rb) _ _ wrote_old)
            (tabulate_cong n _ _ wrote_new ∙ sym (take-eq-tabulate n src 0 enough))

    pub wrote-IsValid : IsValid k (wrote rb src n)
    wrote-IsValid = record {
      geometry = record {
        two = v.geometry.two;
        fits = v.geometry.fits;
        capacity_pow = v.geometry.capacity_pow;
        mask_pow = v.geometry.mask_pow;
      };
      live = refl;
      size = length-copy_in rb (storage rb) rb.write_pos src n ∙ v.size;
      write_word = omega arith;
      read_word = v.read_word;
      held_fits = omega (arith, held-wrote src n room);
    }

  module _ (n : ℕ) (there : n ≤ held rb) where
    pub read-bytes : copy_out rb (storage rb) rb.read_pos n ≡ take n (contents k rb)
    read-bytes =
        copy_out-split k rb v.geometry (storage rb) rb.read_pos n (omega (arith, v.held_fits))
        ∙ split_out-tabulate (2 ^ k) rb.read_pos (storage rb) n cap_pos v.size
            (omega (arith, v.held_fits))
        ∙ sym (take-tabulate n (held rb) (byte_at k rb) there)

    pub took_byte : (i : ℕ) → byte_at k (took rb n) i ≡ byte_at k rb (n + i)
    took_byte i =
        ap (λ p. get_or (storage rb) p 0)
          (wrapped_index k (rb.read_pos + n) i v.geometry.fits ∙ ap (λ p. p % 2 ^ k) (omega arith))

    pub contents-took : contents k (took rb n) ≡ drop n (contents k rb)
    contents-took =
        let rest : n + (held rb - n) ≡ held rb = omega arith in
        ap (λ m. tabulate m (byte_at k (took rb n))) (held-took n there)
        ∙ tabulate_cong (held rb - n) _ _ (λ i h. took_byte i)
        ∙ sym (drop-tabulate n (held rb - n) (byte_at k rb))
        ∙ ap (λ m. drop n (tabulate m (byte_at k rb))) rest

    pub took-IsValid : IsValid k (took rb n)
    took-IsValid = record {
      geometry = record {
        two = v.geometry.two;
        fits = v.geometry.fits;
        capacity_pow = v.geometry.capacity_pow;
        mask_pow = v.geometry.mask_pow;
      };
      live = v.live;
      size = v.size;
      write_word = v.write_word;
      read_word = omega arith;
      held_fits = omega (arith, held-took n there, v.held_fits);
    }
