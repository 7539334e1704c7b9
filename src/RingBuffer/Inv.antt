-- ===== src/RingBuffer/Inv.antt =====
-- The representation invariant of the ring, the queue of bytes that it holds, and the arithmetic of its
-- free-running positions, which wrap at 2 ^ 64.
use native.Mathlib.Nat.{mod-mod_of_dvd, mod-add-mod, add-mod_right}
use Prim.Native.Nat.{◌∣◌}
use plat.Base.{
  ℕ, ◌+◌, ◌-◌, ◌%◌, ◌^◌, ◌≤◌, ◌<◌, ◌≡◌, sym, ap, ◌∙◌, none, some, List, [], length, get_or,
  tabulate, arith,
}
use plat.Base.Bits.{pow-add}
use plat.Base.Words.{sub_size}
use plat.RingBuffer.{Ring}
use plat.RingBuffer.Copy.{Geometry}

abbrev pub storage : Ring → List ℕ
storage rb = elim rb.bytes [ none ↦ [] | some bytes ↦ bytes ]

abbrev pub held : Ring → ℕ
held rb = sub_size rb.write_pos rb.read_pos

-- A live ring of capacity 2 ^ k: its storage has that size, and holds at most as many bytes.
pub record IsValid (k : ℕ) (rb : Ring) : Type 0 where
  pub geometry : Geometry k rb
  pub live : rb.bytes ≡ some (storage rb)
  pub size : length (storage rb) ≡ 2 ^ k
  pub write_word : rb.write_pos < 2 ^ 64
  pub read_word : rb.read_pos < 2 ^ 64
  pub held_fits : held rb ≤ 2 ^ k

-- The byte `i` places on from the read position.
abbrev pub byte_at : ℕ → Ring → ℕ → ℕ
byte_at k rb i = get_or (storage rb) ((rb.read_pos + i) % 2 ^ k) 0

-- The bytes that the ring holds, oldest first.
abbrev pub contents : ℕ → Ring → List ℕ
contents k rb = tabulate (held rb) (byte_at k rb)

pub pow-dvd : (k : ℕ) → k < 64 → 2 ^ k ∣ 2 ^ 64
pow-dvd k h = ∣ (2 ^ (64 - k), ap (λ e. 2 ^ e) {x = 64} (omega arith) ∙ pow-add k (64 - k)) ∣₁

-- A position that has wrapped points to the same index.
pub wrapped_index : (k p x : ℕ) → k < 64 → (p % 2 ^ 64 + x) % 2 ^ k ≡ (p + x) % 2 ^ k
wrapped_index k p x h =
    sym (mod-add-mod (p % 2 ^ 64) (2 ^ k) x)
    ∙ ap (λ t. (t + x) % 2 ^ k) (mod-mod_of_dvd (2 ^ k) p (pow-dvd k h))
    ∙ mod-add-mod p (2 ^ k) x

module _ (k : ℕ) (rb : Ring) (v : IsValid k rb) where
  pub held_index : (x : ℕ) → (rb.write_pos + x) % 2 ^ k ≡ (rb.read_pos + (held rb + x)) % 2 ^ k
  held_index x =
      let w : rb.write_pos ≡ (rb.read_pos + held rb) % 2 ^ 64 =
        omega (arith, v.write_word, v.read_word) in
      ap (λ p. (p + x) % 2 ^ k) w
      ∙ wrapped_index k (rb.read_pos + held rb) x v.geometry.fits
      ∙ ap (λ p. p % 2 ^ k) (omega arith)

  -- An index that holds a byte lies past the free places, counted from the write position.
  pub held_place :
      (i : ℕ)
      → i < held rb
      → (rb.read_pos + i) % 2 ^ k ≡ (rb.write_pos + (2 ^ k - held rb + i)) % 2 ^ k
  held_place i h =
      sym (add-mod_right (rb.read_pos + i) (2 ^ k))
      ∙ ap (λ p. p % 2 ^ k) (omega (arith, v.held_fits))
      ∙ sym (held_index (2 ^ k - held rb + i))
