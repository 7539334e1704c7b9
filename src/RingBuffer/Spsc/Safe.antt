-- ===== src/RingBuffer/Spsc/Safe.antt =====
-- The invariant of the interleaved ring, and what one byte, one published write and one published
-- read do to it.
use native.Mathlib.Nat.{mod-lt}
use plat.Base.{
  ℕ, suc, ◌+◌, ◌%◌, ◌^◌, ◌≤◌, ◌<◌, ◌≡◌, ◌≢◌, refl, sym, ap, ◌∙◌, List, ◌++◌, length, get_or, take,
  tabulate, tabulate_cong, tabulate-add, arith, dec_lt, length-set, get_or-set_at, get_or-set_off,
  take-eq-tabulate,
}
use plat.Base.Bits.{pow_lt_size}
use plat.Base.Memory.{wrap_index}
use plat.RingBuffer.{Ring, write_count, read_count}
use plat.RingBuffer.Copy.{offset, offset_lt, first_chunk-part}
use plat.RingBuffer.Inv.{IsValid, storage, held, byte_at, contents}
use plat.RingBuffer.Moves.{cap_pos, held-took, took_byte}
use plat.RingBuffer.Spsc.{
  Writer, resting, filling, Reader, waiting, draining, System, place, store_byte, publish_write,
  publish_read,
}

-- Two places less than a turn apart have different indices.
distinct : (cap pos i j : ℕ) → 0 < cap → i < j → j < cap → (pos + i) % cap ≢ (pos + j) % cap
distinct cap pos i j h hij hj e = omega (
  arith,
  wrap_index cap pos i h (omega arith),
  wrap_index cap pos j h (omega arith),
  e,
  mod-lt pos h,
)

module _ (k : ℕ) (rb : Ring) (v : IsValid k rb) where
  pub place_lem : (pos n t : ℕ) → t < n → n ≤ 2 ^ k → place rb pos n t ≡ (pos + t) % 2 ^ k
  unfolding place
  place_lem pos n t h hn =
      rw (first_chunk-part k rb v.geometry pos n, offset k rb v.geometry pos)
        (ground (
          arith,
          wrap_index (2 ^ k) pos t (cap_pos k rb v) (omega arith),
          offset_lt k rb v.geometry pos,
        ))

  -- A byte stored `j` places on from the read position is seen there, and nowhere else.
  pub stored_at :
      (j x : ℕ) → j < 2 ^ k → byte_at k (store_byte rb ((rb.read_pos + j) % 2 ^ k) x) j ≡ x
  stored_at j x h =
      get_or-set_at (storage rb) ((rb.read_pos + j) % 2 ^ k) x 0
        (omega (arith, v.size, mod-lt (rb.read_pos + j) (cap_pos k rb v)))

  pub stored_off :
      (i j x : ℕ)
      → i < j
      → j < 2 ^ k
      → byte_at k (store_byte rb ((rb.read_pos + j) % 2 ^ k) x) i ≡ byte_at k rb i
  stored_off i j x hij hj =
      get_or-set_off (storage rb) _ _ x 0
        (λ e. distinct (2 ^ k) rb.read_pos i j (cap_pos k rb v) hij hj (sym e))

  pub store_byte-IsValid : (i x : ℕ) → IsValid k (store_byte rb i x)
  store_byte-IsValid i x = record {
    geometry = record {
      two = v.geometry.two;
      fits = v.geometry.fits;
      capacity_pow = v.geometry.capacity_pow;
      mask_pow = v.geometry.mask_pow;
    };
    live = refl;
    size = length-set (storage rb) i x ∙ v.size;
    write_word = v.write_word;
    read_word = v.read_word;
    held_fits = v.held_fits;
  }

-- What a thread has done so far in its call, of a ring that the other thread changes too.
abbrev pub WriterOk : ℕ → Ring → Writer → Type 0
WriterOk k rb resting = Unit {0}
WriterOk k rb (filling src n t) =
    (n ≤ length src)
    × (held rb + n ≤ 2 ^ k)
    × (t ≤ n)
    × ((i : ℕ) → i < t → byte_at k rb (held rb + i) ≡ get_or src i 0)

abbrev pub ReaderOk : ℕ → Ring → Reader → Type 0
ReaderOk k rb waiting = Unit {0}
ReaderOk k rb (draining n out) =
    (n ≤ held rb) × (length out ≤ n) × (out ≡ tabulate (length out) (byte_at k rb))

-- The invariant: what was received, with what the ring holds, is what was sent.
pub record IsSafe (k : ℕ) (s : System) : Type 0 where
  pub valid : IsValid k s.ring
  pub writer_ok : WriterOk k s.ring s.writer
  pub reader_ok : ReaderOk k s.ring s.reader
  pub delivered : s.received ++ contents k s.ring ≡ s.sent

pub write_count-fits :
    (k : ℕ) (rb : Ring) (len : ℕ)
    → IsValid k rb
    → (write_count rb len ≤ len) × (held rb + write_count rb len ≤ 2 ^ k)
unfolding write_count
write_count-fits k rb len v =
    ground (arith, v.geometry.capacity_pow, pow_lt_size k v.geometry.fits, v.held_fits)

pub read_count-fits : (rb : Ring) (len : ℕ) → read_count rb len ≤ held rb
unfolding read_count
read_count-fits rb len = ground arith

-- A byte stored past the held ones leaves the contents, and what the reader has seen.
module _ (k : ℕ) (rb : Ring) (v : IsValid k rb) (t x : ℕ) (room : held rb + t < 2 ^ k) where
  abbrev pub stored : Ring
  stored = store_byte rb ((rb.read_pos + (held rb + t)) % 2 ^ k) x

  pub stored_keeps : (i : ℕ) → i < held rb + t → byte_at k stored i ≡ byte_at k rb i
  stored_keeps i h = stored_off k rb v i (held rb + t) x h room

  pub contents-stored : contents k stored ≡ contents k rb
  contents-stored = tabulate_cong (held rb) _ _ (λ i h. stored_keeps i (omega arith))

  pub stored-ReaderOk : (r : Reader) → ReaderOk k rb r → ReaderOk k stored r
  stored-ReaderOk waiting ok = tt
  stored-ReaderOk (draining n out) (there, some_left, e) = (
    there,
    some_left,
    e ∙ sym (tabulate_cong (length out) _ _ (λ i h. stored_keeps i (omega arith))),
  )

  pub stored-WriterOk :
      (src : List ℕ) (n : ℕ)
      → x ≡ get_or src t 0
      → t < n
      → WriterOk k rb (filling src n t)
      → WriterOk k stored (filling src n (suc t))
  stored-WriterOk src n e more (enough, fits, _, old) = (
    enough,
    fits,
    more,
    λ i h. elim (dec_lt i t) [
      | yes p ↦ stored_keeps (held rb + i) (omega arith) ∙ old i p
      | no p ↦ let last : i ≡ t = omega arith in rw last (stored_at k rb v (held rb + t) x room ∙ e)
    ],
  )

-- Publishing a write adds the copied bytes; publishing a read removes the fetched ones.
module _ (k : ℕ) (rb : Ring) (v : IsValid k rb) (n : ℕ) where
  held_published : held rb + n ≤ 2 ^ k → held (publish_write rb n) ≡ held rb + n
  held_published h = omega (arith, pow_lt_size k v.geometry.fits)

  pub contents-published :
      (src : List ℕ)
      → WriterOk k rb (filling src n n)
      → contents k (publish_write rb n) ≡ contents k rb ++ take n src
  contents-published src (enough, fits, _, copied) =
      ap (λ m. tabulate m (byte_at k rb)) (held_published fits)
      ∙ tabulate-add (held rb) n (byte_at k rb)
      ∙ ap (λ ys. contents k rb ++ ys)
          (tabulate_cong n _ _ copied ∙ sym (take-eq-tabulate n src 0 enough))

  pub published-IsValid : held rb + n ≤ 2 ^ k → IsValid k (publish_write rb n)
  published-IsValid h = record {
    geometry = record {
      two = v.geometry.two;
      fits = v.geometry.fits;
      capacity_pow = v.geometry.capacity_pow;
      mask_pow = v.geometry.mask_pow;
    };
    live = v.live;
    size = v.size;
    write_word = omega arith;
    read_word = v.read_word;
    held_fits = omega (arith, held_published h);
  }

  pub published-ReaderOk :
      held rb + n ≤ 2 ^ k → (r : Reader) → ReaderOk k rb r → ReaderOk k (publish_write rb n) r
  published-ReaderOk h waiting ok = tt
  published-ReaderOk h (draining m out) (there, left, e) =
      (omega (arith, held_published h), left, e)

  -- After the read the held bytes stand `n` places nearer.
  pub taken-WriterOk :
      n ≤ held rb → (w : Writer) → WriterOk k rb w → WriterOk k (publish_read rb n) w
  taken-WriterOk h resting ok = tt
  taken-WriterOk h (filling src m t) (enough, fits, part, copied) = (
    enough,
    omega (arith, held-took k rb v n h),
    part,
    λ i p.
        took_byte k rb v n h (held (publish_read rb n) + i)
        ∙ ap (byte_at k rb) (omega (arith, held-took k rb v n h))
        ∙ copied i p,
  )
