-- ===== src/RingBuffer/Tests.antt =====
-- The theorems of the ring at concrete rings, and runs of its functions.
use plat.Base.{
  ℕ, ◌+◌, ◌-◌, ◌^◌, ◌≤◌, ◌≡◌, refl, Option, none, some, List, [], ◌∷◌, ◌++◌, arith, length,
  replicate, length-replicate-some,
}
use plat.RingBuffer.{
  Ring, init, write, read, round_up_from, write_count, read_count, copy_out, first_chunk,
}
use plat.RingBuffer.Inv.{IsValid, contents, held}
use plat.RingBuffer.Capacity.{round_up_from_never_ends}
use plat.RingBuffer.Create.{Created, init-Created, run, run_refines}
use plat.RingBuffer.Queue
use plat.RingBuffer.Queue.{Op, put, get, look, clear}
use plat.RingBuffer.Spsc.{System, filling, here, next, start_write}
use plat.RingBuffer.Spsc.Delivery.{at_rest, spsc_delivers}

-- Four bytes of storage. The write position has wrapped at 2 ^ 64; the bytes 7, 8, 9 are held.
abbrev wrapped : Ring
wrapped = record {
  bytes = some (9 ∷ 0 ∷ 7 ∷ 8 ∷ []);
  capacity = 4;
  mask = 3;
  write_pos = 1;
  read_pos = 2 ^ 64 - 2;
}

wrapped-IsValid : IsValid 2 wrapped
wrapped-IsValid = record {
  geometry = record { two = omega arith; fits = omega arith; capacity_pow = refl; mask_pow = refl };
  live = refl;
  size = refl;
  write_word = omega arith;
  read_word = omega arith;
  held_fits = omega arith;
}

contents-wrapped : contents 2 wrapped ≡ 7 ∷ 8 ∷ 9 ∷ []
contents-wrapped = refl

write_takes_what_fits : (write wrapped (5 ∷ 6 ∷ []) 2).0 ≡ 1
unfolding write write_count
write_takes_what_fits = refl

read_goes_round : (read wrapped 5).1 ≡ 7 ∷ 8 ∷ 9 ∷ []
unfolding read read_count copy_out first_chunk
read_goes_round = refl

-- Every request is granted: a calloc of zeros.
abbrev zeros : ℕ → Option (List ℕ)
zeros n = some (replicate n 0)

zeros_sized : (m : ℕ) (bytes : List ℕ) → zeros m ≡ some bytes → length bytes ≡ m
zeros_sized m bytes e = length-replicate-some m 0 bytes e

init-Created_example : Created zeros 5 (init zeros 5)
init-Created_example = init-Created zeros 5 zeros_sized (omega arith) (omega arith)

abbrev history : List Op
history = put (5 ∷ 6 ∷ []) 2 ∷ look 2 ∷ get 5 ∷ clear ∷ []

run_refines_example : run wrapped history ≡ Queue.run 4 (7 ∷ 8 ∷ 9 ∷ []) history
run_refines_example = run_refines 2 wrapped history wrapped-IsValid (omega arith)

round_up_from_never_ends_example : round_up_from 1000 1 (2 ^ 63 + 1) ≡ none
round_up_from_never_ends_example =
    round_up_from_never_ends 1000 (2 ^ 63 + 1) (omega arith) (omega arith)

abbrev emptied : Ring
emptied = record wrapped { write_pos = 0; read_pos = 0 }

emptied-IsValid : IsValid 2 emptied
emptied-IsValid = record {
  geometry = record { two = omega arith; fits = omega arith; capacity_pow = refl; mask_pow = refl };
  live = refl;
  size = refl;
  write_word = omega arith;
  read_word = omega arith;
  held_fits = omega arith;
}

abbrev begun : System
begun = record (at_rest emptied) { writer = filling (5 ∷ 6 ∷ []) (write_count emptied 2) 0 }

spsc_delivers_example : ([] ++ contents 2 emptied ≡ []) × (held emptied ≤ 2 ^ 2)
spsc_delivers_example =
    spsc_delivers 2 emptied begun emptied-IsValid refl
      (next here (start_write (5 ∷ 6 ∷ []) 2 refl (omega arith)))
