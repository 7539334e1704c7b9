-- ===== src/EdtTime/Tests.antt =====
-- Times and sleeps at concrete values.
use plat.Base.{◌≡◌, refl, none, some, [], ◌∷◌}
use plat.Base.Text.{codes, print_nat, digits}
use plat.EdtTime.{format_local_time, last_digits, sleep_ns, sleep_loop, returned, asleep}

padded : format_local_time 12000345999 64 ≡ codes "12.000345"
unfolding format_local_time print_nat digits last_digits
padded = refl

cut_off : format_local_time 12000345999 5 ≡ codes "12.0"
unfolding format_local_time print_nat digits last_digits
cut_off = refl

interrupted_twice : sleep_ns 1500000000 (some (1, 200) ∷ some (0, 7) ∷ none ∷ []) ≡ returned
unfolding sleep_ns sleep_loop
interrupted_twice = refl

still_asleep : sleep_ns 1500000000 (some (1, 200) ∷ []) ≡ asleep (1, 200)
unfolding sleep_ns sleep_loop
still_asleep = refl
