-- ===== src/EdtTime.antt =====
-- embedded_debug_toolkit/src/core/edt_time.c: the clocks, the text of a time, and the sleep. The system's clock
-- and nanosleep are given by their results.
mod Tests
use plat.Base.{
  ℕ, zero, suc, ◌+◌, ◌-◌, ◌*◌, ◌/◌, ◌%◌, ◌^◌, ◌&&◌, Option, none, some, List, [], ◌∷◌, ◌++◌, ◌==◌,
  if◌then◌else◌, take,
}
use plat.Base.Text.{Text, codes, print_nat}

-- `struct timespec`: seconds and nanoseconds.
abbrev pub Timespec : Type 0
Timespec = ℕ × ℕ

-- `edt_now_ns`, a uint64_t.
unfoldable pub now_ns : Option Timespec → ℕ
now_ns none = 0
now_ns (some (seconds, nanoseconds)) = (seconds * 1000000000 + nanoseconds) % 2 ^ 64

-- `edt_now_ms`.
unfoldable pub now_ms : Option Timespec → ℕ
now_ms clock = now_ns clock / 1000000

-- The lowest `n` decimal digits, in front of `out`.
unfoldable pub last_digits : ℕ → ℕ → Text → Text
last_digits zero v out = out
last_digits (suc n) v out = last_digits n (v / 10) ((48 + v % 10) ∷ out)

-- `edt_format_local_time` into a buffer of `out_size` bytes, which is not 0: the text in it. The microseconds
-- have six digits at most.
unfoldable pub format_local_time : ℕ → ℕ → Text
format_local_time timestamp_ns out_size = take (out_size - 1) (
    print_nat (timestamp_ns / 1000000000)
    ++ (codes "." ++ last_digits 6 (timestamp_ns % 1000000000 / 1000) []))

-- How the loop of `edt_sleep_ns` ends: it returns 0, or it sleeps for what is left.
pub data Slept : Type 0 where
  returned : Slept
  asleep : Timespec → Slept

-- The loop, with the results of nanosleep: `none` for 0, or what is left when it is interrupted.
unfoldable pub sleep_loop : Timespec → List (Option Timespec) → Slept
sleep_loop req [] = asleep req
sleep_loop req (none ∷ results) = returned
sleep_loop req (some (seconds, nanoseconds) ∷ results) =
    let rest = sleep_loop (seconds, nanoseconds) results in
    if (seconds == 0) && (nanoseconds == 0) then returned else rest

-- `edt_sleep_ns`.
unfoldable pub sleep_ns : ℕ → List (Option Timespec) → Slept
sleep_ns duration_ns results =
    sleep_loop (duration_ns / 1000000000, duration_ns % 1000000000) results
