-- ===== src/Base/Words.antt =====
-- size_t, uint64_t and uint32_t arithmetic: every operation that can wrap says so.
use Prim.Native.Nat.{ℕ, ◌+◌, ◌-◌, ◌*◌, ◌%◌, ◌^◌}

abbrev pub size_mod : ℕ
size_mod = 2 ^ 64

-- a + b and a - b of two size_t (or uint64_t) values.
abbrev pub add_size : ℕ → ℕ → ℕ
add_size a b = (a + b) % 2 ^ 64

abbrev pub sub_size : ℕ → ℕ → ℕ
sub_size a b = (a + 2 ^ 64 - b) % 2 ^ 64

abbrev pub mul_size : ℕ → ℕ → ℕ
mul_size a b = a * b % 2 ^ 64

-- A value converted to uint32_t, and to uint8_t.
abbrev pub to_u32 : ℕ → ℕ
to_u32 a = a % 2 ^ 32

abbrev pub to_u8 : ℕ → ℕ
to_u8 a = a % 2 ^ 8
