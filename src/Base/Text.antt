-- ===== src/Base/Text.antt =====
-- Texts of C: lists of bytes without the closing zero, and the functions of the C library that the
-- hub uses on them (strstr, strchr, strcmp, isspace, strtol and the %d of printf).
pub mod Decimal
use Prim.Native.Char.{code}
use Prim.Native.String.{String}
use plat.Base.{
  ℕ, zero, suc, ◌+◌, ◌-◌, ◌*◌, ◌/◌, ◌%◌, ◌^◌, Bool, true, false, not, ◌&&◌, ◌||◌, Option, none,
  some, List, [], ◌∷◌, ◌++◌, ltb, leb, ◌==◌, if◌then◌else◌, length, take, drop, min,
}
use plat.Base.Int.{ℤ, pos, negsuc}

abbrev pub Text : Type 0
Text = List ℕ

-- The bytes of an ASCII literal.
abbrev pub codes : String → Text
codes String.[] = []
codes (String.◌∷◌ c s) = code c ∷ codes s

-- `strcmp(s, t) == 0`
unfoldable pub same_text : Text → Text → Bool
same_text [] [] = true
same_text [] (c ∷ t) = false
same_text (c ∷ s) [] = false
same_text (c ∷ s) (d ∷ t) = (c == d) && same_text s t

-- `isspace` in the C locale.
unfoldable pub is_space : ℕ → Bool
is_space c = (c == 32) || (leb 9 c && leb c 13)

unfoldable pub is_digit : ℕ → Bool
is_digit c = leb 48 c && leb c 57

-- Whether `pattern` stands at the start of a text.
unfoldable pub starts_with : Text → Text → Bool
starts_with [] s = true
starts_with (c ∷ pattern) [] = false
starts_with (c ∷ pattern) (d ∷ s) = (c == d) && starts_with pattern s

-- What strstr and strchr point to: the rest of the text from the match on.
unfoldable pub strstr : Text → Text → Option Text
strstr [] pattern = if starts_with pattern [] then some [] else none
strstr (c ∷ s) pattern = elim (starts_with pattern (c ∷ s)) [
  | true ↦ some (c ∷ s)
  | false ↦ strstr s pattern
]

unfoldable pub strchr : Text → ℕ → Option Text
strchr [] d = none
strchr (c ∷ s) d = elim (c == d) [ true ↦ some (c ∷ s) | false ↦ strchr s d ]

unfoldable pub skip_spaces : Text → Text
skip_spaces [] = []
skip_spaces (c ∷ s) = elim (is_space c) [ true ↦ skip_spaces s | false ↦ c ∷ s ]

-- The value of the digits that a text starts with, after `n`.
unfoldable pub digits_value : ℕ → Text → ℕ
digits_value n [] = n
digits_value n (c ∷ s) = elim (is_digit c) [ true ↦ digits_value (n * 10 + (c - 48)) s | false ↦ n ]

unfoldable pub starts_digit : Text → Bool
starts_digit [] = false
starts_digit (c ∷ s) = is_digit c

-- A long has 64 bits; strtol stops at its bounds.
unfoldable pub negative : ℕ → ℤ
negative zero = pos 0
negative (suc n) = negsuc (min n (2 ^ 63 - 1))

unfoldable pub signed_value : Text → Option ℤ
signed_value s = if starts_digit s then some (pos (min (digits_value 0 s) (2 ^ 63 - 1))) else none

unfoldable pub after_space : Text → Option ℤ
after_space [] = none
after_space (c ∷ s) =
    if c == 45
    then (if starts_digit s then some (negative (digits_value 0 s)) else none)
    else if c == 43
    then signed_value s
    else signed_value (c ∷ s)

-- `strtol(s, &end, 10)`: `none` if it converts nothing.
unfoldable pub strtol : Text → Option ℤ
strtol s = after_space (skip_spaces s)

-- A long converted to int: its lowest 32 bits as a signed number.
unfoldable pub word_to_int : ℕ → ℤ
word_to_int w = if ltb w (2 ^ 31) then pos w else negsuc (2 ^ 32 - 1 - w)

unfoldable pub to_int : ℤ → ℤ
to_int (pos n) = word_to_int (n % 2 ^ 32)
to_int (negsuc n) = word_to_int (2 ^ 32 - 1 - n % 2 ^ 32)

-- The decimal digits of `n` in front of `out`; the fuel is enough if `n` is below it.
unfoldable pub digits : ℕ → ℕ → Text → Text
digits zero n out = out
digits (suc fuel) n out = elim (n / 10) [
  | zero ↦ (48 + n % 10) ∷ out
  | suc k ↦ digits fuel (suc k) ((48 + n % 10) ∷ out)
]

unfoldable pub print_nat : ℕ → Text
print_nat n = digits (n + 1) n []

-- %d
unfoldable pub print_int : ℤ → Text
print_int (pos n) = print_nat n
print_int (negsuc n) = 45 ∷ print_nat (n + 1)
