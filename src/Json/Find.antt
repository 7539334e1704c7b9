-- ===== src/Json/Find.antt =====
-- What the reader of json_rpc_dispatch.c passes over, and the ids that it reads.
use plat.Base.{
  ℕ, zero, suc, ◌≤◌, ◌≡◌, ◌≢◌, refl, ◌∙◌, true, false, [], ◌∷◌, ◌++◌, ◌==◌, length, arith,
}
use plat.Base.Text.{Text, is_space, is_digit, starts_with, strstr, skip_spaces}
use plat.Base.Text.Decimal.{AllDigits}
use plat.Json.{copy_raw, trim_end, is_nil, skip_ws}

digit_no_quote : (c : ℕ) → is_digit c ≡ true → (34 == c) ≡ false
unfolding is_digit
digit_no_quote c h = ground arith

strstr-other :
    (c : ℕ) (s pattern : Text)
    → (34 == c) ≡ false
    → strstr (c ∷ s) (34 ∷ pattern) ≡ strstr s (34 ∷ pattern)
unfolding strstr starts_with
strstr-other c s pattern h = rw (strstr, h) refl

-- A search for a key passes over digits.
pub strstr-digits :
    (number rest pattern : Text)
    → AllDigits number
    → strstr (number ++ rest) (34 ∷ pattern) ≡ strstr rest (34 ∷ pattern)
strstr-digits [] rest pattern h = refl
strstr-digits (c ∷ number) rest pattern (d, h) =
    strstr-other c (number ++ rest) pattern (digit_no_quote c d)
    ∙ strstr-digits number rest pattern h

-- An id as the reader takes it: no comma, brace or space.
abbrev pub AllPlain : Text → Type 0
AllPlain [] = Unit
AllPlain (c ∷ s) = (c ≢ 44) × (c ≢ 125) × (is_space c ≡ false) × AllPlain s

pub record IsId (id : Text) : Type 0 where
  pub plain : AllPlain id
  pub some_byte : is_nil id ≡ false
  pub short : length id ≤ 63

pub copy_raw-plain :
    (room : ℕ) (id : Text) → AllPlain id → length id ≤ room → copy_raw room (id ++ 125 ∷ []) ≡ id
unfolding copy_raw
copy_raw-plain zero [] h k = refl
copy_raw-plain zero (c ∷ id) h k = absurd (omega arith)
copy_raw-plain (suc room) [] h k = refl
copy_raw-plain (suc room) (c ∷ id) (a, b, s, h) k =
    let rest = copy_raw-plain room id h (omega arith) in ground (arith, a, b, rest)

pub trim_end-plain : (id : Text) → AllPlain id → trim_end id ≡ id
unfolding trim_end
trim_end-plain [] h = refl
trim_end-plain (c ∷ id) (a, b, s, h) = rw (s, trim_end-plain id h) refl

pub skip_ws-plain :
    (id rest : Text) → AllPlain id → is_nil id ≡ false → skip_ws (id ++ rest) ≡ id ++ rest
unfolding skip_ws skip_spaces is_nil
skip_ws-plain [] rest h k = cc
skip_ws-plain (c ∷ id) rest (a, b, s, h) k = rw (skip_spaces, s) refl
