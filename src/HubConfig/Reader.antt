-- ===== src/HubConfig/Reader.antt =====
-- The JSON reader of smart_home_hub/src/core/hub_config.c, which is this file's own. A pointer into a text
-- is the rest of the text, and a char array the list of its bytes.
use plat.Base.{
  ℕ, zero, suc, ◌-◌, Bool, false, Option, none, some, List, [], ◌∷◌, ◌++◌, ◌==◌, if◌then◌else◌,
  take, drop, length,
}
use plat.Base.Int.{ℤ}
use plat.Base.Text.{Text, is_space, strstr, strchr, strtol, to_int}

-- `skip_ws`.
unfoldable pub skip_config_ws : Text → Text
skip_config_ws [] = []
skip_config_ws (c ∷ s) = let rest = skip_config_ws s in if is_space c then rest else c ∷ s

-- The size of the pattern buffer.
abbrev pub config_pattern : ℕ
config_pattern = 96

-- The key in quotes, as much of it as snprintf puts into the buffer.
unfoldable pub quoted_key : Text → Text
quoted_key key = take (config_pattern - 1) (34 ∷ key ++ 34 ∷ [])

-- `p + 1`, where a text does not end.
unfoldable pub tail : Text → Text
tail [] = []
tail (c ∷ p) = p

-- What follows the first match of the pattern.
unfoldable pub value_after : Text → Option Text
value_after p = elim (strchr p 58) [ none ↦ none | some colon ↦ some (skip_config_ws (tail colon)) ]

-- This file's `json_find_key`: `none` is -1.
unfoldable pub find_config_key : Text → Text → Option Text
find_config_key json key = elim (strstr json (quoted_key key)) [
  | none ↦ none
  | some p ↦ value_after (drop (length (quoted_key key)) p)
]

-- Whether a pointer points to a quote.
unfoldable pub at_quote : Text → Bool
at_quote [] = false
at_quote (c ∷ p) = c == 34

-- `len` after the loop that copies, with `room` bytes left but for the final zero.
unfoldable pub value_length : ℕ → Text → ℕ
value_length zero p = 0
value_length (suc room) [] = 0
value_length (suc room) (c ∷ p) = let len = value_length room p in if c == 34 then 0 else suc len

-- The array after the loop that copies `len` bytes, and after `out[len] = '\0'`.
unfoldable pub copied_bytes : ℕ → Text → List ℕ → List ℕ
copied_bytes len p out = take len p ++ drop len out

unfoldable pub ended_bytes : ℕ → Text → List ℕ → List ℕ
ended_bytes len p out = take len p ++ 0 ∷ drop (suc len) out

-- A value after its opening quote. The bytes of a value without a closing quote stay in the array.
unfoldable pub copy_value : Text → List ℕ → List ℕ
copy_value p out =
    let len = value_length (length out - 1) p in
    if at_quote (drop len p) then ended_bytes len p out else copied_bytes len p out

-- This file's `json_get_string`, whose result is ignored: what stays in the array.
unfoldable pub read_text : Text → Text → List ℕ → List ℕ
read_text json key out = elim (find_config_key json key) [
  | none ↦ out
  | some p ↦ if at_quote p then copy_value (tail p) out else out
]

-- This file's `json_get_int`, whose result is ignored too: what stays in the variable.
unfoldable pub read_int : Text → Text → ℤ → ℤ
read_int json key old = elim (find_config_key json key) [
  | none ↦ old
  | some p ↦ elim (strtol p) [ none ↦ old | some v ↦ to_int v ]
]
