-- ===== src/Json.antt =====
-- The JSON reader of smart_home_hub/src/rpc/json_rpc_dispatch.c. src/core/hub_config.c has a copy of
-- its first functions with a larger pattern buffer (HubConfig). A buffer is a list of its bytes; a
-- pointer into a text is the rest of the text.
pub mod Find
use plat.Base.{
  ℕ, zero, suc, ◌+◌, ◌-◌, Bool, true, false, not, ◌&&◌, ◌||◌, Option, none, some, List, [], ◌∷◌,
  ◌++◌, ltb, ◌==◌, if◌then◌else◌, length, take, drop,
}
use plat.Base.Int.{ℤ}
use plat.Base.Text.{Text, codes, is_space, skip_spaces, strstr, strchr, strtol, to_int}

-- `skip_ws`.
unfoldable pub skip_ws : Text → Text
skip_ws s = skip_spaces s

-- The pattern, in a buffer of `size` bytes.
unfoldable pub key_pattern : ℕ → Text → Text
key_pattern size key = take (size - 1) (34 ∷ key ++ 34 ∷ [])

-- What a pointer points to after the byte that it points to.
unfoldable pub next_text : Text → Text
next_text [] = []
next_text (c ∷ s) = s

-- The search for a pattern, and what `json_find_key` makes of its match.
unfoldable pub find_pattern : Text → Text → Option Text
find_pattern json pattern = elim (strstr json pattern) [
  | none ↦ none
  | some p ↦ elim (strchr (drop (length pattern) p) 58) [
    | none ↦ none
    | some q ↦ some (skip_ws (next_text q))
  ]
]

-- `json_find_key`, with the size of its buffer: `none` is -1.
unfoldable pub json_find_key : ℕ → Text → Text → Option Text
json_find_key size json key = find_pattern json (key_pattern size key)

-- The loop that copies a string, `room` bytes at most: what it copies, and what is left.
unfoldable pub copy_string : ℕ → Text → Text × Text
copy_string zero p = ([], p)
copy_string (suc room) [] = ([], [])
copy_string (suc room) (c ∷ p) =
    let (copied, rest) = copy_string room p in if c == 34 then ([], c ∷ p) else (c ∷ copied, rest)

unfoldable pub starts_quote : Text → Bool
starts_quote [] = false
starts_quote (c ∷ s) = c == 34

-- A string into a buffer, after its opening quote: whether the call returns 0, and the buffer. The
-- bytes that a failing call has copied stay in the buffer, and no zero follows them.
unfoldable pub read_string : Text → List ℕ → Bool × List ℕ
read_string p out =
    let (copied, rest) = copy_string (length out - 1) p in
    if starts_quote rest
    then (true, copied ++ 0 ∷ drop (suc (length copied)) out)
    else (false, copied ++ drop (length copied) out)

unfoldable pub quoted : Text → List ℕ → Bool × List ℕ
quoted p out = if starts_quote p then read_string (next_text p) out else (false, out)

-- `json_get_string`.
unfoldable pub json_get_string : ℕ → Text → Text → List ℕ → Bool × List ℕ
json_get_string size json key out = elim (json_find_key size json key) [
  | none ↦ (false, out)
  | some p ↦ quoted p out
]

-- The loop that copies a value up to a comma or a brace, `room` bytes at most.
unfoldable pub copy_raw : ℕ → Text → Text
copy_raw zero p = []
copy_raw (suc room) [] = []
copy_raw (suc room) (c ∷ p) =
    let copied = c ∷ copy_raw room p in if (c == 44) || (c == 125) then [] else copied

unfoldable pub is_nil : Text → Bool
is_nil [] = true
is_nil (c ∷ s) = false

-- The spaces at the end go.
unfoldable pub trim_end : Text → Text
trim_end [] = []
trim_end (c ∷ s) = let rest = trim_end s in if is_space c && is_nil rest then [] else c ∷ rest

unfoldable pub or_null : ℕ → Text → Text
or_null out_size s = if is_nil s then take (out_size - 1) (codes "null") else s

-- `json_get_id_raw`: what stands in a buffer of `out_size` bytes.
unfoldable pub json_get_id_raw : ℕ → Text → ℕ → Text
json_get_id_raw size json out_size = elim (json_find_key size json (codes "id")) [
  | none ↦ or_null out_size []
  | some p ↦ or_null out_size (trim_end (copy_raw (out_size - 1) p))
]

unfoldable pub int_at : Text → Option ℤ
int_at p = elim (strtol p) [ none ↦ none | some v ↦ some (to_int v) ]

-- `json_get_int_key`: the value, or `none` for -1.
unfoldable pub json_get_int_key : ℕ → Text → Text → Option ℤ
json_get_int_key size json key = elim (json_find_key size json key) [
  | none ↦ none
  | some p ↦ int_at p
]

-- What stands after the first bracket of a key's value.
unfoldable pub array_start : ℕ → Text → Text → Option Text
array_start size json key = elim (json_find_key size json key) [
  | none ↦ none
  | some p ↦ elim (strchr p 91) [ none ↦ none | some q ↦ some (skip_ws (next_text q)) ]
]

-- `json_get_first_array_int`.
unfoldable pub json_get_first_array_int : ℕ → Text → Text → Option ℤ
json_get_first_array_int size json key = elim (array_start size json key) [
  | none ↦ none
  | some p ↦ int_at p
]

-- `json_get_first_array_string`.
unfoldable pub json_get_first_array_string : ℕ → Text → Text → List ℕ → Bool × List ℕ
json_get_first_array_string size json key out = elim (array_start size json key) [
  | none ↦ (false, out)
  | some p ↦ quoted p out
]

-- The text in a buffer: `none` if no zero ends it.
unfoldable pub c_string : List ℕ → Option Text
c_string [] = none
c_string (c ∷ out) = elim (c == 0) [
  | true ↦ some []
  | false ↦ elim (c_string out) [ none ↦ none | some s ↦ some (c ∷ s) ]
]
