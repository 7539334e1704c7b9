-- ===== src/HubConfig/Same.antt =====
-- hub_config.c and json_rpc_dispatch.c each have a JSON reader, with pattern buffers of 96 and 64 bytes.
use plat.Base.{
  ℕ, zero, suc, ◌+◌, ◌-◌, ◌≤◌, ◌≡◌, refl, sym, ap, ◌∙◌, Bool, true, false, Option, none, some, List,
  [], ◌∷◌, ◌++◌, ◌==◌, if◌then◌else◌, length, length-append, take, take-all, drop, Bool-cases, inl,
  inr, arith,
}
use plat.Base.Text.{Text, is_space, skip_spaces, strstr, strchr, strtol, to_int}
use plat.Base.Int.{ℤ}
use plat.Json.{
  key_pattern, find_pattern, json_find_key, json_get_string, json_get_int_key, int_at, skip_ws,
  next_text, copy_string, starts_quote, read_string, quoted,
}
use plat.HubConfig.Reader.{
  find_config_key, read_text, read_int, config_pattern, quoted_key, skip_config_ws, tail,
  value_after, at_quote, value_length, copied_bytes, ended_bytes, copy_value,
}

key_pattern-whole :
    (size : ℕ) (key : Text) → length key + 3 ≤ size → key_pattern size key ≡ 34 ∷ key ++ 34 ∷ []
unfolding key_pattern
key_pattern-whole size key h =
    take-all (size - 1) (34 ∷ key ++ 34 ∷ []) (omega (arith, length-append key (34 ∷ [])))

skip_config_ws_lem : (s : Text) → skip_config_ws s ≡ skip_ws s
unfolding skip_config_ws skip_ws skip_spaces
skip_config_ws_lem [] = refl
skip_config_ws_lem (c ∷ s) = elim (Bool-cases (is_space c)) [
  | inl space ↦ rw (skip_config_ws, skip_spaces, space) (skip_config_ws_lem s)
  | inr other ↦ rw (skip_config_ws, skip_spaces, other) refl
]

tail_lem : (p : Text) → tail p ≡ next_text p
unfolding tail next_text
tail_lem [] = refl
tail_lem (c ∷ p) = refl

at_quote_lem : (p : Text) → at_quote p ≡ starts_quote p
unfolding at_quote starts_quote
at_quote_lem [] = refl
at_quote_lem (c ∷ p) = refl

-- The search with a pattern buffer of 96 bytes.
pub find_config_key_lem :
    (json key : Text) → find_config_key json key ≡ json_find_key config_pattern json key
unfolding find_config_key json_find_key find_pattern quoted_key key_pattern value_after
find_config_key_lem json key = found (strstr json (key_pattern config_pattern key))
  where
    colon :
        (q : Option Text)
        → elim q as (λ x. Option Text) [ none ↦ none | some c ↦ some (skip_config_ws (tail c)) ]
          ≡ elim q as (λ x. Option Text) [ none ↦ none | some c ↦ some (skip_ws (next_text c)) ]
    colon none = refl
    colon (some c) = ap some (skip_config_ws_lem (tail c) ∙ ap skip_ws (tail_lem c))

    found :
        (m : Option Text)
        → elim m as (λ x. Option Text) [
          | none ↦ none
          | some p ↦ value_after (drop (length (key_pattern config_pattern key)) p)
        ]
          ≡ elim m as (λ x. Option Text) [
            | none ↦ none
            | some p ↦ elim (strchr (drop (length (key_pattern config_pattern key)) p) 58) [
              | none ↦ none
              | some q ↦ some (skip_ws (next_text q))
            ]
          ]
    found none = refl
    found (some p) = colon (strchr (drop (length (key_pattern config_pattern key)) p) 58)

-- The loop that counts what it copies, and the loop that collects it.
copy_string_lem :
    (room : ℕ) (p : Text)
    → let len = value_length room p in
      (copy_string room p ≡ (take len p, drop len p)) × (length (take len p) ≡ len)
unfolding copy_string value_length
copy_string_lem zero p = (refl, refl)
copy_string_lem (suc room) [] = (refl, refl)
copy_string_lem (suc room) (c ∷ p) =
    let (same, size) = copy_string_lem room p in
    elim (Bool-cases (c == 34)) [
      | inl quote ↦ rw (copy_string, value_length, quote) (refl, refl)
      | inr other ↦ rw (copy_string, value_length, other, same) (refl, ap suc size)
    ]

copy_value_lem : (p : Text) (out : List ℕ) → copy_value p out ≡ (read_string p out).1
unfolding copy_value read_string ended_bytes copied_bytes
copy_value_lem p out =
    let (same, size) = copy_string_lem (length out - 1) p in
    let len = value_length (length out - 1) p in
    rw (same, size, at_quote_lem (drop len p)) (ends _ _ (starts_quote (drop len p)))
  where
    ends :
        (x y : List ℕ) (b : Bool)
        → (if b then x else y) ≡ (if◌then◌else◌ {A = Bool × List ℕ} b (true, x) (false, y)).1
    ends x y true = refl
    ends x y false = refl

-- The reader of a text is that of json_rpc_dispatch.c with the larger buffer.
pub read_text_lem :
    (json key : Text) (out : List ℕ)
    → read_text json key out ≡ (json_get_string config_pattern json key out).1
unfolding read_text json_get_string quoted
read_text_lem json key out =
    rw (read_text, find_config_key_lem json key) (found (json_find_key config_pattern json key))
  where
    value :
        (b : Bool) (p : Text)
        → (if b then copy_value (tail p) out else out)
          ≡ (if b then read_string (next_text p) out else (false, out)).1
    value true p = rw (tail_lem p) (copy_value_lem (next_text p) out)
    value false p = refl

    found :
        (r : Option Text)
        → elim r as (λ x. List ℕ) [
          | none ↦ out
          | some p ↦ if at_quote p then copy_value (tail p) out else out
        ]
          ≡ (elim r as (λ x. Bool × List ℕ) [ none ↦ (false, out) | some p ↦ quoted p out ]).1
    found none = refl
    found (some p) = rw (at_quote_lem p) (value (starts_quote p) p)

read_int_lem :
    (json key : Text) (old : ℤ)
    → read_int json key old
      ≡ elim (json_get_int_key config_pattern json key) as (λ v. ℤ) [ none ↦ old | some v ↦ v ]
unfolding read_int json_get_int_key int_at
read_int_lem json key old =
    rw (read_int, find_config_key_lem json key) (found (json_find_key config_pattern json key))
  where
    number :
        (v : Option ℤ)
        → elim v as (λ x. ℤ) [ none ↦ old | some n ↦ to_int n ]
          ≡ elim (elim v as (λ x. Option ℤ) [ none ↦ none | some n ↦ some (to_int n) ])
              as (λ x. ℤ) [ none ↦ old | some n ↦ n ]
    number none = refl
    number (some n) = refl

    found :
        (r : Option Text)
        → elim r as (λ x. ℤ) [
          | none ↦ old
          | some p ↦ elim (strtol p) [ none ↦ old | some n ↦ to_int n ]
        ]
          ≡ elim (elim r as (λ x. Option ℤ) [ none ↦ none | some p ↦ int_at p ]) as (λ x. ℤ) [
            | none ↦ old
            | some n ↦ n
          ]
    found none = refl
    found (some p) = number (strtol p)

same_key :
    (json key : Text)
    → length key ≤ 61
    → json_find_key config_pattern json key ≡ json_find_key 64 json key
unfolding json_find_key
same_key json key h = ap (find_pattern json) (
    key_pattern-whole config_pattern key (omega arith)
    ∙ sym (key_pattern-whole 64 key (omega arith)))

-- For keys of up to 61 bytes, the readers of hub_config.c and of json_rpc_dispatch.c agree on every
-- text: they find the same place for a key, leave the same bytes of a string in an array, and read the
-- same number, where that of hub_config.c keeps the number before if there is none.
pub config_reader-same :
    (json key : Text) (out : List ℕ) (old : ℤ)
    → length key ≤ 61
    → (find_config_key json key ≡ json_find_key 64 json key)
      × (read_text json key out ≡ (json_get_string 64 json key out).1)
      × (read_int json key old
          ≡ elim (json_get_int_key 64 json key) as (λ v. ℤ) [ none ↦ old | some v ↦ v ])
unfolding json_get_string json_get_int_key
config_reader-same json key out old h =
    let same = same_key json key h in
    (
      find_config_key_lem json key ∙ same,
      rw (read_text_lem json key out, json_get_string, same) refl,
      rw (read_int_lem json key old, json_get_int_key, same) refl,
    )
