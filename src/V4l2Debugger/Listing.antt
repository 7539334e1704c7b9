-- ===== src/V4l2Debugger/Listing.antt =====
-- The listing of the formats in a buffer is the start of the whole listing.
use mathlib.Core.Path.{subst}
use plat.Base.{
  ℕ, zero, suc, ◌+◌, ◌-◌, ◌≤◌, ◌<◌, ◌≡◌, refl, sym, ap, ◌∙◌, List, [], ◌∷◌, ◌++◌, leb, ◌==◌,
  if_both, take, take-all, length, length-append, length-take, arith,
}
use plat.Base.Text.{Text}
use plat.V4l2Debugger.{gives, Format, format_line, dump_loop, dump_open, dump_formats, no_formats}

-- The lines of all formats from an index on.
abbrev pub lines : ℕ → List Format → Text
lines index [] = []
lines index (f ∷ formats) = format_line index f ++ lines (index + 1) formats

-- The whole text, without a limit.
abbrev pub whole_listing : Text → List Format → Text
whole_listing device [] = no_formats device
whole_listing device (f ∷ formats) = lines 0 (f ∷ formats)

take-append_short : (n : ℕ) (xs ys : Text) → n ≤ length xs → take n (xs ++ ys) ≡ take n xs
take-append_short zero xs ys h = refl
take-append_short (suc n) [] ys h = absurd (omega arith)
take-append_short (suc n) (x ∷ xs) ys h = ap (◌∷◌ x) (take-append_short n xs ys (omega arith))

take-append_long :
    (n k : ℕ) (xs ys : Text) → n ≡ length xs + k → take n (xs ++ ys) ≡ xs ++ take k ys
take-append_long n k [] ys h = let same : n ≡ k = omega arith in rw same refl
take-append_long zero k (x ∷ xs) ys h = absurd (omega arith)
take-append_long (suc n) k (x ∷ xs) ys h = ap (◌∷◌ x) (take-append_long n k xs ys (omega arith))

append_nil : (xs : Text) → xs ++ [] ≡ xs
append_nil [] = refl
append_nil (x ∷ xs) = ap (◌∷◌ x) (append_nil xs)

append_assoc : (xs ys zs : Text) → (xs ++ ys) ++ zs ≡ xs ++ (ys ++ zs)
append_assoc [] ys zs = refl
append_assoc (x ∷ xs) ys zs = ap (◌∷◌ x) (append_assoc xs ys zs)

-- Of a result of the loop: the text is the start of all text, and `pos` is its length.
abbrev IsStart : ℕ → Text → Text × ℕ → Type 0
IsStart size all (text, pos) = (text ≡ take (size - 1) all) × (pos ≡ length text)

dump_loop-IsStart :
    (size index : ℕ) (formats : List Format) (text : Text) (position : ℕ)
    → position ≡ length text
    → position < size
    → IsStart size (text ++ lines index formats) (dump_loop size index formats text position)
unfolding dump_loop
dump_loop-IsStart size index [] text position same h =
    (sym (take-append_long (size - 1) (size - 1 - position) text [] (omega arith) ∙ nothing), same)
  where
    nothing : text ++ take (size - 1 - position) [] ≡ text
    nothing = ap (◌++◌ text) (take-all (size - 1 - position) [] (omega arith)) ∙ append_nil text
dump_loop-IsStart size index (f ∷ formats) text position same h =
    let line = format_line index f in
    let room = size - position - 1 in
    let all = text ++ (line ++ lines (index + 1) formats) in
    if_both (IsStart size all) (leb (size - position) (length line)) _ _
      (λ e.
        let long : room ≤ length line = ground arith in
        let cut : take (size - 1) all ≡ text ++ take room line =
          take-append_long (size - 1) room text (line ++ lines (index + 1) formats) (omega arith)
          ∙ ap (◌++◌ text) (take-append_short room line (lines (index + 1) formats) long) in
        (sym cut, omega (arith, length-append text (take room line), length-take room line, long)))
      (λ e.
        let short : length line < size - position = ground arith in
        subst
          (λ t.
            IsStart size t
              (dump_loop size (index + 1) formats (text ++ line) (position + length line)))
          (append_assoc text line (lines (index + 1) formats))
          (dump_loop-IsStart size (index + 1) formats (text ++ line) (position + length line)
            (omega (arith, length-append text line)) (omega arith)))

first_line : (index : ℕ) (f : Format) → 0 < length (format_line index f)
unfolding format_line
first_line index f = omega arith

dump_open-nothing :
    (device : Text) (size : ℕ) → dump_open device size [] ≡ take (size - 1) (no_formats device)
unfolding dump_open dump_loop
dump_open-nothing device size = refl

dump_open-lines :
    (device : Text) (size : ℕ) (f : Format) (formats : List Format)
    → 0 < size
    → dump_open device size (f ∷ formats) ≡ take (size - 1) (lines 0 (f ∷ formats))
unfolding dump_open
dump_open-lines device size f formats h =
    let all = lines 0 (f ∷ formats) in
    let (start, place) = dump_loop-IsStart size 0 (f ∷ formats) [] 0 refl h in
    let (text, position) = dump_loop size 0 (f ∷ formats) [] 0 in
    if_both (λ t. t ≡ take (size - 1) all) (position == 0) (take (size - 1) (no_formats device))
      text
      (λ e.
        let none_fits : size - 1 ≡ 0 = ground (
          arith,
          ap length start,
          length-take (size - 1) all,
          length-append (format_line 0 f) (lines 1 formats),
          first_line 0 f,
          place,
        ) in
        rw none_fits refl)
      (λ e. start)

-- On a device that can be opened, with a buffer of at least one byte, `edt_v4l2_dump_formats` returns 0, and the
-- text in the buffer is the start, as far as it fits with its final zero, of the lines of all formats in
-- their order, or of the remark that there are none; the buffer is not overrun.
pub dump_formats-listing :
    (explain : ℕ → Text) (device : Text) (size : ℕ) (formats : List Format)
    → 0 < size
    → let (code, text) = dump_formats explain device size (gives formats) in
      (code ≡ 0) × (text ≡ take (size - 1) (whole_listing device formats)) × (length text < size)
unfolding dump_formats
dump_formats-listing explain device size [] h =
    let exact = dump_open-nothing device size in
    (refl, exact, omega (arith, ap length exact, length-take (size - 1) (no_formats device)))
dump_formats-listing explain device size (f ∷ formats) h =
    let exact = dump_open-lines device size f formats h in
    (refl, exact, omega (arith, ap length exact, length-take (size - 1) (lines 0 (f ∷ formats))))
