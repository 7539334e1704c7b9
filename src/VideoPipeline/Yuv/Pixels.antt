-- ===== src/VideoPipeline/Yuv/Pixels.antt =====
-- Every pixel that `yuyv_to_rgb565` writes is that of its brightness and of the colour of its pair.
use plat.Base.{
  ℕ, zero, suc, ◌+◌, ◌-◌, ◌*◌, ◌/◌, ◌%◌, ◌≤◌, ◌<◌, ◌≡◌, refl, true, false, List, [], ◌∷◌, ◌++◌, ltb,
  lt→ltb, length, length-append, length-drop, drop, get_or, tabulate, arith,
}
use plat.Base.Int.{ℤ, pos, negsuc, ◌+ℤ◌}
use plat.VideoPipeline.Yuv.{
  clip_0_255, init_yuv_lut, rv_at, gu_at, gv_at, bu_at, pack, rgb565, pixel_bytes, convert,
  yuyv_to_rgb565,
}

-- The colour by the formula, without the tables.
abbrev pub red : ℕ → ℕ → ℕ
red y v = clip_0_255 (pos y +ℤ rv_at v)

abbrev pub green : ℕ → ℕ → ℕ → ℕ
green y u v = clip_0_255 (pos y +ℤ gu_at u +ℤ gv_at v)

abbrev pub blue : ℕ → ℕ → ℕ
blue y u = clip_0_255 (pos y +ℤ bu_at u)

abbrev pub byte : List ℕ → ℕ → ℕ
byte bytes i = get_or bytes i 0

-- The pixel `2 k + s` of an input, where `s` is 0 or 1.
abbrev pub pixel_at : List ℕ → ℕ → ℕ → ℕ
pixel_at input k s =
    let y = byte input (4 * k + 2 * s) in
    let u = byte input (4 * k + 1) in
    let v = byte input (4 * k + 3) in pack (red y v) (green y u v) (blue y u)

get_or-tabulate : (n : ℕ) (f : ℕ → ℤ) (i : ℕ) → i < n → get_or (tabulate n f) i (pos 0) ≡ f i
get_or-tabulate zero f i h = absurd (omega arith)
get_or-tabulate (suc n) f zero h = refl
get_or-tabulate (suc n) f (suc i) h = get_or-tabulate n (λ j. f (suc j)) i (omega arith)

rgb565-pack :
    (y u v : ℕ)
    → u < 256
    → v < 256
    → rgb565 init_yuv_lut y u v ≡ pack (red y v) (green y u v) (blue y u)
unfolding rgb565 init_yuv_lut
rgb565-pack y u v hu hv =
    rw
      (
        get_or-tabulate 256 rv_at v hv,
        get_or-tabulate 256 gu_at u hu,
        get_or-tabulate 256 gv_at v hv,
        get_or-tabulate 256 bu_at u hu,
      )
      refl

clip-small : (v : ℤ) → clip_0_255 v ≤ 255
unfolding clip_0_255
clip-small (pos n) = ground arith
clip-small (negsuc n) = omega arith

pack-small : (r g b : ℕ) → r ≤ 255 → g ≤ 255 → b ≤ 255 → pack r g b < 65536
unfolding pack
pack-small r g b hr hg hb = omega arith

pixel_at-small : (input : List ℕ) (k s : ℕ) → pixel_at input k s < 65536
pixel_at-small input k s =
    let y = byte input (4 * k + 2 * s) in
    let u = byte input (4 * k + 1) in
    let v = byte input (4 * k + 3) in
    pack-small (red y v) (green y u v) (blue y u) (clip-small _) (clip-small _) (clip-small _)

-- Two bytes of a buffer hold a pixel.
abbrev pub HoldsPixel : List ℕ → ℕ → ℕ → Type 0
HoldsPixel out i p = byte out i + 256 * byte out (i + 1) ≡ p

abbrev pub AllBytes : List ℕ → Type 0
AllBytes [] = Unit
AllBytes (b ∷ bytes) = (b < 256) × AllBytes bytes

-- Four bytes further on.
later : (a b c d : ℕ) (xs : List ℕ) (i j : ℕ) → i ≡ j + 4 → byte (a ∷ b ∷ c ∷ d ∷ xs) i ≡ byte xs j
later a b c d xs i j e = let four : i ≡ suc (suc (suc (suc j))) = omega arith in rw four refl

later-HoldsPixel :
    (p q : ℕ) (xs : List ℕ) (i j v : ℕ)
    → i ≡ j + 4
    → HoldsPixel xs j v
    → HoldsPixel (pixel_bytes p ++ (pixel_bytes q ++ xs)) i v
unfolding pixel_bytes
later-HoldsPixel p q xs i j v e h =
    rw
      (
        later (p % 256) (p / 256 % 256) (q % 256) (q / 256 % 256) xs i j e,
        later (p % 256) (p / 256 % 256) (q % 256) (q / 256 % 256) xs (i + 1) (j + 1) (omega arith),
      )
      h

pixel_at-later :
    (a b c d : ℕ) (input : List ℕ) (k s : ℕ)
    → pixel_at (a ∷ b ∷ c ∷ d ∷ input) (suc k) s ≡ pixel_at input k s
pixel_at-later a b c d input k s =
    rw
      (
        later a b c d input (4 * suc k + 2 * s) (4 * k + 2 * s) (omega arith),
        later a b c d input (4 * suc k + 1) (4 * k + 1) (omega arith),
        later a b c d input (4 * suc k + 3) (4 * k + 3) (omega arith),
      )
      refl

whole : (p : ℕ) → p < 65536 → p % 256 + 256 * (p / 256 % 256) ≡ p
whole p h = omega arith

convert_step :
    (room y0 u y1 v : ℕ) (input : List ℕ)
    → 4 ≤ room
    → convert init_yuv_lut room (y0 ∷ u ∷ y1 ∷ v ∷ input)
      ≡ pixel_bytes (rgb565 init_yuv_lut y0 u v)
        ++ (pixel_bytes (rgb565 init_yuv_lut y1 u v) ++ convert init_yuv_lut (room - 4) input)
unfolding convert
convert_step room y0 u y1 v input h =
    let fits : ltb 3 room ≡ true = lt→ltb 3 room (omega arith) in rw fits refl

first_pixel : (p : ℕ) (rest : List ℕ) → p < 65536 → HoldsPixel (pixel_bytes p ++ rest) 0 p
unfolding pixel_bytes
first_pixel p rest h = whole p h

second_pixel :
    (p q : ℕ) (rest : List ℕ)
    → q < 65536
    → HoldsPixel (pixel_bytes p ++ (pixel_bytes q ++ rest)) 2 q
unfolding pixel_bytes
second_pixel p q rest h = whole q h

convert-pixel :
    (k room s : ℕ) (input : List ℕ)
    → AllBytes input
    → s ≤ 1
    → 4 * k + 4 ≤ room
    → 4 * k + 4 ≤ length input
    → HoldsPixel (convert init_yuv_lut room input) (4 * k + 2 * s) (pixel_at input k s)
convert-pixel k room s [] bytes hs hr hl = absurd (omega arith)
convert-pixel k room s (y0 ∷ []) bytes hs hr hl = absurd (omega arith)
convert-pixel k room s (y0 ∷ u ∷ []) bytes hs hr hl = absurd (omega arith)
convert-pixel k room s (y0 ∷ u ∷ y1 ∷ []) bytes hs hr hl = absurd (omega arith)
convert-pixel zero room zero (y0 ∷ u ∷ y1 ∷ v ∷ input) (b0, (bu, (b1, (bv, bytes)))) hs hr hl =
    rw (convert_step room y0 u y1 v input (omega arith), rgb565-pack y0 u v bu bv)
      (first_pixel _ _ (pixel_at-small (y0 ∷ u ∷ y1 ∷ v ∷ input) 0 0))
convert-pixel zero room (suc zero) (y0 ∷ u ∷ y1 ∷ v ∷ input) (b0, (bu, (b1, (bv, bytes)))) hs hr
      hl =
    rw (convert_step room y0 u y1 v input (omega arith), rgb565-pack y1 u v bu bv)
      (second_pixel _ _ _ (pixel_at-small (y0 ∷ u ∷ y1 ∷ v ∷ input) 0 1))
convert-pixel zero room (suc (suc s)) (y0 ∷ u ∷ y1 ∷ v ∷ input) bytes hs hr hl =
    absurd (omega arith)
convert-pixel (suc k) room s (y0 ∷ u ∷ y1 ∷ v ∷ input) (b0, (bu, (b1, (bv, bytes)))) hs hr hl =
    rw (convert_step room y0 u y1 v input (omega arith), pixel_at-later y0 u y1 v input k s)
      (later-HoldsPixel _ _ _ (4 * suc k + 2 * s) (4 * k + 2 * s) (pixel_at input k s) (omega arith)
        (convert-pixel k (room - 4) s input bytes hs (omega arith) (omega arith)))

length-convert :
    (n room : ℕ) (input : List ℕ)
    → room ≤ length input
    → room / 4 ≡ n
    → length (convert init_yuv_lut room input) ≡ 4 * n
unfolding convert pixel_bytes
length-convert n room [] h e = omega arith
length-convert n room (y0 ∷ []) h e = omega arith
length-convert n room (y0 ∷ u ∷ []) h e = omega arith
length-convert n room (y0 ∷ u ∷ y1 ∷ []) h e = omega arith
length-convert zero room (y0 ∷ u ∷ y1 ∷ v ∷ input) h e =
    let over : ltb 3 room ≡ false = ground arith in rw over (omega arith)
length-convert (suc n) room (y0 ∷ u ∷ y1 ∷ v ∷ input) h e =
    let rest = length-convert n (room - 4) input (omega arith) (omega arith) in
    let fits : ltb 3 room ≡ true = lt→ltb 3 room (omega arith) in rw fits (omega (arith, rest))

get_or-first : (xs ys : List ℕ) (i : ℕ) → i < length xs → byte (xs ++ ys) i ≡ byte xs i
get_or-first [] ys i h = absurd (omega arith)
get_or-first (x ∷ xs) ys zero h = refl
get_or-first (x ∷ xs) ys (suc i) h = get_or-first xs ys i (omega arith)

get_or-beyond : (xs : List ℕ) (i : ℕ) → length xs ≤ i → byte (xs ++ []) i ≡ 0
get_or-beyond [] i h = refl
get_or-beyond (x ∷ xs) zero h = absurd (omega arith)
get_or-beyond (x ∷ xs) (suc i) h = get_or-beyond xs i (omega arith)

get_or-overwritten :
    (xs out : List ℕ) (i : ℕ) → length xs ≤ i → byte (xs ++ drop (length xs) out) i ≡ byte out i
get_or-overwritten [] out i h = refl
get_or-overwritten (x ∷ xs) [] zero h = absurd (omega arith)
get_or-overwritten (x ∷ xs) (o ∷ out) zero h = absurd (omega arith)
get_or-overwritten (x ∷ xs) [] (suc i) h = get_or-beyond xs i (omega arith)
get_or-overwritten (x ∷ xs) (o ∷ out) (suc i) h = get_or-overwritten xs out i (omega arith)

overwritten :
    (input out : List ℕ) (width height : ℕ)
    → width * height * 2 ≤ length input
    → width * height * 2 ≤ length out
    → let written = convert init_yuv_lut (width * height * 2) input in
      yuyv_to_rgb565 init_yuv_lut input out width height ≡ written ++ drop (length written) out
unfolding yuyv_to_rgb565
overwritten input out width height hi ho =
    let long : ltb (length input) (width * height * 2) ≡ false = ground arith in
    let room : ltb (length out) (width * height * 2) ≡ false = ground arith in rw (long, room) refl

-- A frame of `width * height` pixels that is there in full, in a buffer with room for it: the pixel `2 k + s`
-- of every whole pair of pixels stands at its place, with the colour that the formula gives for its
-- brightness and for the two colour bytes of its pair; the buffer keeps its length, and the bytes behind
-- the last whole pair are as before.
pub yuyv_to_rgb565-pixels :
    (input out : List ℕ) (width height k s i : ℕ)
    → AllBytes input
    → width * height * 2 ≤ length input
    → width * height * 2 ≤ length out
    → s ≤ 1
    → 2 * k + 2 ≤ width * height
    → 4 * (width * height / 2) ≤ i
    → let result = yuyv_to_rgb565 init_yuv_lut input out width height in
      HoldsPixel result (4 * k + 2 * s) (pixel_at input k s)
      × (byte result i ≡ byte out i)
      × (length result ≡ length out)
yuyv_to_rgb565-pixels input out width height k s i bytes hi ho hs hk tail =
    let need = width * height * 2 in
    let written = convert init_yuv_lut need input in
    let size : length written ≡ 4 * (width * height / 2) =
      length-convert (width * height / 2) need input hi (omega arith) in
    rw (overwritten input out width height hi ho) (
      rw
          (
            get_or-first written (drop (length written) out) (4 * k + 2 * s) (omega (arith, size)),
            get_or-first written (drop (length written) out) (4 * k + 2 * s + 1)
                (omega (arith, size)),
          )
          (convert-pixel k need s input bytes hs (omega arith) (omega arith)),
      get_or-overwritten written out i (omega (arith, size)),
      omega (
        arith,
        length-append written (drop (length written) out),
        length-drop (length written) out,
        size,
      ),
    )
