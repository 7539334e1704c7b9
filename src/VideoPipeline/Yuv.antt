-- ===== src/VideoPipeline/Yuv.antt =====
-- The conversion of video_pipeline.c from YUYV to RGB565, and its tables.
pub mod Pixels
use plat.Base.{
  ℕ, ◌+◌, ◌-◌, ◌*◌, ◌/◌, ◌%◌, ◌||◌, List, [], ◌∷◌, ◌++◌, ltb, if◌then◌else◌, length, drop, get_or,
  tabulate,
}
use plat.Base.Int.{ℤ, pos, negsuc, ◌+ℤ◌, difference, scaled}

-- `clip_0_255`.
unfoldable pub clip_0_255 : ℤ → ℕ
clip_0_255 (pos n) = if ltb 255 n then 255 else n
clip_0_255 (negsuc n) = 0

-- The four tables of `hub_video_priv_t`.
pub record Lut : Type 0 where
  pub rv : List ℤ
  pub gu : List ℤ
  pub gv : List ℤ
  pub bu : List ℤ

-- The values that `init_yuv_lut` computes.
unfoldable pub rv_at : ℕ → ℤ
rv_at i = scaled (difference i 128) 1402 1000

unfoldable pub gu_at : ℕ → ℤ
gu_at i = scaled (difference 128 i) 344 1000

unfoldable pub gv_at : ℕ → ℤ
gv_at i = scaled (difference 128 i) 714 1000

unfoldable pub bu_at : ℕ → ℤ
bu_at i = scaled (difference i 128) 1772 1000

-- `init_yuv_lut`.
unfoldable pub init_yuv_lut : Lut
init_yuv_lut = record {
  rv = tabulate 256 rv_at;
  gu = tabulate 256 gu_at;
  gv = tabulate 256 gv_at;
  bu = tabulate 256 bu_at;
}

abbrev pub entry : List ℤ → ℕ → ℤ
entry table i = get_or table i (pos 0)

-- Five bits of red, six of green and five of blue: the three terms have no bit in common.
unfoldable pub pack : ℕ → ℕ → ℕ → ℕ
pack r g b = r / 8 * 2048 + g / 4 * 32 + b / 8

unfoldable pub rgb565 : Lut → ℕ → ℕ → ℕ → ℕ
rgb565 lut y u v =
    pack (clip_0_255 (pos y +ℤ entry lut.rv v))
      (clip_0_255 (pos y +ℤ entry lut.gu u +ℤ entry lut.gv v))
      (clip_0_255 (pos y +ℤ entry lut.bu u))

-- The low byte of a pixel, and its high byte.
unfoldable pub pixel_bytes : ℕ → List ℕ
pixel_bytes p = p % 256 ∷ p / 256 % 256 ∷ []

-- The loop, with `room` bytes of the output left: the bytes that it writes.
unfoldable pub convert : Lut → ℕ → List ℕ → List ℕ
convert lut room [] = []
convert lut room (y0 ∷ []) = []
convert lut room (y0 ∷ u ∷ []) = []
convert lut room (y0 ∷ u ∷ y1 ∷ []) = []
convert lut room (y0 ∷ u ∷ y1 ∷ v ∷ input) =
    let rest = convert lut (room - 4) input in
    if ltb 3 room
    then pixel_bytes (rgb565 lut y0 u v) ++ (pixel_bytes (rgb565 lut y1 u v) ++ rest)
    else []

-- `yuyv_to_rgb565` of the bytes of `input` into the buffer `out`: what the buffer holds then.
unfoldable pub yuyv_to_rgb565 : Lut → List ℕ → List ℕ → ℕ → ℕ → List ℕ
yuyv_to_rgb565 lut input out width height =
    let need = width * height * 2 in
    let written = convert lut need input in
    if ltb (length input) need || ltb (length out) need
    then out
    else written ++ drop (length written) out
