-- ===== src/VideoPipeline/Frames/Overrun.antt =====
-- A frame of the camera in a block that is too small for it.
use plat.Base.{ℕ, ◌*◌, ◌<◌, ◌≡◌, refl, ◌||◌, some, List, ltb, length, true, arith}
use plat.MemoryPool.{Block}
use plat.VideoPipeline.Yuv.{yuyv_to_rgb565}
use plat.VideoPipeline.Frames.{camera_bytes, fill_camera, frame_of}

-- A frame of the camera's size that does not fit in a block of the pool: the block keeps its old bytes, and the
-- frame that the render thread then gives to the callback has these bytes and a size past their end.
pub small_block-overruns :
    (input out : List ℕ) (width height seq now : ℕ) (b : Block)
    → b.bytes ≡ some out
    → length out ≡ b.capacity
    → b.capacity < width * height * 2
    → let frame = frame_of (fill_camera input width height seq now b) in
      (frame.bytes ≡ some out) × (length out < frame.size)
unfolding fill_camera frame_of camera_bytes yuyv_to_rgb565
small_block-overruns input out width height seq now b held room small =
    let over : (ltb (length input) (width * height * 2) || ltb (length out) (width * height * 2))
        ≡ true =
      ground arith in
    (rw (held, over) refl, omega arith)
