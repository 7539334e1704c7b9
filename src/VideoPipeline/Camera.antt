-- ===== src/VideoPipeline/Camera.antt =====
-- `open_v4l2` and `close_v4l2` of video_pipeline.c: the descriptor of the camera and the mappings of its buffers.
-- The system's calls are given by their results.
pub mod Balance
use plat.Base.{
  ℕ, zero, suc, ◌+◌, Bool, true, false, not, Option, none, some, List, [], ◌∷◌, ◌++◌, ltb, ◌==◌,
  if◌then◌else◌,
}

-- The `start` of a buffer: MAP_FAILED or an address. A buffer that has not been reached is null, and is not in
-- the list.
pub data Start : Type 0 where
  map_failed : Start
  unmapped : Start
  mapped_at : ℕ → Start

-- The camera's part of `hub_video_priv_t`, and what the system holds for it: the open descriptors and the
-- mapped addresses.
pub record Camera : Type 0 where
  pub fd : Option ℕ
  pub width : ℕ
  pub height : ℕ
  pub bufs : List Start
  pub open_fds : List ℕ
  pub mappings : List ℕ

-- The results of open and of the ioctls: the size that VIDIOC_S_FMT sets, the number of buffers of
-- VIDIOC_REQBUFS, and for each buffer VIDIOC_QUERYBUF, mmap and VIDIOC_QBUF.
pub record CameraCalls : Type 0 where
  pub opened : Option ℕ
  pub querycap : Bool
  pub set_format : Option (ℕ × ℕ)
  pub reqbufs : Option ℕ
  pub querybuf : ℕ → Bool
  pub mmap : ℕ → Option ℕ
  pub qbuf : ℕ → Bool
  pub streamon : Bool

-- munmap of one mapping, or close of one descriptor.
unfoldable pub give_back : ℕ → List ℕ → List ℕ
give_back a [] = []
give_back a (b ∷ held) = let rest = give_back a held in if a == b then held else b ∷ rest

unfoldable pub unmap : Start → List ℕ → List ℕ
unmap map_failed mappings = mappings
unmap unmapped mappings = mappings
unmap (mapped_at a) mappings = give_back a mappings

unfoldable pub after_unmap : Start → Start
after_unmap map_failed = map_failed
after_unmap unmapped = unmapped
after_unmap (mapped_at a) = unmapped

-- The loop of `close_v4l2` over the buffers.
unfoldable pub unmap_all : List Start → List ℕ → List Start × List ℕ
unmap_all [] mappings = ([], mappings)
unmap_all (s ∷ bufs) mappings =
    let (bufs', mappings') = unmap_all bufs (unmap s mappings) in (after_unmap s ∷ bufs', mappings')

unfoldable pub close_fd : Camera → Option ℕ → Camera
close_fd c none = c
close_fd c (some fd) =
    let (bufs, mappings) = unmap_all c.bufs c.mappings in
    record c { fd = none; bufs = bufs; mappings = mappings; open_fds = give_back fd c.open_fds }

-- `close_v4l2`.
unfoldable pub close_v4l2 : Camera → Camera
close_v4l2 c = close_fd c c.fd

-- A buffer that mmap has or has not mapped.
unfoldable pub with_mapping : Camera → Option ℕ → Camera
with_mapping c none = record c { bufs = c.bufs ++ map_failed ∷ [] }
with_mapping c (some a) = record c {
  bufs = c.bufs ++ mapped_at a ∷ [];
  mappings = c.mappings ++ a ∷ [];
}

unfoldable pub is_mapped : Option ℕ → Bool
is_mapped none = false
is_mapped (some a) = true

-- The loop of `open_v4l2` with `n` buffers left, from buffer `i` on: whether it reaches its end.
unfoldable pub map_buffers : CameraCalls → ℕ → ℕ → Camera → Bool × Camera
map_buffers calls zero i c = (true, c)
map_buffers calls (suc n) i c =
    let c' = with_mapping c (calls.mmap i) in
    let rest = map_buffers calls n (i + 1) c' in
    if not (calls.querybuf i)
    then (false, c)
    else if not (is_mapped (calls.mmap i))
    then (false, c')
    else if not (calls.qbuf i)
    then (false, c')
    else rest

-- HUB_V4L2_BUF_COUNT.
abbrev pub max_buffers : ℕ
max_buffers = 4

-- What follows VIDIOC_REQBUFS.
unfoldable pub set_up_buffers : CameraCalls → Camera → Option ℕ → Bool × Camera
set_up_buffers calls c none = (false, c)
set_up_buffers calls c (some count) =
    let (mapped, c') =
      map_buffers calls (if ltb max_buffers count then max_buffers else count) 0 c in
    if ltb count 2 then (false, c) else if not mapped then (false, c') else (calls.streamon, c')

-- What follows VIDIOC_S_FMT.
unfoldable pub set_up_format : CameraCalls → Camera → Option (ℕ × ℕ) → Bool × Camera
set_up_format calls c none = (false, c)
set_up_format calls c (some (width, height)) =
    set_up_buffers calls (record c { width = width; height = height }) calls.reqbufs

unfoldable pub set_up : CameraCalls → Camera → Bool × Camera
set_up calls c = if calls.querycap then set_up_format calls c calls.set_format else (false, c)

unfoldable pub or_close : Bool × Camera → Bool × Camera
or_close (ok, c) = if ok then (true, c) else (false, close_v4l2 c)

unfoldable pub open_with : CameraCalls → Camera → Option ℕ → Bool × Camera
open_with calls c none = (false, record c { fd = none })
open_with calls c (some fd) =
    or_close (set_up calls (record c { fd = some fd; open_fds = fd ∷ c.open_fds }))

-- `open_v4l2`: whether it returns 0.
unfoldable pub open_v4l2 : CameraCalls → Camera → Bool × Camera
open_v4l2 calls c = open_with calls c calls.opened
