-- ===== src/VideoPipeline/Camera/Balance.antt =====
-- The camera's descriptor and mappings are given back.
use plat.Base.{
  ℕ, zero, suc, ◌+◌, ◌≡◌, refl, sym, ap, ◌∙◌, Bool, true, false, not, Option, none, some, List, [],
  ◌∷◌, ◌++◌, ltb, if◌then◌else◌, arith, if_both, ◌⊎◌, inl, inr,
}
use plat.VideoPipeline.Camera.{
  Start, map_failed, unmapped, mapped_at, Camera, CameraCalls, give_back, unmap, unmap_all,
  close_fd, close_v4l2, with_mapping, is_mapped, map_buffers, max_buffers, set_up_buffers,
  set_up_format, set_up, or_close, open_with, open_v4l2,
}

-- The addresses of the buffers, in their order.
abbrev addresses : List Start → List ℕ
addresses [] = []
addresses (map_failed ∷ bufs) = addresses bufs
addresses (unmapped ∷ bufs) = addresses bufs
addresses (mapped_at a ∷ bufs) = a ∷ addresses bufs

abbrev descriptors : Option ℕ → List ℕ
descriptors none = []
descriptors (some fd) = fd ∷ []

-- The system holds just the mappings of the buffers and the camera's descriptor.
pub record IsHeld (c : Camera) : Type 0 where
  pub mapped : c.mappings ≡ addresses c.bufs
  pub opened : c.open_fds ≡ descriptors c.fd

-- Nothing is held.
abbrev pub IsClosed : Camera → Type 0
IsClosed c = (c.fd ≡ none) × (c.open_fds ≡ []) × (c.mappings ≡ [])

give_back-first : (a : ℕ) (held : List ℕ) → give_back a (a ∷ held) ≡ held
unfolding give_back
give_back-first a held = ground arith

unmap_all-clean : (bufs : List Start) → (unmap_all bufs (addresses bufs)).1 ≡ []
unfolding unmap_all unmap
unmap_all-clean [] = refl
unmap_all-clean (map_failed ∷ bufs) = unmap_all-clean bufs
unmap_all-clean (unmapped ∷ bufs) = unmap_all-clean bufs
unmap_all-clean (mapped_at a ∷ bufs) =
    rw (give_back-first a (addresses bufs)) (unmap_all-clean bufs)

addresses-append :
    (bufs more : List Start) → addresses (bufs ++ more) ≡ addresses bufs ++ addresses more
addresses-append [] more = refl
addresses-append (map_failed ∷ bufs) more = addresses-append bufs more
addresses-append (unmapped ∷ bufs) more = addresses-append bufs more
addresses-append (mapped_at a ∷ bufs) more = ap (◌∷◌ a) (addresses-append bufs more)

append_nil : (xs : List ℕ) → xs ++ [] ≡ xs
append_nil [] = refl
append_nil (x ∷ xs) = ap (◌∷◌ x) (append_nil xs)

close_fd-IsClosed :
    (c : Camera) (fd : ℕ) → IsHeld c → c.fd ≡ some fd → IsClosed (close_fd c (some fd))
unfolding close_fd
close_fd-IsClosed c fd h e =
    let one : c.open_fds ≡ fd ∷ [] = h.opened ∙ ap descriptors e in
    (
      refl,
      ap (give_back fd) one ∙ give_back-first fd [],
      ap (λ m. (unmap_all c.bufs m).1) h.mapped ∙ unmap_all-clean c.bufs,
    )

module _ (calls : CameraCalls) (fd : ℕ) where
  abbrev IsOpen : Camera → Type 0
  IsOpen c = IsHeld c × (c.fd ≡ some fd)

  with_mapping-IsOpen : (c : Camera) (r : Option ℕ) → IsOpen c → IsOpen (with_mapping c r)
  unfolding with_mapping
  with_mapping-IsOpen c none (h, e) = (
    record {
      mapped =
          h.mapped
          ∙ sym (append_nil (addresses c.bufs))
          ∙ sym (addresses-append c.bufs (map_failed ∷ []));
      opened = h.opened;
    },
    e,
  )
  with_mapping-IsOpen c (some a) (h, e) = (
    record {
      mapped = ap (λ m. m ++ a ∷ []) h.mapped ∙ sym (addresses-append c.bufs (mapped_at a ∷ []));
      opened = h.opened;
    },
    e,
  )

  abbrev KeepsOpen : Bool × Camera → Type 0
  KeepsOpen r = IsOpen r.1

  map_buffers-IsOpen : (n i : ℕ) (c : Camera) → IsOpen c → KeepsOpen (map_buffers calls n i c)
  unfolding map_buffers
  map_buffers-IsOpen zero i c h = h
  map_buffers-IsOpen (suc n) i c h =
      let h' = with_mapping-IsOpen c (calls.mmap i) h in
      if_both KeepsOpen (not (calls.querybuf i)) _ _ (λ e. h)
        (λ e.
          if_both KeepsOpen (not (is_mapped (calls.mmap i))) _ _ (λ f. h')
            (λ f.
              if_both KeepsOpen (not (calls.qbuf i)) _ _ (λ g. h')
                (λ g. map_buffers-IsOpen n (i + 1) (with_mapping c (calls.mmap i)) h')))

  set_up_buffers-IsOpen :
      (c : Camera) (r : Option ℕ) → IsOpen c → KeepsOpen (set_up_buffers calls c r)
  unfolding set_up_buffers
  set_up_buffers-IsOpen c none h = h
  set_up_buffers-IsOpen c (some count) h =
      let h' = map_buffers-IsOpen (if ltb max_buffers count then max_buffers else count) 0 c h in
      if_both KeepsOpen (ltb count 2) _ _ (λ e. h)
        (λ e. if_both KeepsOpen (not _) _ _ (λ f. h') (λ f. h'))

  set_up_format-IsOpen :
      (c : Camera) (r : Option (ℕ × ℕ)) → IsOpen c → KeepsOpen (set_up_format calls c r)
  unfolding set_up_format
  set_up_format-IsOpen c none h = h
  set_up_format-IsOpen c (some (width, height)) (h, e) =
      set_up_buffers-IsOpen (record c { width = width; height = height }) calls.reqbufs
        (record { mapped = h.mapped; opened = h.opened }, e)

  set_up-IsOpen : (c : Camera) → IsOpen c → KeepsOpen (set_up calls c)
  unfolding set_up
  set_up-IsOpen c h =
      if_both KeepsOpen calls.querycap _ _ (λ e. set_up_format-IsOpen c calls.set_format h) (λ e. h)

  close_v4l2-IsClosed : (c : Camera) → IsOpen c → IsClosed (close_v4l2 c)
  unfolding close_v4l2
  close_v4l2-IsClosed c (h, e) =
      let shut : close_fd c c.fd ≡ close_fd c (some fd) = ap (close_fd c) e in
      rw shut (close_fd-IsClosed c fd h e)

-- The result of an open: a camera that is held, or a closed one.
abbrev pub Opens : Bool × Camera → Type 0
Opens (ok, c) = ((ok ≡ true) × (fd : ℕ) × (c.fd ≡ some fd) × IsHeld c) ⊎ ((ok ≡ false) × IsClosed c)

-- The camera before it is opened.
abbrev pub sized : ℕ → ℕ → Camera
sized width height = record {
  fd = none;
  width = width;
  height = height;
  bufs = [];
  open_fds = [];
  mappings = [];
}

or_close-Opens :
    (calls : CameraCalls) (fd : ℕ) (r : Bool × Camera) → KeepsOpen calls fd r → Opens (or_close r)
unfolding or_close
or_close-Opens calls fd (ok, c) (h, e) =
    if_both Opens ok _ _ (λ f. inl (refl, fd, e, h))
      (λ f. inr (refl, close_v4l2-IsClosed calls fd c (h, e)))

open_with-Opens :
    (calls : CameraCalls) (width height : ℕ) (opened : Option ℕ)
    → Opens (open_with calls (sized width height) opened)
unfolding open_with
open_with-Opens calls width height none = inr (refl, (refl, refl, refl))
open_with-Opens calls width height (some fd) =
    let c : Camera = record (sized width height) { fd = some fd; open_fds = fd ∷ [] } in
    or_close-Opens calls fd (set_up calls c)
      (set_up-IsOpen calls fd c (record { mapped = refl; opened = refl }, refl))

-- Whichever of the system's calls fail: an open that returns 0 leaves a descriptor, and the system holds
-- just this and the mappings of the buffers; an open that fails has given all back.
pub open_v4l2-Opens :
    (calls : CameraCalls) (width height : ℕ) → Opens (open_v4l2 calls (sized width height))
unfolding open_v4l2
open_v4l2-Opens calls width height = open_with-Opens calls width height calls.opened

-- After a close nothing is held.
pub Opens-closes : (calls : CameraCalls) (r : Bool × Camera) → Opens r → IsClosed (close_v4l2 r.1)
unfolding close_v4l2 close_fd
Opens-closes calls r (inl (ok, fd, e, h)) = close_v4l2-IsClosed calls fd r.1 (h, e)
Opens-closes calls r (inr (failed, (e, fds, maps))) =
    let shut : close_fd r.1 r.1.fd ≡ r.1 = ap (close_fd r.1) e in rw shut (e, fds, maps)
