-- ===== src/Rpc/Methods.antt =====
-- The requests to json_rpc_dispatch.c that do not succeed.
use plat.Base.{
  ℕ, suc, ◌+◌, ◌-◌, ◌≡◌, ◌≢◌, refl, ap, ◌∙◌, Bool, false, Option, none, some, List, [], ◌∷◌, ◌++◌,
  ◌==◌, drop, length, arith,
}
use plat.Base.Text.{Text, codes}
use plat.Json.{
  json_find_key, copy_string, starts_quote, read_string, quoted, json_get_string, array_start,
  json_get_first_array_string, c_string, next_text,
}
use plat.MediaPlayer.{Player}
use plat.Rpc.{Hub, overruns, pattern_size, cleared, media_file, file_argument, play, media_play}

-- Bytes of a string: none is a quote or the zero.
abbrev pub AllString : Text → Type 0
AllString [] = Unit
AllString (c ∷ s) = (c ≢ 34) × (c ≢ 0) × AllString s

copy_string-full :
    (name more : Text) → AllString name → copy_string (length name) (name ++ more) ≡ (name, more)
unfolding copy_string
copy_string-full [] more h = refl
copy_string-full (c ∷ name) more (q, z, h) =
    let other : (c == 34) ≡ false = ground (arith, q) in
    rw (copy_string-full name more h, other) refl

c_string-unended :
    (name rest : List ℕ) → AllString name → c_string rest ≡ none → c_string (name ++ rest) ≡ none
unfolding c_string
c_string-unended [] rest h e = e
c_string-unended (c ∷ name) rest (q, z, h) e =
    let other : (c == 0) ≡ false = ground (arith, z) in
    rw (c_string, other, c_string-unended name rest h e) refl

-- A string that fills its buffer is refused, and its bytes stay there.
read_string-long :
    (name more : Text) (out : List ℕ)
    → AllString name
    → length out ≡ length name + 1
    → starts_quote more ≡ false
    → read_string (name ++ more) out ≡ (false, name ++ drop (length name) out)
unfolding read_string
read_string-long name more out h e m =
    let room : length out - 1 ≡ length name = omega arith in
    rw (room, copy_string-full name more h, m) refl

file_argument-unended :
    (buf : List ℕ) (c : ℕ) (name rest : List ℕ)
    → buf ≡ (c ∷ name) ++ rest
    → AllString (c ∷ name)
    → c_string rest ≡ none
    → file_argument buf ≡ none
unfolding file_argument
file_argument-unended buf c name rest e (q, z, h) k =
    let other : (c == 0) ≡ false = ground (arith, z) in
    rw (e, file_argument, other, c_string-unended (c ∷ name) rest (q, z, h) k) refl

cleared-length : (stale : List ℕ) → length stale ≡ 256 → length (cleared stale) ≡ 256
unfolding cleared
cleared-length [] h = absurd (omega arith)
cleared-length (b ∷ stale) h = h

cleared-drop :
    (k : ℕ) (stale : List ℕ)
    → length stale ≡ 256
    → drop (suc k) (cleared stale) ≡ drop (suc k) stale
unfolding cleared
cleared-drop k [] h = absurd (omega arith)
cleared-drop k (b ∷ stale) h = refl

no_array_string :
    (request : Text) (out : List ℕ)
    → array_start pattern_size request (codes "params") ≡ none
    → json_get_first_array_string pattern_size request (codes "params") out ≡ (false, out)
unfolding json_get_first_array_string
no_array_string request out h = rw (json_get_first_array_string, h) refl

module _ (request : Text) (stale : List ℕ) (c : ℕ) (name more : Text)
    (key : json_find_key pattern_size request (codes "file") ≡ some (34 ∷ ((c ∷ name) ++ more)))
    (h : AllString (c ∷ name)) (n : length name ≡ 254) (m : starts_quote more ≡ false)
    (sized : length stale ≡ 256) where
  long_string :
      json_get_string pattern_size request (codes "file") (cleared stale)
      ≡ (false, (c ∷ name) ++ drop 255 stale)
  unfolding json_get_string quoted starts_quote next_text
  long_string =
      let full : length (c ∷ name) ≡ 255 = omega arith in
      let rest : drop (length (c ∷ name)) (cleared stale) ≡ drop 255 stale =
        ap (λ k. drop k (cleared stale)) full ∙ cleared-drop 254 stale sized in
      rw
        (
          json_get_string,
          key,
          read_string-long (c ∷ name) more (cleared stale) h
              (omega (arith, cleared-length stale sized, full)) m,
          rest,
        )
        refl

  media_file-long :
      array_start pattern_size request (codes "params") ≡ none
      → media_file request stale ≡ (c ∷ name) ++ drop 255 stale
  unfolding media_file
  media_file-long no_array =
      rw (media_file, long_string, no_array_string request ((c ∷ name) ++ drop 255 stale) no_array)
        refl

module _ {W : Type 0} (opens : List ℕ → Bool → Option ℕ)
    (reads : ℕ → List ℕ → W → Option ℕ × List ℕ) (writes : ℕ → List ℕ → W → Option ℕ × W)
    (exited : ℕ → Bool) (fork : Option ℕ) (size : ℕ) where
  -- A "media_play" whose file name has at least 255 bytes, the byte behind the first 255 not being its closing
  -- quote, in a request without an array of parameters, is given to the player without a zero at its end, if
  -- the last byte of the buffer is not 0 by chance: the name is then read past the end of the buffer.
  pub long_file-overruns :
      (stale : List ℕ) (hub : Hub W) (mp : Player) (request id_raw : Text) (c : ℕ)
      (name more : Text)
      → hub.media ≡ some mp
      → json_find_key pattern_size request (codes "file") ≡ some (34 ∷ ((c ∷ name) ++ more))
      → AllString (c ∷ name)
      → length name ≡ 254
      → starts_quote more ≡ false
      → array_start pattern_size request (codes "params") ≡ none
      → length stale ≡ 256
      → c_string (drop 255 stale) ≡ none
      → media_play opens reads writes exited fork size stale hub request id_raw ≡ overruns
  unfolding media_play play
  long_file-overruns stale hub mp request id_raw c name more player key h n m no_array sized end =
      rw
        (
          media_play,
          player,
          file_argument-unended (media_file request stale) c name (drop 255 stale)
              (media_file-long request stale c name more key h n m sized no_array) h end,
        )
        refl
