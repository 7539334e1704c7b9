-- ===== src/MediaPlayer.antt =====
-- smart_home_hub/src/media/media_player.c: one aplay process at most. The children of the hub's process
-- that have not been waited for are a list; a blocking waitpid is not interrupted, and a null player is
-- not modelled.
pub mod Children
mod Tests
use plat.Base.{
  ℕ, zero, suc, Bool, true, false, not, ◌||◌, Option, none, some, List, [], ◌∷◌, take, ◌==◌,
  if◌then◌else◌,
}
use plat.Base.Text.{Text}

-- A child, and the file that it plays.
pub record Child : Type 0 where
  pub pid : ℕ
  pub file : Text

-- `hub_media_player_t`; a pid of -1 is `none`.
pub record Player : Type 0 where
  pub pid : Option ℕ
  pub default_file : Text

-- waitpid gives a child back to the system.
unfoldable pub reap : ℕ → List Child → List Child
reap p [] = []
reap p (c ∷ cs) = let rest = reap p cs in if c.pid == p then rest else c ∷ rest

unfoldable pub player_init : Option Text → Player
player_init none = record { pid = none; default_file = [] }
player_init (some file) = record { pid = none; default_file = take 255 file }

-- `exited p` is whether waitpid with WNOHANG finds that the child `p` has ended.
unfoldable pub reap_if_exited : (ℕ → Bool) → Player → List Child → Player × List Child
reap_if_exited exited mp cs = elim mp.pid [
  | none ↦ (mp, cs)
  | some p ↦ if exited p then (record mp { pid = none }, reap p cs) else (mp, cs)
]

-- SIGTERM and a waitpid for a player that is there.
unfoldable pub kill_player : Player → List Child → Player × List Child
kill_player mp cs = elim mp.pid [ none ↦ (mp, cs) | some p ↦ (record mp { pid = none }, reap p cs) ]

-- `hub_media_player_stop` up to its result, which is 0.
unfoldable pub player_stop : (ℕ → Bool) → Player → List Child → Player × List Child
player_stop exited mp cs = let (mp', cs') = reap_if_exited exited mp cs in kill_player mp' cs'

unfoldable pub player_deinit : (ℕ → Bool) → Player → List Child → Player × List Child
player_deinit exited mp cs = player_stop exited mp cs

unfoldable pub play_file : Player → Option Text → Text
play_file mp none = mp.default_file
play_file mp (some []) = mp.default_file
play_file mp (some (c ∷ file)) = c ∷ file

unfoldable pub is_empty : Text → Bool
is_empty [] = true
is_empty (c ∷ s) = false

-- `fork` is its result: the child's pid, or `none` for -1. The Bool is whether the call returns 0.
unfoldable pub player_play :
    (ℕ → Bool) → Option ℕ → Player → Option Text → List Child → Bool × Player × List Child
player_play exited fork mp file cs =
    let (mp', cs') = player_stop exited mp cs in
    let chosen = play_file mp file in
    if is_empty chosen then (false, mp, cs) else elim fork [
      | none ↦ (false, mp', cs')
      | some p ↦ (true, record mp' { pid = some p }, record { pid = p; file = chosen } ∷ cs')
    ]
