-- ===== src/MediaPlayer/Children.antt =====
-- media_player.c loses no child process and never has two.
use plat.Base.{
  ℕ, ◌≡◌, refl, Bool, true, false, Option, none, some, List, [], ◌∷◌, arith, Option-cases, inl, inr,
  Bool-cases, ◌⊎◌,
}
use plat.Base.Text.{Text}
use plat.MediaPlayer.{
  Child, Player, reap, reap_if_exited, kill_player, player_stop, player_play, play_file, is_empty,
}

-- The children are the player's process and nothing else.
abbrev pub pids : List Child → List ℕ
pids [] = []
pids (c ∷ cs) = c.pid ∷ pids cs

abbrev pub own_pid : Player → List ℕ
own_pid mp = elim mp.pid [ none ↦ [] | some p ↦ p ∷ [] ]

abbrev pub IsOwned : Player → List Child → Type 0
IsOwned mp cs = pids cs ≡ own_pid mp

reap-one : (p : ℕ) (cs : List Child) → pids cs ≡ p ∷ [] → reap p cs ≡ []
unfolding reap
reap-one p [] h = cc
reap-one p (c ∷ []) h = ground arith
reap-one p (c ∷ d ∷ cs) h = absurd (ground arith)

pids-nil : (cs : List Child) → pids cs ≡ [] → cs ≡ []
pids-nil [] h = refl
pids-nil (c ∷ cs) h = absurd (ground arith)

reap_if_exited-IsOwned :
    (exited : ℕ → Bool) (mp : Player) (cs : List Child)
    → IsOwned mp cs
    → IsOwned (reap_if_exited exited mp cs).0 (reap_if_exited exited mp cs).1
unfolding reap_if_exited
reap_if_exited-IsOwned exited mp cs h = elim (Option-cases mp.pid) [
  | inl e ↦ ground (arith, e)
  | inr (p, e) ↦ ground (arith, e, reap-one p cs, exited p)
]

kill_player-clean :
    (mp : Player) (cs : List Child)
    → IsOwned mp cs
    → ((kill_player mp cs).0.pid ≡ none) × ((kill_player mp cs).1 ≡ [])
unfolding kill_player
kill_player-clean mp cs h = elim (Option-cases mp.pid) [
  | inl e ↦ ground (arith, e, pids-nil cs)
  | inr (p, e) ↦ ground (arith, e, reap-one p cs)
]

pub player_stop-clean :
    (exited : ℕ → Bool) (mp : Player) (cs : List Child)
    → IsOwned mp cs
    → ((player_stop exited mp cs).0.pid ≡ none) × ((player_stop exited mp cs).1 ≡ [])
unfolding player_stop
player_stop-clean exited mp cs h = kill_player-clean _ _ (reap_if_exited-IsOwned exited mp cs h)

clean-IsOwned : (mp : Player) (cs : List Child) → (mp.pid ≡ none) × (cs ≡ []) → IsOwned mp cs
clean-IsOwned mp cs (no_pid, no_child) = ground (arith, no_pid, no_child)

player_stop-IsOwned :
    (exited : ℕ → Bool) (mp : Player) (cs : List Child)
    → IsOwned mp cs
    → IsOwned (player_stop exited mp cs).0 (player_stop exited mp cs).1
player_stop-IsOwned exited mp cs h =
    clean-IsOwned (player_stop exited mp cs).0 (player_stop exited mp cs).1
      (player_stop-clean exited mp cs h)

module _ (exited : ℕ → Bool) (mp : Player) (file : Option Text) (cs : List Child)
    (h : IsOwned mp cs) where
  play_nothing :
      (fork : Option ℕ)
      → is_empty (play_file mp file) ≡ true
      → player_play exited fork mp file cs ≡ (false, mp, cs)
  unfolding player_play
  play_nothing fork e = rw e refl

  play_failed :
      is_empty (play_file mp file) ≡ false
      → player_play exited none mp file cs
        ≡ (false, (player_stop exited mp cs).0, (player_stop exited mp cs).1)
  unfolding player_play
  play_failed e = rw e refl

  play_started :
      (p : ℕ)
      → is_empty (play_file mp file) ≡ false
      → player_play exited (some p) mp file cs ≡ (
        true,
        record (player_stop exited mp cs).0 { pid = some p },
        record { pid = p; file = play_file mp file } ∷ [],
      )
  unfolding player_play
  play_started p e = rw (e, (player_stop-clean exited mp cs h).1) refl

  player_play-IsOwned :
      (fork : Option ℕ) → let (ok, mp', cs') = player_play exited fork mp file cs in IsOwned mp' cs'
  player_play-IsOwned none = elim (Bool-cases (is_empty (play_file mp file))) [
    | inl e ↦ rw (play_nothing none e) h
    | inr e ↦ rw (play_failed e) (player_stop-IsOwned exited mp cs h)
  ]
  player_play-IsOwned (some p) = elim (Bool-cases (is_empty (play_file mp file))) [
    | inl e ↦ rw (play_nothing (some p) e) h
    | inr e ↦ rw (play_started p e) refl
  ]

  -- A play that returns 0 leaves one child, which plays the file that was asked for, or the default
  -- file if none was; it returns 0 just if there is a file and the fork succeeds.
  pub player_play-plays :
      (fork : Option ℕ)
      → let (ok, mp', cs') = player_play exited fork mp file cs in
        ((ok ≡ true)
          × (p : ℕ) × (fork ≡ some p)
          × (mp'.pid ≡ some p)
          × (cs' ≡ record { pid = p; file = play_file mp file } ∷ []))
        ⊎ ((ok ≡ false) × ((is_empty (play_file mp file) ≡ true) ⊎ (fork ≡ none)))
  player_play-plays none = elim (Bool-cases (is_empty (play_file mp file))) [
    | inl e ↦ rw (play_nothing none e) (inr (refl, inl e))
    | inr e ↦ rw (play_failed e) (inr (refl, inr refl))
  ]
  player_play-plays (some p) = elim (Bool-cases (is_empty (play_file mp file))) [
    | inl e ↦ rw (play_nothing (some p) e) (inr (refl, inl e))
    | inr e ↦ rw (play_started p e) (inl (refl, p, refl, refl, refl))
  ]

-- The calls of a client, with what the system does at each.
pub data Call : Type 0 where
  plays : (ℕ → Bool) → Option ℕ → Option Text → Call
  stops : (ℕ → Bool) → Call

abbrev pub after_call : Player × List Child → Call → Player × List Child
after_call (mp, cs) (plays exited fork file) =
    let (ok, mp', cs') = player_play exited fork mp file cs in (mp', cs')
after_call (mp, cs) (stops exited) = player_stop exited mp cs

abbrev pub after_calls : Player × List Child → List Call → Player × List Child
after_calls s [] = s
after_calls s (c ∷ calls) = after_calls (after_call s c) calls

after_call-IsOwned :
    (mp : Player) (cs : List Child) (c : Call)
    → IsOwned mp cs
    → IsOwned (after_call (mp, cs) c).0 (after_call (mp, cs) c).1
after_call-IsOwned mp cs (plays exited fork file) h = player_play-IsOwned exited mp file cs h fork
after_call-IsOwned mp cs (stops exited) h = player_stop-IsOwned exited mp cs h

-- Whatever calls of play and stop are made, whichever forks fail, and whenever the player ends by
-- itself: the children that have not been waited for are the process whose pid the player keeps, and
-- none if it keeps none. So there is never a second player.
pub children-IsOwned :
    (mp : Player) (cs : List Child) (calls : List Call)
    → IsOwned mp cs
    → let (mp', cs') = after_calls (mp, cs) calls in IsOwned mp' cs'
children-IsOwned mp cs [] h = h
children-IsOwned mp cs (c ∷ calls) h =
    let (mp', cs') = after_call (mp, cs) c in
    children-IsOwned mp' cs' calls (after_call-IsOwned mp cs c h)
