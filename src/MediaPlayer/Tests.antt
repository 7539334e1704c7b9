-- ===== src/MediaPlayer/Tests.antt =====
-- The theorems of the media player at a history of calls.
use plat.Base.{refl, false, none, some, List, [], ◌∷◌, ◌==◌}
use plat.Base.Text.{codes}
use plat.MediaPlayer.{Player}
use plat.MediaPlayer.Children.{IsOwned, Call, plays, after_calls, children-IsOwned}

abbrev song : Player
song = record { pid = none; default_file = codes "a.wav" }

abbrev history : List Call
history =
    plays (λ p. false) (some 7) none
    ∷ plays (λ p. p == 7) (some 8) (some (codes "b.wav"))
    ∷ plays (λ p. false) none none
    ∷ []

children-IsOwned_example :
    IsOwned (after_calls (song, []) history).0 (after_calls (song, []) history).1
children-IsOwned_example = children-IsOwned song [] history refl
