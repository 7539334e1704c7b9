-- ===== src/Sump/Commands.antt =====
-- The command loop of sump_server.c ends.
use plat.Base.{ℕ, ◌≤◌, Bool, Option, none, some, List, length}
use plat.LogicAnalyzer.{Analyzer}
use plat.Sump.Client.{Outcome, goes_on, ends, crashes}

-- What a round may do to a connection that is still to receive `n` bytes: if it goes on, no more are left.
abbrev Shrinks : ℕ → Outcome → Type 0
Shrinks n (goes_on c) = length c.input ≤ n
Shrinks n (ends c) = length c.input ≤ n
Shrinks n crashes = Unit

module _ (errno_at_end : ℕ) (stale : ℕ → ℕ) (capture_samples : ℕ)
    (capture : Analyzer → ℕ → List ℕ × Analyzer) (allocates : ℕ → Bool)
    (sends : List ℕ → Bool) where
  -- The loop has come to an end.
  abbrev pub Terminates : Option Outcome → Type 0
  Terminates none = ⊥
  Terminates (some (goes_on c)) = ⊥
  Terminates (some (ends c)) = Unit
  Terminates (some crashes) = Unit
