-- ===== src/RingBuffer/Queue.antt =====
-- A bounded queue of bytes, oldest first: what a client of the ring may think of it. The calls of a
-- client, and what each returns.
use plat.Base.{ℕ, ◌-◌, List, [], ◌∷◌, ◌++◌, min, length, take, drop}

-- `put` offers a buffer and the number of its bytes to write.
pub data Op : Type 0 where
  put : List ℕ → ℕ → Op
  get : ℕ → Op
  look : ℕ → Op
  clear : Op

-- The count that a call returns, and the bytes that it stores for its caller.
abbrev pub Reply : Type 0
Reply = ℕ × List ℕ

module _ (cap : ℕ) where
  unfoldable pub step : List ℕ → Op → Reply × List ℕ
  step q (put src len) = let n = min len (cap - length q) in ((n, []), q ++ take n src)
  step q (get len) = let n = min len (length q) in ((n, take n q), drop n q)
  step q (look len) = let n = min len (length q) in ((n, take n q), q)
  step q clear = ((0, []), [])

  unfoldable pub run : List ℕ → List Op → List Reply
  run q [] = []
  run q (op ∷ ops) = let (reply, q') = step q op in reply ∷ run q' ops
