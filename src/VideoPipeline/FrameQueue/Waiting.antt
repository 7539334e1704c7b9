-- ===== src/VideoPipeline/FrameQueue/Waiting.antt =====
-- `queue_pop` with its waits: when it sleeps on, and what it returns otherwise.
use plat.Base.{
  ℕ, ◌≤◌, ◌≡◌, refl, ◌⊎◌, inl, inr, Bool, true, false, ◌&&◌, Option, List, [], ◌∷◌, ◌==◌, arith,
}
use plat.Base.Int.{ℤ, pos, negsuc}
use plat.VideoPipeline.FrameQueue.{
  FrameQueue, Wake, signalled, timed_out, Popped, popped, asleep, take_head, queue_pop,
}
use plat.VideoPipeline.FrameQueue.Refine.{IsValid, Pops, take_head-Pops}

-- The call waits through all its wakes: the pipeline runs and the queue is empty each time, and no
-- wake is the end of a limited wait.
abbrev pub Sleeps : Bool → FrameQueue → ℤ → List Wake → Type 0
Sleeps running q wait [] = (running ≡ true) × (q.q_count ≡ 0)
Sleeps running q wait (signalled running' q' ∷ ws) =
    (running ≡ true) × (q.q_count ≡ 0) × Sleeps running' q' wait ws
Sleeps running q (pos n) (timed_out running' q' ∷ ws) = ⊥
Sleeps running q (negsuc n) (timed_out running' q' ∷ ws) =
    (running ≡ true) × (q.q_count ≡ 0) × Sleeps running' q' (negsuc n) ws

-- The call stops waiting, and the queue that it sees last: one that it finds with frames or in a pipeline that
-- does not run, at its start or after wakes that each find a running pipeline with an empty queue; or that
-- at the end of a limited wait.
pub data Seen (wait : ℤ) : Bool → FrameQueue → List Wake → FrameQueue → Type 0 where
  awake :
      {running : Bool} {q : FrameQueue} {ws : List Wake}
      → (running ≡ false) ⊎ (1 ≤ q.q_count)
      → Seen wait running q ws q
  limit_over :
      {running running' : Bool} {q q' : FrameQueue} {ws : List Wake} (n : ℕ)
      → wait ≡ pos n
      → running ≡ true
      → q.q_count ≡ 0
      → Seen wait running q (timed_out running' q' ∷ ws) q'
  after_signal :
      {running running' : Bool} {q q' s : FrameQueue} {ws : List Wake}
      → running ≡ true
      → q.q_count ≡ 0
      → Seen wait running' q' ws s
      → Seen wait running q (signalled running' q' ∷ ws) s
  no_limit :
      {running running' : Bool} {q q' s : FrameQueue} {ws : List Wake} (n : ℕ)
      → wait ≡ negsuc n
      → running ≡ true
      → q.q_count ≡ 0
      → Seen wait running' q' ws s
      → Seen wait running q (timed_out running' q' ∷ ws) s

abbrev pub AllValid : List Wake → Type 0
AllValid [] = Unit {0}
AllValid (signalled running q ∷ ws) = IsValid q × AllValid ws
AllValid (timed_out running q ∷ ws) = IsValid q × AllValid ws

-- The call returns, with what the queue that it saw last gives.
abbrev pub Returns : Bool → FrameQueue → ℤ → List Wake → Popped → Type 0
Returns running q wait ws r =
    (s : FrameQueue) × (o : Option ℕ) × (q' : FrameQueue) × Seen wait running q ws s
    × (r ≡ popped o q')
    × Pops s o q'

-- The state in which the loop waits.
IsIdle : Bool → FrameQueue → Type 0
IsIdle running q = (running ≡ true) × (q.q_count ≡ 0)

IsIdle-cases :
    (running : Bool) (q : FrameQueue)
    → (((running && (q.q_count == 0)) ≡ true) × IsIdle running q)
      ⊎ (((running && (q.q_count == 0)) ≡ false) × ((running ≡ false) ⊎ (1 ≤ q.q_count)))
unfolding IsIdle
IsIdle-cases running q = ground arith

Returns-head :
    {running : Bool} {q s : FrameQueue} {wait : ℤ} {ws : List Wake}
    → IsValid s
    → Seen wait running q ws s
    → Returns running q wait ws (take_head s)
Returns-head {s = s} v seen = let (o, q', e, p) = take_head-Pops s v in (s, o, q', seen, e, p)

-- A call of `queue_pop` sleeps on just as long as every wake finds a running pipeline with an empty queue
-- and is not the end of a limited wait: it returns only when it finds a frame, or a pipeline that does
-- not run, or at the end of its limited wait. Then it returns, off the queue that it saw last, the
-- oldest frame, which it removes, or NULL if that queue was empty.
pub queue_pop_refines :
    (running : Bool) (q : FrameQueue) (wait : ℤ) (ws : List Wake)
    → IsValid q
    → AllValid ws
    → ((queue_pop running q wait ws ≡ asleep) × Sleeps running q wait ws)
      ⊎ Returns running q wait ws (queue_pop running q wait ws)
unfolding queue_pop IsIdle
queue_pop_refines running q wait [] v vs = elim (IsIdle-cases running q) [
  | inl (sleep, idle) ↦ rw sleep (inl (refl, idle))
  | inr (stop, why) ↦ rw stop (inr (Returns-head v (awake why)))
]
queue_pop_refines running q wait (signalled running' q' ∷ ws) v vs = elim (IsIdle-cases running q) [
  | inl (sleep, (on, empty)) ↦ rw sleep (elim (queue_pop_refines running' q' wait ws vs.0 vs.1) [
    | inl (e, s) ↦ inl (e, (on, empty, s))
    | inr (s, o, q'', seen, r, p) ↦ inr (s, o, q'', after_signal on empty seen, r, p)
  ])
  | inr (stop, why) ↦ rw stop (inr (Returns-head v (awake why)))
]
queue_pop_refines running q (pos n) (timed_out running' q' ∷ ws) v vs =
    elim (IsIdle-cases running q) [
      | inl (sleep, (on, empty)) ↦ rw sleep (inr (Returns-head vs.0 (limit_over n refl on empty)))
      | inr (stop, why) ↦ rw stop (inr (Returns-head v (awake why)))
    ]
queue_pop_refines running q (negsuc n) (timed_out running' q' ∷ ws) v vs =
    elim (IsIdle-cases running q) [
      | inl (sleep, (on, empty)) ↦
          rw sleep (elim (queue_pop_refines running' q' (negsuc n) ws vs.0 vs.1) [
            | inl (e, s) ↦ inl (e, (on, empty, s))
            | inr (s, o, q'', seen, r, p) ↦ inr (s, o, q'', no_limit n refl on empty seen, r, p)
          ])
      | inr (stop, why) ↦ rw stop (inr (Returns-head v (awake why)))
    ]
