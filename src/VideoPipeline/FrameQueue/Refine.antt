-- ===== src/VideoPipeline/FrameQueue/Refine.antt =====
-- The frame queue against a list of at most eight frames, oldest first.
use plat.Base.{
  ℕ, zero, suc, ◌+◌, ◌-◌, ◌%◌, ◌≤◌, ◌<◌, ◌≡◌, refl, sym, ap, ap₂, ◌∙◌, inl, inr, ◌⊎◌, Option, none,
  some, List, [], ◌∷◌, ◌++◌, leb, ◌==◌, if◌then◌else◌, length, get_or, set, drop, tabulate,
  tabulate_cong, tabulate-add, drop-tabulate, length-tabulate, arith, dec_lt, length-set,
  get_or-set_at, get_or-set_off, Bool-cases,
}
use plat.VideoPipeline.FrameQueue.{
  FrameQueue, queue_depth, slot, advance, append, queue_push, popped, take_head,
}

abbrev pub unwrap : Option ℕ → ℕ
unwrap none = 0
unwrap (some b) = b

-- The slot `i` places behind the head.
abbrev pub queued : FrameQueue → ℕ → Option ℕ
queued q i = slot q ((q.q_head + i) % queue_depth)

-- The queued blocks, oldest first.
abbrev pub frames : FrameQueue → List ℕ
frames q = tabulate q.q_count (λ i. unwrap (queued q i))

pub record IsValid (q : FrameQueue) : Type 0 where
  pub size : length q.slots ≡ queue_depth
  pub head_in : q.q_head < queue_depth
  pub tail_at : q.q_tail ≡ (q.q_head + q.q_count) % queue_depth
  pub count_fits : q.q_count ≤ queue_depth
  pub filled : (i : ℕ) → i < q.q_count → queued q i ≡ some (unwrap (queued q i))

module _ (q : FrameQueue) (v : IsValid q) where
  pub length-frames : length (frames q) ≡ q.q_count
  length-frames = length-tabulate q.q_count _

  advance_slot : (i : ℕ) → queued (advance q) i ≡ queued q (suc i)
  unfolding advance
  advance_slot i = ap (λ j. slot q j) (omega arith)

  pub frames-advance : 0 < q.q_count → frames (advance q) ≡ drop 1 (frames q)
  unfolding advance
  frames-advance h =
      let rest : 1 + (q.q_count - 1) ≡ q.q_count = omega arith in
      tabulate_cong (q.q_count - 1) _ _ (λ i p. ap unwrap (advance_slot i))
      ∙ tabulate_cong (q.q_count - 1) _ _ (λ i p. ap (λ j. unwrap (queued q j)) (omega arith))
      ∙ sym (drop-tabulate 1 (q.q_count - 1) (λ i. unwrap (queued q i)))
      ∙ ap (λ m. drop 1 (tabulate m (λ i. unwrap (queued q i)))) rest

  pub advance-IsValid : 0 < q.q_count → IsValid (advance q)
  unfolding advance
  advance-IsValid h = record {
    size = v.size;
    head_in = omega arith;
    tail_at = omega (arith, v.tail_at);
    count_fits = omega (arith, v.count_fits);
    filled = λ i p. rw (advance_slot i) (v.filled (suc i) (omega arith));
  }

  append_old :
      (block i : ℕ)
      → q.q_count < queue_depth
      → i < q.q_count
      → queued (append q block) i ≡ queued q i
  unfolding append
  append_old block i h p =
      get_or-set_off q.slots q.q_tail ((q.q_head + i) % queue_depth) (some block) none
        (omega (arith, v.tail_at))

  append_new :
      (block : ℕ) → q.q_count < queue_depth → queued (append q block) q.q_count ≡ some block
  unfolding append
  append_new block h =
      ap (λ j. get_or (set q.slots q.q_tail (some block)) j none) (sym v.tail_at)
      ∙ get_or-set_at q.slots q.q_tail (some block) none (omega (arith, v.size, v.tail_at))

  pub frames-append :
      (block : ℕ) → q.q_count < queue_depth → frames (append q block) ≡ frames q ++ block ∷ []
  unfolding append
  frames-append block h =
      tabulate-add q.q_count 1 (λ i. unwrap (queued (append q block) i))
      ∙ ap₂ ◌++◌ (tabulate_cong q.q_count _ _ (λ i p. ap unwrap (append_old block i h p))) (
          ap (λ b. unwrap b ∷ []) (ap (queued (append q block)) (omega arith) ∙ append_new block h))

  pub append-IsValid : (block : ℕ) → q.q_count < queue_depth → IsValid (append q block)
  unfolding append
  append-IsValid block h = record {
    size = length-set q.slots q.q_tail (some block) ∙ v.size;
    head_in = v.head_in;
    tail_at = omega (arith, v.tail_at);
    count_fits = omega arith;
    filled = λ i p. elim (dec_lt i q.q_count) [
      | yes old ↦ rw (append_old block i h old) (v.filled i old)
      | no new ↦ let last : i ≡ q.q_count = omega arith in rw (last, append_new block h)
    ];
  }

head-tabulate : (n : ℕ) (f : ℕ → ℕ) → 0 < n → get_or (tabulate n f) 0 0 ≡ f 0
head-tabulate zero f h = absurd (omega arith)
head-tabulate (suc n) f h = refl

head_slot :
    (q : FrameQueue) → IsValid q → 0 < q.q_count → slot q q.q_head ≡ some (get_or (frames q) 0 0)
head_slot q v h =
    ap (λ j. slot q j) (omega (arith, v.head_in))
    ∙ v.filled 0 h
    ∙ ap some (sym (head-tabulate q.q_count (λ i. unwrap (queued q i)) h))

-- A push appends the block; a full queue first loses its oldest block, which is handed back.
pub queue_push_refines :
    (q : FrameQueue) (block : ℕ)
    → IsValid q
    → let (q', dropped) = queue_push q block in
      let full = leb queue_depth (length (frames q)) in
      (frames q' ≡ (if full then drop 1 (frames q) else frames q) ++ block ∷ [])
      × (dropped ≡ (if full then some (get_or (frames q) 0 0) else none))
      × IsValid q'
unfolding queue_push
queue_push_refines q block v =
    rw (length-frames q v) (elim (Bool-cases (leb queue_depth q.q_count)) [
      | inl full ↦
          let some_queued : 0 < q.q_count = ground arith in
          let shorter : (advance q).q_count < queue_depth =
            unfold advance in omega (arith, v.count_fits) in
          rw full (
            frames-append (advance q) (advance-IsValid q v some_queued) block shorter
                ∙ ap (λ fs. fs ++ block ∷ []) (frames-advance q v some_queued),
            head_slot q v some_queued,
            append-IsValid (advance q) (advance-IsValid q v some_queued) block shorter,
          )
      | inr room ↦
          rw room
            (frames-append q v block (ground arith), refl, append-IsValid q v block (ground arith))
    ])

head-drop : (xs : List ℕ) → 0 < length xs → xs ≡ get_or xs 0 0 ∷ drop 1 xs
head-drop [] h = absurd (omega arith)
head-drop (x ∷ xs) h = refl

-- What `queue_pop` returns, off the queue `s` that it looks at last.
abbrev pub Pops : FrameQueue → Option ℕ → FrameQueue → Type 0
Pops s r q' =
    ((r ≡ none) × (q' ≡ s) × (frames s ≡ []))
    ⊎ ((block : ℕ) × (r ≡ some block) × (frames s ≡ block ∷ frames q') × IsValid q')

pub take_head-Pops :
    (q : FrameQueue)
    → IsValid q
    → (r : Option ℕ) × (q' : FrameQueue) × (take_head q ≡ popped r q') × Pops q r q'
unfolding take_head
take_head-Pops q v = elim (Bool-cases (q.q_count == 0)) [
  | inl empty ↦
      let none_left : q.q_count ≡ 0 = ground arith in
      (
        none,
        q,
        rw empty,
        inl (refl, refl, ap (λ m. tabulate m (λ i. unwrap (queued q i))) none_left),
      )
  | inr more ↦
      let h : 0 < q.q_count = ground arith in
      (
        slot q q.q_head,
        advance q,
        rw more,
        inr (
          get_or (frames q) 0 0,
          head_slot q v h,
          head-drop (frames q) (omega (arith, length-frames q v))
              ∙ ap (λ fs. get_or (frames q) 0 0 ∷ fs) (sym (frames-advance q v h)),
          advance-IsValid q v h,
        ),
      )
]
