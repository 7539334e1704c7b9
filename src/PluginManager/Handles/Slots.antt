-- ===== src/PluginManager/Handles/Slots.antt =====
-- The handles that the slots of plugin_manager.c hold.
use plat.Base.{
  ℕ, ◌+◌, ◌-◌, ◌≡◌, refl, sym, ◌∙◌, true, none, some, List, [], ◌∷◌, ◌==◌, if◌then◌else◌, arith,
  Bool-cases, Option-cases, inl, inr,
}
use plat.PluginManager.{Slot, Manager, close_one, has_free, fill_slot}

-- How often a handle is among others.
abbrev pub times : ℕ → List ℕ → ℕ
times h [] = 0
times h (k ∷ ks) = (if h == k then 1 else 0) + times h ks

pub times-close_one :
    (h k : ℕ) (opens : List ℕ)
    → times h (close_one k opens) ≡ times h opens - (if h == k then 1 else 0)
unfolding close_one
times-close_one h k [] = omega arith
times-close_one h k (o ∷ opens) = elim (Bool-cases (k == o)) [
  | inl e ↦ ground (arith, e)
  | inr e ↦ ground (arith, e, times-close_one h k opens)
]

pub none_open : (opens : List ℕ) → ((h : ℕ) → times h opens ≡ 0) → opens ≡ []
none_open [] h = refl
none_open (k ∷ opens) h = let zero_times = h k in absurd (ground (arith, zero_times))

module _ {C : Type 0} where
  abbrev pub slot_handles : List (Slot C) → List ℕ
  slot_handles [] = []
  slot_handles (s ∷ slots) = elim s.dl_handle [
    | none ↦ slot_handles slots
    | some h ↦ h ∷ slot_handles slots
  ]

  abbrev pub held : Manager C → List ℕ
  held mgr = elim mgr.slots [ none ↦ [] | some slots ↦ slot_handles slots ]

  -- Each library is open as often as slots hold it.
  abbrev pub IsBalanced : Manager C → Type 0
  IsBalanced mgr = (h : ℕ) → times h mgr.opens ≡ times h (held mgr)

  module _ (s : Slot C) (slots : List (Slot C)) where
    pub slot_handles-free : s.dl_handle ≡ none → slot_handles (s ∷ slots) ≡ slot_handles slots
    slot_handles-free g = rw g refl

    pub slot_handles-held :
        (o : ℕ) → s.dl_handle ≡ some o → slot_handles (s ∷ slots) ≡ o ∷ slot_handles slots
    slot_handles-held o g = rw g refl

    fill_slot-free : (new : Slot C) → s.dl_handle ≡ none → fill_slot new (s ∷ slots) ≡ new ∷ slots
    unfolding fill_slot
    fill_slot-free new g = rw g refl

    fill_slot-held :
        (new : Slot C) (o : ℕ)
        → s.dl_handle ≡ some o
        → fill_slot new (s ∷ slots) ≡ s ∷ fill_slot new slots
    unfolding fill_slot
    fill_slot-held new o g = simp g refl

    has_free-held : (o : ℕ) → s.dl_handle ≡ some o → has_free (s ∷ slots) ≡ has_free slots
    unfolding has_free
    has_free-held o g = rw g refl

  pub times-fill_slot :
      (h k : ℕ) (new : Slot C) (slots : List (Slot C))
      → new.dl_handle ≡ some k
      → has_free slots ≡ true
      → times h (slot_handles (fill_slot new slots))
        ≡ (if h == k then 1 else 0) + times h (slot_handles slots)
  unfolding has_free
  times-fill_slot h k new [] e f = absurd (ground (arith, f))
  times-fill_slot h k new (s ∷ slots) e f = elim (Option-cases s.dl_handle) [
    | inl g ↦
        rw
          (
            fill_slot-free s slots new g,
            slot_handles-held new slots k e,
            slot_handles-free s slots g,
          )
          refl
    | inr (o, g) ↦
        let more = times-fill_slot h k new slots e (sym (has_free-held s slots o g) ∙ f) in
        rw
          (
            fill_slot-held s slots new o g,
            slot_handles-held s (fill_slot new slots) o g,
            slot_handles-held s slots o g,
            more,
          )
          (omega arith)
  ]
