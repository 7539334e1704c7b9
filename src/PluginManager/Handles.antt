-- ===== src/PluginManager/Handles.antt =====
-- plugin_manager.c closes every library that it has opened.
pub mod Slots
use plat.Base.{
  ℕ, zero, suc, ◌+◌, ◌-◌, ◌≡◌, refl, sym, ap, ◌∙◌, Bool, true, Option, none, some, List, [], ◌∷◌,
  ◌==◌, if◌then◌else◌, replicate, take, arith, if_both, Bool-cases, Option-cases, inl, inr,
}
use plat.Base.Text.{Text}
use plat.PluginManager.{
  Api, Slot, Manager, close_one, is_plugin_name, full_path, empty_slot, manager_init, has_free,
  fill_slot, load_plugin, add_plugin, without_plugin, use_library, use_named, open_library, add_to,
  add, load_entries, load_dir, tick, close_slot, unload_slots, unload_from, unload_all,
  manager_destroy, unload_context,
}
use plat.PluginManager.Handles.Slots.{
  times, times-close_one, none_open, slot_handles, held, IsBalanced, slot_handles-free,
  slot_handles-held, times-fill_slot,
}

module _ {C : Type 0} where
  -- A library that has been opened once more, and that no slot holds yet.
  abbrev IsPending : ℕ → Manager C → Type 0
  IsPending k mgr = (h : ℕ) → times h mgr.opens ≡ (if h == k then 1 else 0) + times h (held mgr)

  without_plugin-IsBalanced :
      (mgr : Manager C) (k : ℕ) → IsPending k mgr → IsBalanced (without_plugin mgr k).1
  unfolding without_plugin
  without_plugin-IsBalanced mgr k p h = omega (arith, times-close_one h k mgr.opens, p h)

  module _ (mgr : Manager C) (slots : List (Slot C)) (path : Text) (k : ℕ)
      (known : mgr.slots ≡ some slots) (free : has_free slots ≡ true) (p : IsPending k mgr) where
    filled :
        (mgr' : Manager C) (new : Slot C)
        → mgr'.opens ≡ mgr.opens
        → mgr'.slots ≡ some (fill_slot new slots)
        → new.dl_handle ≡ some k
        → IsBalanced mgr'
    filled mgr' new same has e h =
        let now : times h (held mgr) ≡ times h (slot_handles slots) = rw known refl in
        let then' : times h (held mgr') ≡ times h (slot_handles (fill_slot new slots)) =
          rw has refl in
        ap (times h) same
        ∙ p h
        ∙ ap (λ n. (if h == k then 1 else 0) + n) now
        ∙ sym (times-fill_slot h k new slots e free)
        ∙ sym then'

    abbrev new_slot : Api C → Text → Slot C
    new_slot api name = record {
      path = take 255 path;
      name = take 63 name;
      dl_handle = some k;
      api = some api;
    }

    add_plugin-IsBalanced :
        (api : Api C) (name : Text) → IsBalanced (add_plugin mgr slots path k api name).1
    unfolding add_plugin without_plugin
    add_plugin-IsBalanced api name =
        if_both (λ (r : ℕ × Manager C). IsBalanced r.1) (load_plugin api mgr.context).0 _ _
          (λ e.
            filled
              (record mgr {
                slots = some (fill_slot (new_slot api name) slots);
                context = (load_plugin api mgr.context).1;
              })
              (new_slot api name) refl refl refl)
          (λ e.
            without_plugin-IsBalanced (record mgr { context = (load_plugin api mgr.context).1 }) k
              p)

    use_named-IsBalanced :
        (api : Api C) (name : Option Text) → IsBalanced (use_named mgr slots path k api name).1
    unfolding use_named
    use_named-IsBalanced api none = without_plugin-IsBalanced mgr k p
    use_named-IsBalanced api (some name) = add_plugin-IsBalanced api name

    use_library-IsBalanced :
        (found : Option (Option (Api C))) → IsBalanced (use_library mgr slots path k found).1
    unfolding use_library
    use_library-IsBalanced none = without_plugin-IsBalanced mgr k p
    use_library-IsBalanced (some none) = without_plugin-IsBalanced mgr k p
    use_library-IsBalanced (some (some api)) = use_named-IsBalanced api api.name

  module _ (dlopen : Text → Option ℕ) (exported : ℕ → Option (Option (Api C))) where
    open_library-IsBalanced :
        (mgr : Manager C) (slots : List (Slot C)) (path : Text) (opened : Option ℕ)
        → mgr.slots ≡ some slots
        → has_free slots ≡ true
        → IsBalanced mgr
        → IsBalanced (open_library dlopen exported mgr slots path opened).1
    unfolding open_library
    open_library-IsBalanced mgr slots path none known free b = b
    open_library-IsBalanced mgr slots path (some k) known free b =
        use_library-IsBalanced (record mgr { opens = k ∷ mgr.opens }) slots path k known free
          (λ h. ap (λ n. (if h == k then 1 else 0) + n) (b h)) (exported k)

    add_to-IsBalanced :
        (mgr : Manager C) (path : Text) (found : Option (List (Slot C)))
        → mgr.slots ≡ found
        → IsBalanced mgr
        → IsBalanced (add_to dlopen exported mgr path found).1
    unfolding add_to
    add_to-IsBalanced mgr path none known b = b
    add_to-IsBalanced mgr path (some slots) known b =
        if_both (λ (r : ℕ × Manager C). IsBalanced r.1) (has_free slots) _ _
          (λ free. open_library-IsBalanced mgr slots path (dlopen path) known free b) (λ e. b)

    load_entries-IsBalanced :
        (dir : Text) (names : List Text) (mgr : Manager C)
        → IsBalanced mgr
        → IsBalanced (load_entries dlopen exported dir names mgr)
    unfolding load_entries add
    load_entries-IsBalanced dir [] mgr b = b
    load_entries-IsBalanced dir (name ∷ names) mgr b =
        load_entries-IsBalanced dir names
          (if is_plugin_name name then (add dlopen exported mgr (full_path dir name)).1 else mgr)
          (if_both IsBalanced (is_plugin_name name) _ _
            (λ e. add_to-IsBalanced mgr (full_path dir name) mgr.slots refl b) (λ e. b))

    load_dir-IsBalanced :
        (dir : Text) (names : Option (List Text)) (errno : ℕ) (mgr : Manager C)
        → IsBalanced mgr
        → IsBalanced (load_dir dlopen exported dir names errno mgr).1
    unfolding load_dir
    load_dir-IsBalanced dir none errno mgr b = b
    load_dir-IsBalanced dir (some names) errno mgr b = load_entries-IsBalanced dir names mgr b

  tick-IsBalanced : (mgr : Manager C) → IsBalanced mgr → IsBalanced (tick mgr)
  unfolding tick
  tick-IsBalanced mgr b = b

  close_slot-times :
      (h : ℕ) (s : Slot C) (slots : List (Slot C)) (opens : List ℕ)
      → times h opens ≡ times h (slot_handles (s ∷ slots))
      → times h (close_slot s opens) ≡ times h (slot_handles slots)
  unfolding close_slot
  close_slot-times h s slots opens b = elim (Option-cases s.dl_handle) [
    | inl g ↦ rw (close_slot, g) (b ∙ ap (times h) (slot_handles-free s slots g))
    | inr (o, g) ↦
        let before = b ∙ ap (times h) (slot_handles-held s slots o g) in
        rw (close_slot, g) (omega (arith, times-close_one h o opens, before))
  ]

  unload_slots-opens :
      (slots : List (Slot C)) (context : C) (opens : List ℕ)
      → ((h : ℕ) → times h opens ≡ times h (slot_handles slots))
      → (unload_slots slots context opens).1 ≡ []
  unfolding unload_slots
  unload_slots-opens [] context opens b = none_open opens b
  unload_slots-opens (s ∷ slots) context opens b =
      unload_slots-opens slots (unload_context s context) (close_slot s opens)
        (λ h. close_slot-times h s slots opens (b h))

  unload_from-opens :
      (mgr : Manager C) (found : Option (List (Slot C)))
      → mgr.slots ≡ found
      → IsBalanced mgr
      → (unload_from mgr found).opens ≡ []
  unfolding unload_from
  unload_from-opens mgr none known b = none_open mgr.opens (λ h. b h ∙ rw known refl)
  unload_from-opens mgr (some slots) known b =
      unload_slots-opens slots mgr.context mgr.opens (λ h. b h ∙ rw known refl)

empty_slots : (C : Type 0) (n : ℕ) → slot_handles (replicate n (empty_slot {C = C})) ≡ []
empty_slots C zero = refl
empty_slots C (suc n) = empty_slots C n

module _ {C : Type 0} where
  manager_init-IsBalanced :
      (allocated : Bool) (max_plugins : ℕ) (context : C)
      → IsBalanced (manager_init allocated max_plugins context []).1
  unfolding manager_init
  manager_init-IsBalanced allocated max_plugins context =
      if_both (λ (r : ℕ × Manager C). IsBalanced r.1) (max_plugins == 0) _ _ (λ e h. refl)
        (λ e.
          if_both (λ (r : ℕ × Manager C). IsBalanced r.1) allocated _ _
            (λ f h. sym (ap (times h) (empty_slots C max_plugins))) (λ f h. refl))

-- The calls of a client.
pub data Call : Type 0 where
  loads : Text → Option (List Text) → ℕ → Call
  ticks : Call

module _ {C : Type 0} (dlopen : Text → Option ℕ) (exported : ℕ → Option (Option (Api C))) where
  abbrev pub after_call : Manager C → Call → Manager C
  after_call mgr (loads dir names errno) = (load_dir dlopen exported dir names errno mgr).1
  after_call mgr ticks = tick mgr

  abbrev pub after_calls : Manager C → List Call → Manager C
  after_calls mgr [] = mgr
  after_calls mgr (c ∷ calls) = after_calls (after_call mgr c) calls

  after_call-IsBalanced :
      (mgr : Manager C) (c : Call) → IsBalanced mgr → IsBalanced (after_call mgr c)
  after_call-IsBalanced mgr (loads dir names errno) b =
      load_dir-IsBalanced dlopen exported dir names errno mgr b
  after_call-IsBalanced mgr ticks b = tick-IsBalanced mgr b

  after_calls-IsBalanced :
      (mgr : Manager C) (calls : List Call) → IsBalanced mgr → IsBalanced (after_calls mgr calls)
  after_calls-IsBalanced mgr [] b = b
  after_calls-IsBalanced mgr (c ∷ calls) b =
      after_calls-IsBalanced (after_call mgr c) calls (after_call-IsBalanced mgr c b)

  -- Whatever directories are loaded, whatever their libraries export and whether their plugins start:
  -- each library is open just as often as slots hold it, and after `edt_plugin_manager_destroy` none is
  -- open.
  pub manager_destroy-closes :
      (allocated : Bool) (max_plugins : ℕ) (context : C) (calls : List Call)
      → let mgr = after_calls (manager_init allocated max_plugins context []).1 calls in
        IsBalanced mgr × ((manager_destroy mgr).opens ≡ [])
  unfolding manager_destroy unload_all
  manager_destroy-closes allocated max_plugins context calls =
      let mgr = after_calls (manager_init allocated max_plugins context []).1 calls in
      let balanced =
        after_calls-IsBalanced (manager_init allocated max_plugins context []).1 calls
          (manager_init-IsBalanced allocated max_plugins context) in
      (balanced, unload_from-opens mgr mgr.slots refl balanced)
