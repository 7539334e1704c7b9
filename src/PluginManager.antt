-- ===== src/PluginManager.antt =====
-- embedded_debug_toolkit/src/plugins/plugin_manager.c. The libraries that dlopen has opened and dlclose has
-- not closed are a list with one entry for each open; `C` is the state behind the context that the plugins
-- are given. Null managers and paths are not modelled.

pub mod Handles
mod Tests
use plat.Base.{
  ℕ, zero, suc, ◌-◌, Bool, true, false, not, Option, none, some, List, [], ◌∷◌, ◌++◌, ltb, ◌==◌,
  if◌then◌else◌, take, drop, length, replicate,
}
use plat.Base.Text.{Text, codes, same_text}

-- `edt_backend_plugin_api_t`; `on_load` says whether it returns 0.
pub record Api (C : Type 0) : Type 0 where
  pub name : Option Text
  pub on_load : Option (C → Bool × C)
  pub on_tick : Option (C → C)
  pub on_unload : Option (C → C)

-- `edt_plugin_slot_t`.
pub record Slot (C : Type 0) : Type 0 where
  pub path : Text
  pub name : Text
  pub dl_handle : Option ℕ
  pub api : Option (Api C)

-- `edt_plugin_manager_t`, the context's state, and the open libraries.
pub record Manager (C : Type 0) : Type 0 where
  pub slots : Option (List (Slot C))
  pub context : C
  pub opens : List ℕ

-- dlclose ends one open of a library.
unfoldable pub close_one : ℕ → List ℕ → List ℕ
close_one h [] = []
close_one h (k ∷ opens) = let rest = close_one h opens in if h == k then opens else k ∷ rest

-- Whether the last three bytes are ".so" and others stand before them.
unfoldable pub is_plugin_name : Text → Bool
is_plugin_name name =
    if ltb (length name) 4 then false else same_text (drop (length name - 3) name) (codes ".so")

unfoldable pub full_path : Text → Text → Text
full_path dir name = take 511 (dir ++ codes "/" ++ name)

module _ {C : Type 0} where
  abbrev pub empty_slot : Slot C
  empty_slot = record { path = []; name = []; dl_handle = none; api = none }

  -- `edt_plugin_manager_init`: 0, or n for -n.
  unfoldable pub manager_init : Bool → ℕ → C → List ℕ → ℕ × Manager C
  manager_init allocated max_plugins context opens =
      let cleared : Manager C = record { slots = none; context = context; opens = opens } in
      if max_plugins == 0
      then (22, cleared)
      else if allocated
      then (0, record cleared { slots = some (replicate max_plugins empty_slot) })
      else (12, cleared)

  unfoldable pub has_free : List (Slot C) → Bool
  has_free [] = false
  has_free (s ∷ slots) = elim s.dl_handle [ none ↦ true | some h ↦ has_free slots ]

  -- The first free slot is taken.
  unfoldable pub fill_slot : Slot C → List (Slot C) → List (Slot C)
  fill_slot new [] = []
  fill_slot new (s ∷ slots) = elim s.dl_handle [
    | none ↦ new ∷ slots
    | some h ↦ s ∷ fill_slot new slots
  ]

  -- A plugin's own start.
  unfoldable pub load_plugin : Api C → C → Bool × C
  load_plugin api context = elim api.on_load [ none ↦ (true, context) | some f ↦ f context ]

  -- A library that is open: `mgr` has it among its open ones.
  unfoldable pub add_plugin : Manager C → List (Slot C) → Text → ℕ → Api C → Text → ℕ × Manager C
  add_plugin mgr slots path h api name =
      let (loaded, context) = load_plugin api mgr.context in
      let new : Slot C = record {
        path = take 255 path;
        name = take 63 name;
        dl_handle = some h;
        api = some api;
      } in
      if loaded
      then (0, record mgr { slots = some (fill_slot new slots); context = context })
      else (22, record mgr { context = context; opens = close_one h mgr.opens })

  unfoldable pub without_plugin : Manager C → ℕ → ℕ × Manager C
  without_plugin mgr h = (22, record mgr { opens = close_one h mgr.opens })

  unfoldable pub use_named :
      Manager C → List (Slot C) → Text → ℕ → Api C → Option Text → ℕ × Manager C
  use_named mgr slots path h api none = without_plugin mgr h
  use_named mgr slots path h api (some name) = add_plugin mgr slots path h api name

  -- The function that the library exports, and what it gives: each may be null.
  unfoldable pub use_library :
      Manager C → List (Slot C) → Text → ℕ → Option (Option (Api C)) → ℕ × Manager C
  use_library mgr slots path h none = without_plugin mgr h
  use_library mgr slots path h (some none) = without_plugin mgr h
  use_library mgr slots path h (some (some api)) = use_named mgr slots path h api api.name

  -- `dlopen` gives a path's handle; `exported` is what dlsym finds in a library.
  module _ (dlopen : Text → Option ℕ) (exported : ℕ → Option (Option (Api C))) where
    unfoldable pub open_library : Manager C → List (Slot C) → Text → Option ℕ → ℕ × Manager C
    open_library mgr slots path none = (22, mgr)
    open_library mgr slots path (some h) =
        use_library (record mgr { opens = h ∷ mgr.opens }) slots path h (exported h)

    -- A manager without slots has none that is free.
    unfoldable pub add_to : Manager C → Text → Option (List (Slot C)) → ℕ × Manager C
    add_to mgr path none = (28, mgr)
    add_to mgr path (some slots) =
        if has_free slots then open_library mgr slots path (dlopen path) else (28, mgr)

    -- `edt_plugin_manager_add`.
    unfoldable pub add : Manager C → Text → ℕ × Manager C
    add mgr path = add_to mgr path mgr.slots

    -- The entries of a directory, one after the other.
    unfoldable pub load_entries : Text → List Text → Manager C → Manager C
    load_entries dir [] mgr = mgr
    load_entries dir (name ∷ names) mgr =
        load_entries dir names
          (if is_plugin_name name then (add mgr (full_path dir name)).1 else mgr)

    -- `edt_plugin_manager_load_dir`: the entries, or the error of opendir.
    unfoldable pub load_dir : Text → Option (List Text) → ℕ → Manager C → ℕ × Manager C
    load_dir dir none errno mgr = (errno, mgr)
    load_dir dir (some names) errno mgr = (0, load_entries dir names mgr)

  unfoldable pub tick_slot : Slot C → C → C
  tick_slot s context = elim s.api [
    | none ↦ context
    | some api ↦ elim api.on_tick [ none ↦ context | some f ↦ f context ]
  ]

  unfoldable pub tick_slots : List (Slot C) → C → C
  tick_slots [] context = context
  tick_slots (s ∷ slots) context = tick_slots slots (tick_slot s context)

  unfoldable pub tick_all : Option (List (Slot C)) → C → C
  tick_all none context = context
  tick_all (some slots) context = tick_slots slots context

  -- `edt_plugin_manager_tick`, which returns 0.
  unfoldable pub tick : Manager C → Manager C
  tick mgr = record mgr { context = tick_all mgr.slots mgr.context }

  unfoldable pub unload_context : Slot C → C → C
  unload_context s context = elim s.api [
    | none ↦ context
    | some api ↦ elim api.on_unload [ none ↦ context | some f ↦ f context ]
  ]

  unfoldable pub close_slot : Slot C → List ℕ → List ℕ
  close_slot s opens = elim s.dl_handle [ none ↦ opens | some h ↦ close_one h opens ]

  -- The loop of `edt_plugin_manager_unload_all`, and the slots that it leaves.
  unfoldable pub unload_slots : List (Slot C) → C → List ℕ → C × List ℕ
  unload_slots [] context opens = (context, opens)
  unload_slots (s ∷ slots) context opens =
      unload_slots slots (unload_context s context) (close_slot s opens)

  unfoldable pub unload_from : Manager C → Option (List (Slot C)) → Manager C
  unload_from mgr none = mgr
  unload_from mgr (some slots) =
      let (context, opens) = unload_slots slots mgr.context mgr.opens in
      record {
        slots = some (replicate (length slots) empty_slot);
        context = context;
        opens = opens;
      }

  -- `edt_plugin_manager_unload_all`.
  unfoldable pub unload_all : Manager C → Manager C
  unload_all mgr = unload_from mgr mgr.slots

  -- `edt_plugin_manager_destroy`.
  unfoldable pub manager_destroy : Manager C → Manager C
  manager_destroy mgr = record (unload_all mgr) { slots = none }
