-- ===== src/PluginManager/Tests.antt =====
-- The plugin manager's theorem with two plugins, one of which does not start.
use plat.Base.{ℕ, ◌≡◌, Bool, true, Option, none, some, List, [], ◌∷◌, ◌==◌, length}
use plat.Base.Text.{Text, codes}
use plat.PluginManager.{Api, manager_init, manager_destroy}
use plat.PluginManager.Handles.Slots.{IsBalanced}
use plat.PluginManager.Handles.{Call, loads, ticks, after_calls, manager_destroy-closes}

abbrev plugin : Bool → Api ℕ
plugin starts = record {
  name = some (codes "sample");
  on_load = some (λ n. (starts, n));
  on_tick = some (λ n. n);
  on_unload = none;
}

abbrev by_length : Text → Option ℕ
by_length path = some (length path)

abbrev exports : ℕ → Option (Option (Api ℕ))
exports h = some (some (plugin (h == 14)))

abbrev history : List Call
history =
    loads (codes "./plugins") (some (codes "a.so" ∷ codes "README" ∷ codes "bad.so" ∷ [])) 0
    ∷ ticks
    ∷ []

manager_destroy-closes_example :
    let mgr = after_calls by_length exports (manager_init true 16 0 []).1 history in
    IsBalanced mgr × ((manager_destroy mgr).opens ≡ [])
manager_destroy-closes_example = manager_destroy-closes by_length exports true 16 0 history
