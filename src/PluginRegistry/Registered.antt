-- ===== src/PluginRegistry/Registered.antt =====
-- What stays true of the registry of apps/desktop/src/extensions/plugin-registry.ts.
use socketlens.PluginRegistry.Enabling.{set_enabled-done}
use socketlens.Common.{
  ◌≡◌, refl, sym, subst, [], ◌∷◌, ◌++◌, List, none, Bool, true, false, inl, inr, arith, Text,
  text_eq, text_eq_iff, find, All, All-append, is_some, if◌then◌else◌, Bool-cases,
}
use socketlens.PluginRegistry.{
  Outcome, done, refused, SocketLensPlugin, PluginRegistry, insert, validate_local_plugin,
  get_plugin, register, set_enabled, register_all, enable_known, and_then, create_registry,
}

find-append :
    {A : Type 0} (p : A → Bool) (xs ys : List A)
    → is_some (find p xs) ≡ true
    → is_some (find p (xs ++ ys)) ≡ true
find-append p [] ys h = cc
find-append p (x ∷ xs) ys h = ground (arith, find-append p xs ys)

none_found :
    {A : Type 0} (p : A → Bool) (xs : List A)
    → is_some (find p xs) ≡ false
    → All (λ x. p x ≡ false) xs
none_found p [] h = tt
none_found p (x ∷ xs) h = elim (Bool-cases (p x)) [
  | inl e ↦ cc (rw e at h)
  | inr e ↦ (e, none_found p xs (rw e at h))
]

All-insert :
    (P : Text × Bool → Type 0) (key : Text) (value : Bool) (m : List (Text × Bool))
    → ((b : Bool) → P (key, b))
    → All P m
    → All P (insert key value m)
unfolding insert
All-insert P key value [] h k = (h value, tt)
All-insert P key value ((j, b) ∷ m) h k = elim (Bool-cases (text_eq j key)) [
  | inl e ↦ rw e (subst (λ i. P (i, value)) (sym ((text_eq_iff j key).0 e)) (h value), k.1)
  | inr e ↦ rw e (k.0, All-insert P key value m h k.1)
]

module _ (Analyzer Exporter Filter : Type 0) where
  abbrev Distinct : List (SocketLensPlugin Analyzer Exporter Filter) → Type 0
  Distinct [] = Unit
  Distinct (plugin ∷ plugins) =
      All (λ other. text_eq plugin.id other.id ≡ false) plugins × Distinct plugins

  -- The ids are distinct, every plugin is valid, and only plugins of the registry are switched.
  abbrev pub IsRegistry : PluginRegistry Analyzer Exporter Filter → Type 0
  IsRegistry registry =
      Distinct registry.plugins
      × All (λ plugin. validate_local_plugin plugin ≡ none) registry.plugins
      × All (λ entry. is_some (get_plugin registry entry.0) ≡ true) registry.enablement

  Distinct-append :
      (plugins : List (SocketLensPlugin Analyzer Exporter Filter))
      (plugin : SocketLensPlugin Analyzer Exporter Filter)
      → Distinct plugins
      → All (λ other. text_eq other.id plugin.id ≡ false) plugins
      → Distinct (plugins ++ plugin ∷ [])
  Distinct-append [] plugin h k = (tt, tt)
  Distinct-append (other ∷ plugins) plugin h k =
      (All-append _ plugins (plugin ∷ []) h.0 (k.0, tt), Distinct-append plugins plugin h.1 k.1)

  register-done :
      (registry next : PluginRegistry Analyzer Exporter Filter)
      (plugin : SocketLensPlugin Analyzer Exporter Filter)
      → register registry plugin ≡ done next
      → (validate_local_plugin plugin ≡ none)
        × (is_some (get_plugin registry plugin.id) ≡ false)
        × (record registry { plugins = registry.plugins ++ plugin ∷ [] } ≡ next)
  unfolding register
  register-done registry next plugin h = ground arith

  register-IsRegistry :
      (registry next : PluginRegistry Analyzer Exporter Filter)
      (plugin : SocketLensPlugin Analyzer Exporter Filter)
      → IsRegistry registry
      → register registry plugin ≡ done next
      → IsRegistry next
  unfolding register get_plugin
  register-IsRegistry registry next plugin (d, v, k) h =
      let (e, f, g) = register-done registry next plugin h in
      subst IsRegistry g (
        Distinct-append registry.plugins plugin d (none_found _ registry.plugins f),
        All-append _ registry.plugins (plugin ∷ []) v (e, tt),
        known registry.enablement k,
      )
    where
      known :
          (entries : List (Text × Bool))
          → All (λ entry. is_some (get_plugin registry entry.0) ≡ true) entries
          → All
              (λ entry.
                is_some (
                  get_plugin
                    (record registry { plugins = registry.plugins ++ plugin ∷ [] })
                    entry.0)
                ≡ true)
              entries
      known [] k = tt
      known ((key, b) ∷ entries) k = (
        find-append (λ p. text_eq p.id key) registry.plugins (plugin ∷ []) k.0,
        known entries k.1,
      )

  -- The operations that change a registry.
  pub data Call : Type 0 where
    add : SocketLensPlugin Analyzer Exporter Filter → Call
    switch : Text → Bool → Call

  kept :
      PluginRegistry Analyzer Exporter Filter
      → Outcome (PluginRegistry Analyzer Exporter Filter)
      → PluginRegistry Analyzer Exporter Filter
  kept registry (done next) = next
  kept registry (refused error) = registry

  -- A call that throws leaves the registry as it is.
  unfoldable pub step :
      PluginRegistry Analyzer Exporter Filter → Call → PluginRegistry Analyzer Exporter Filter
  unfolding register set_enabled kept
  step registry (add plugin) = kept registry (register registry plugin)
  step registry (switch plugin_id enabled) = kept registry (set_enabled registry plugin_id enabled)

  unfoldable pub run :
      PluginRegistry Analyzer Exporter Filter → List Call → PluginRegistry Analyzer Exporter Filter
  unfolding step
  run registry [] = registry
  run registry (call ∷ calls) = run (step registry call) calls

  insert-IsRegistry :
      (registry : PluginRegistry Analyzer Exporter Filter) (plugin_id : Text) (enabled : Bool)
      → IsRegistry registry
      → is_some (get_plugin registry plugin_id) ≡ true
      → IsRegistry (record registry { enablement = insert plugin_id enabled registry.enablement })
  unfolding get_plugin
  insert-IsRegistry registry plugin_id enabled (d, v, k) h =
      (d, v, All-insert _ plugin_id enabled registry.enablement (λ b. h) k)

  and_then-done :
      (o : Outcome (PluginRegistry Analyzer Exporter Filter))
      (f : PluginRegistry Analyzer Exporter Filter
        → Outcome (PluginRegistry Analyzer Exporter Filter))
      (last : PluginRegistry Analyzer Exporter Filter)
      → and_then o f ≡ done last
      → (next : PluginRegistry Analyzer Exporter Filter) × (o ≡ done next) × (f next ≡ done last)
  and_then-done (refused error) f last h = cc
  and_then-done (done next) f last h = (next, refl, h)

  same_done :
      (registry next : PluginRegistry Analyzer Exporter Filter)
      → done registry ≡ done next
      → registry ≡ next
  same_done registry next h = ground arith

  kept-IsRegistry :
      (registry : PluginRegistry Analyzer Exporter Filter)
      (o : Outcome (PluginRegistry Analyzer Exporter Filter))
      → IsRegistry registry
      → ((next : PluginRegistry Analyzer Exporter Filter) → o ≡ done next → IsRegistry next)
      → IsRegistry (kept registry o)
  unfolding kept
  kept-IsRegistry registry (done next) h k = k next refl
  kept-IsRegistry registry (refused error) h k = h

  set_enabled-IsRegistry :
      (registry next : PluginRegistry Analyzer Exporter Filter) (plugin_id : Text) (enabled : Bool)
      → IsRegistry registry
      → set_enabled registry plugin_id enabled ≡ done next
      → IsRegistry next
  set_enabled-IsRegistry registry next plugin_id enabled h e =
      let (known, same) =
        set_enabled-done Analyzer Exporter Filter registry next plugin_id enabled e in
      subst IsRegistry same (insert-IsRegistry registry plugin_id enabled h known)

  step-IsRegistry :
      (registry : PluginRegistry Analyzer Exporter Filter) (call : Call)
      → IsRegistry registry
      → IsRegistry (step registry call)
  unfolding step
  step-IsRegistry registry (add plugin) h =
      kept-IsRegistry registry _ h (λ next e. register-IsRegistry registry next plugin h e)
  step-IsRegistry registry (switch plugin_id enabled) h =
      kept-IsRegistry registry _ h
        (λ next e. set_enabled-IsRegistry registry next plugin_id enabled h e)

  calls-IsRegistry :
      (registry : PluginRegistry Analyzer Exporter Filter) (calls : List Call)
      → IsRegistry registry
      → IsRegistry (run registry calls)
  unfolding run
  calls-IsRegistry registry [] h = h
  calls-IsRegistry registry (call ∷ calls) h =
      calls-IsRegistry (step registry call) calls (step-IsRegistry registry call h)

  register_all-IsRegistry :
      (registry next : PluginRegistry Analyzer Exporter Filter)
      (plugins : List (SocketLensPlugin Analyzer Exporter Filter))
      → IsRegistry registry
      → register_all registry plugins ≡ done next
      → IsRegistry next
  unfolding register_all
  register_all-IsRegistry registry next [] h e = subst IsRegistry (same_done registry next e) h
  register_all-IsRegistry registry next (plugin ∷ plugins) h e =
      let (middle, f, g) =
        and_then-done (register registry plugin) (λ r. register_all r plugins) next e in
      register_all-IsRegistry middle next plugins (register-IsRegistry registry middle plugin h f) g

  known_only :
      (b : Bool) (registry next : PluginRegistry Analyzer Exporter Filter)
      → IsRegistry registry
      → (b ≡ true → IsRegistry next)
      → IsRegistry (if b then next else registry)
  known_only true registry next h k = k refl
  known_only false registry next h k = h

  enable_known-IsRegistry :
      (entries : List (Text × Bool)) (registry : PluginRegistry Analyzer Exporter Filter)
      → IsRegistry registry
      → IsRegistry (enable_known registry entries)
  unfolding enable_known
  enable_known-IsRegistry [] registry h = h
  enable_known-IsRegistry ((plugin_id, enabled) ∷ rest) registry h =
      enable_known-IsRegistry rest _ (
        known_only (is_some (get_plugin registry plugin_id)) registry _ h
          (insert-IsRegistry registry plugin_id enabled h))

  -- A registry that the constructor makes, and every registry that registering and switching plugins
  -- leads to from it, keeps distinct ids and valid plugins, and switches none but its own plugins.
  pub run-IsRegistry :
      (plugins : List (SocketLensPlugin Analyzer Exporter Filter))
      (enabled_plugins : List (Text × Bool)) (registry : PluginRegistry Analyzer Exporter Filter)
      (calls : List Call)
      → create_registry plugins enabled_plugins ≡ done registry
      → IsRegistry (run registry calls)
  unfolding create_registry
  run-IsRegistry plugins enabled_plugins registry calls h =
      let (middle, f, g) =
        and_then-done (register_all initial plugins) (λ r. done (enable_known r enabled_plugins))
          registry h in
      calls-IsRegistry registry calls (
        subst IsRegistry (same_done _ _ g) (
          enable_known-IsRegistry enabled_plugins middle
            (register_all-IsRegistry initial middle plugins (tt, tt, tt) f)))
    where
      initial : PluginRegistry Analyzer Exporter Filter
      initial = record { enablement = []; plugins = [] }
