-- ===== src/PluginRegistry/Enabling.antt =====
-- What stays true of the registry of apps/desktop/src/extensions/plugin-registry.ts, and what
-- enabling a plugin does.
use socketlens.Common.{
  ◌≡◌, refl, subst, [], ◌∷◌, List, some, Bool, true, arith, Text, text_eq, text_eq_iff, is_some,
  if◌then◌else◌,
}
use socketlens.PluginRegistry.{
  Outcome, done, PluginRegistry, lookup, insert, get_plugin, get_required_plugin, set_enabled,
  is_enabled,
}

lookup-insert :
    (key other : Text) (value : Bool) (m : List (Text × Bool))
    → lookup (insert key value m) other ≡ (if text_eq key other then some value else lookup m other)
unfolding lookup insert
lookup-insert key other value [] = refl
lookup-insert key other value ((k, b) ∷ rest) = ground (
  arith,
  text_eq_iff k key,
  text_eq_iff k other,
  text_eq_iff key other,
  lookup-insert key other value rest,
)

module _ (Analyzer Exporter Filter : Type 0) where
  -- What `isEnabled` says after a plugin has been switched.
  abbrev pub switched : PluginRegistry Analyzer Exporter Filter → Text → Bool → Text → Outcome Bool
  switched registry plugin_id enabled other =
      if text_eq plugin_id other then done enabled else is_enabled registry other

  pub set_enabled-done :
      (registry next : PluginRegistry Analyzer Exporter Filter) (plugin_id : Text) (enabled : Bool)
      → set_enabled registry plugin_id enabled ≡ done next
      → (is_some (get_plugin registry plugin_id) ≡ true)
        × (record registry { enablement = insert plugin_id enabled registry.enablement } ≡ next)
  unfolding set_enabled get_required_plugin
  set_enabled-done registry next plugin_id enabled h = ground arith

  answers :
      (registry : PluginRegistry Analyzer Exporter Filter) (plugin_id other : Text) (enabled : Bool)
      → is_some (get_plugin registry plugin_id) ≡ true
      → is_enabled
          (record registry { enablement = insert plugin_id enabled registry.enablement })
          other
        ≡ switched registry plugin_id enabled other
  unfolding is_enabled get_required_plugin get_plugin
  answers registry plugin_id other enabled h = ground (
    arith,
    lookup-insert plugin_id other enabled registry.enablement,
    text_eq_iff plugin_id other,
  )

  -- After a plugin has been switched on or off, it is enabled or not as asked, and every other
  -- id answers as before.
  pub is_enabled-set_enabled :
      (registry next : PluginRegistry Analyzer Exporter Filter) (plugin_id other : Text)
      (enabled : Bool)
      → set_enabled registry plugin_id enabled ≡ done next
      → is_enabled next other ≡ switched registry plugin_id enabled other
  unfolding set_enabled is_enabled get_required_plugin
  is_enabled-set_enabled registry next plugin_id other enabled h =
      subst (λ r. is_enabled r other ≡ switched registry plugin_id enabled other)
        (set_enabled-done registry next plugin_id enabled h).1
        (answers registry plugin_id other enabled
          (set_enabled-done registry next plugin_id enabled h).0)
