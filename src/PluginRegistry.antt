-- ===== src/PluginRegistry.antt =====
-- apps/desktop/src/extensions/plugin-registry.ts: the plugins, and which of them are enabled.
-- Analyzers, exporters and filters are only collected, so their types are parameters. A `Map` is a
-- list in the order of insertion. An error that is thrown is `refused`.
pub mod Enabling
pub mod Registered
use socketlens.Common.{
  [], ◌∷◌, ◌++◌, List, Option, none, some, Bool, true, false, not, Text, lit, text_eq, trim, truthy,
  filter, find, is_some, or_else, if◌then◌else◌,
}
use mathlib.Core.List.{flat_map}
use socketlens.PacketDecoder.{PacketDecoder, DecoderRegistry, create_decoder_registry}
use socketlens.PacketDecoder.Builtin.{fallback_packet_decoder}

pub data PluginError : Type 0 where
  already_registered unknown_plugin unsupported_source label_required : Text → PluginError
  id_required : PluginError

pub data Outcome {ℓ} (A : Type ℓ) : Type ℓ where
  done : A → Outcome A
  refused : PluginError → Outcome A

pub record SocketLensPlugin (Analyzer Exporter Filter : Type 0) : Type 0 where
  pub analyzers : Option (List Analyzer)
  pub decoders : Option (List PacketDecoder)
  pub exporters : Option (List Exporter)
  pub filters : Option (List Filter)
  pub description : Option Text
  pub enabled_by_default : Bool
  pub id : Text
  pub label : Text
  pub source : Text

pub record PluginRegistry (Analyzer Exporter Filter : Type 0) : Type 0 where
  pub enablement : List (Text × Bool)
  pub plugins : List (SocketLensPlugin Analyzer Exporter Filter)

-- `map.get(key)` and `map.set(key, value)`
unfoldable pub lookup : List (Text × Bool) → Text → Option Bool
unfolding text_eq
lookup [] key = none
lookup ((k, b) ∷ rest) key = if text_eq k key then some b else lookup rest key

unfoldable pub insert : Text → Bool → List (Text × Bool) → List (Text × Bool)
unfolding text_eq
insert key value [] = (key, value) ∷ []
insert key value ((k, b) ∷ rest) =
    if text_eq k key then (k, value) ∷ rest else (k, b) ∷ insert key value rest

-- What follows a call that may throw.
abbrev pub and_then {ℓ κ} : {A : Type ℓ} {B : Type κ} → Outcome A → (A → Outcome B) → Outcome B
and_then (refused error) f = refused error
and_then (done a) f = f a

-- `this.isEnabled(plugin.id)` for a plugin of the registry, which is never refused.
abbrev is_on : Outcome Bool → Bool
is_on (done enabled) = enabled
is_on (refused error) = false

module _ {Analyzer Exporter Filter : Type 0} where
  unfoldable pub validate_local_plugin :
      SocketLensPlugin Analyzer Exporter Filter → Option PluginError
  unfolding text_eq trim
  validate_local_plugin plugin =
      if not (text_eq plugin.source (lit "local"))
      then some (unsupported_source plugin.id)
      else if not (truthy (trim plugin.id))
      then some id_required
      else if not (truthy (trim plugin.label))
      then some (label_required plugin.id)
      else none

  unfoldable pub get_plugin :
      PluginRegistry Analyzer Exporter Filter
      → Text
      → Option (SocketLensPlugin Analyzer Exporter Filter)
  unfolding text_eq
  get_plugin registry plugin_id = find (λ plugin. text_eq plugin.id plugin_id) registry.plugins

  unfoldable pub get_required_plugin :
      PluginRegistry Analyzer Exporter Filter
      → Text
      → Outcome (SocketLensPlugin Analyzer Exporter Filter)
  unfolding get_plugin
  get_required_plugin registry plugin_id = elim (get_plugin registry plugin_id) [
    | none ↦ refused (unknown_plugin plugin_id)
    | some plugin ↦ done plugin
  ]

  unfoldable pub register :
      PluginRegistry Analyzer Exporter Filter
      → SocketLensPlugin Analyzer Exporter Filter
      → Outcome (PluginRegistry Analyzer Exporter Filter)
  unfolding validate_local_plugin get_plugin
  register registry plugin = elim (validate_local_plugin plugin) [
    | some error ↦ refused error
    | none ↦
        if is_some (get_plugin registry plugin.id)
        then refused (already_registered plugin.id)
        else done (record registry { plugins = registry.plugins ++ plugin ∷ [] })
  ]

  unfoldable pub set_enabled :
      PluginRegistry Analyzer Exporter Filter
      → Text
      → Bool
      → Outcome (PluginRegistry Analyzer Exporter Filter)
  unfolding get_required_plugin insert
  set_enabled registry plugin_id enabled = elim (get_required_plugin registry plugin_id) [
    | refused error ↦ refused error
    | done plugin ↦
        done (record registry { enablement = insert plugin_id enabled registry.enablement })
  ]

  unfoldable pub enable :
      PluginRegistry Analyzer Exporter Filter
      → Text
      → Outcome (PluginRegistry Analyzer Exporter Filter)
  unfolding set_enabled
  enable registry plugin_id = set_enabled registry plugin_id true

  unfoldable pub disable :
      PluginRegistry Analyzer Exporter Filter
      → Text
      → Outcome (PluginRegistry Analyzer Exporter Filter)
  unfolding set_enabled
  disable registry plugin_id = set_enabled registry plugin_id false

  unfoldable pub is_enabled : PluginRegistry Analyzer Exporter Filter → Text → Outcome Bool
  unfolding get_required_plugin lookup
  is_enabled registry plugin_id = elim (get_required_plugin registry plugin_id) [
    | refused error ↦ refused error
    | done plugin ↦ done (or_else (lookup registry.enablement plugin_id) plugin.enabled_by_default)
  ]

  register_all :
      PluginRegistry Analyzer Exporter Filter
      → List (SocketLensPlugin Analyzer Exporter Filter)
      → Outcome (PluginRegistry Analyzer Exporter Filter)
  unfolding register
  register_all registry [] = done registry
  register_all registry (plugin ∷ plugins) =
      and_then (register registry plugin) (λ next. register_all next plugins)

  enable_known :
      PluginRegistry Analyzer Exporter Filter
      → List (Text × Bool)
      → PluginRegistry Analyzer Exporter Filter
  unfolding get_plugin insert
  enable_known registry [] = registry
  enable_known registry ((plugin_id, enabled) ∷ rest) =
      enable_known
        (if is_some (get_plugin registry plugin_id)
          then record registry { enablement = insert plugin_id enabled registry.enablement }
          else registry)
        rest

  -- The constructor, with the entries of `options.enabledPlugins`.
  unfoldable pub create_registry :
      List (SocketLensPlugin Analyzer Exporter Filter)
      → List (Text × Bool)
      → Outcome (PluginRegistry Analyzer Exporter Filter)
  unfolding register_all enable_known
  create_registry plugins enabled_plugins =
      and_then (register_all (record { enablement = []; plugins = [] }) plugins)
        (λ registry. done (enable_known registry enabled_plugins))

  unfoldable pub get_enabled_plugins :
      PluginRegistry Analyzer Exporter Filter → List (SocketLensPlugin Analyzer Exporter Filter)
  unfolding is_enabled
  get_enabled_plugins registry =
      filter (λ plugin. is_on (is_enabled registry plugin.id)) registry.plugins

  unfoldable pub get_analyzers : PluginRegistry Analyzer Exporter Filter → List Analyzer
  unfolding get_enabled_plugins flat_map
  get_analyzers registry =
      flat_map (λ plugin. or_else plugin.analyzers []) (get_enabled_plugins registry)

  unfoldable pub get_decoders : PluginRegistry Analyzer Exporter Filter → List PacketDecoder
  unfolding get_enabled_plugins flat_map
  get_decoders registry =
      flat_map (λ plugin. or_else plugin.decoders []) (get_enabled_plugins registry)

  unfoldable pub get_decoder_registry : PluginRegistry Analyzer Exporter Filter → DecoderRegistry
  unfolding get_decoders create_decoder_registry
  get_decoder_registry registry =
      create_decoder_registry (get_decoders registry) fallback_packet_decoder

  unfoldable pub get_exporters : PluginRegistry Analyzer Exporter Filter → List Exporter
  unfolding get_enabled_plugins flat_map
  get_exporters registry =
      flat_map (λ plugin. or_else plugin.exporters []) (get_enabled_plugins registry)

  unfoldable pub get_filters : PluginRegistry Analyzer Exporter Filter → List Filter
  unfolding get_enabled_plugins flat_map
  get_filters registry =
      flat_map (λ plugin. or_else plugin.filters []) (get_enabled_plugins registry)
