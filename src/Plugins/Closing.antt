-- ===== src/Plugins/Closing.antt =====
-- The shutdown of packages/core/src/plugin.ts.
use safecache.Base.{false, List, [], ◌∷◌, ◌++◌, map, if◌then◌else◌}
use safecache.Text.{Text, text_has_eq}
use safecache.JsSet
use safecache.Result.{Result}
use safecache.Plugins.{CachePlugin, PluginRegistry, name_of, use_plugin}

module _ {World : Type 0} where
  -- a registry of a new cache
  abbrev pub fresh : World → PluginRegistry World
  fresh w = record { world = w; plugins = []; shutdown_complete = false; closed = []; emitted = [] }

  unfoldable pub use_all : List (CachePlugin World) → PluginRegistry World → PluginRegistry World
  use_all [] s = s
  use_all (plugin ∷ plugins) s = use_all plugins (use_plugin plugin s)

  abbrev names : List (CachePlugin World) → List Text
  names plugins = map name_of plugins

  -- the plugins whose name no earlier plugin has, and none of these names
  unfoldable pub first_named : List Text → List (CachePlugin World) → List (CachePlugin World)
  first_named taken [] = []
  first_named taken (plugin ∷ plugins) =
      if JsSet.has taken plugin.name
      then first_named taken plugins
      else plugin ∷ first_named (taken ++ (plugin.name ∷ [])) plugins
