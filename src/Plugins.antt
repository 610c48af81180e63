-- ===== src/Plugins.antt =====
-- packages/core/src/plugin.ts: the registry of plugins. A setup that throws and one whose promise is
-- rejected end in the same report.
pub mod Closing
use safecache.Base.{
  Bool, true, false, Option, none, some, List, [], ◌∷◌, ◌++◌, map, reverse, if◌then◌else◌,
}
use safecache.Text.{Text, codes, text_has_eq}
use safecache.JsSet
use safecache.Result.{Result, ok, throw}
use safecache.Cache.Types.{Error}

pub record CachePlugin (World : Type 0) : Type 0 where
  pub name : Text
  pub setup : World → Result Error (Unit {0}) × World
  pub shutdown : Option (World → Result Error (Unit {0}) × World)

-- The plugins in the order of their registration, which have different names. `closed` are the
-- plugins that the shutdown has reached and `emitted` the error events, the last one first.
pub record PluginRegistry (World : Type 0) : Type 0 where
  pub world : World
  pub plugins : List (CachePlugin World)
  pub shutdown_complete : Bool
  pub closed : List (CachePlugin World)
  pub emitted : List (Text × Error)

module _ {World : Type 0} where
  abbrev pub name_of : CachePlugin World → Text
  name_of plugin = plugin.name

  -- an error is emitted under the operation
  unfoldable pub settle :
      Text → Result Error (Unit {0}) → PluginRegistry World → PluginRegistry World
  settle operation (ok _) s = s
  settle operation (throw e) s = record s { emitted = (operation, e) ∷ s.emitted }

  unfoldable pub register : CachePlugin World → PluginRegistry World → PluginRegistry World
  register plugin s =
      let (r, w) = plugin.setup s.world in
      settle (codes "plugin:" ++ (plugin.name ++ codes ":setup")) r
        (record s { plugins = s.plugins ++ (plugin ∷ []); world = w })

  unfoldable pub use_plugin : CachePlugin World → PluginRegistry World → PluginRegistry World
  use_plugin plugin s =
      if JsSet.has (map name_of s.plugins) plugin.name then s else register plugin s

  unfoldable pub run_shutdown :
      Option (World → Result Error (Unit {0}) × World) → World → Result Error (Unit {0}) × World
  run_shutdown none w = (ok tt, w)
  run_shutdown (some shutdown) w = shutdown w

  unfoldable pub close : CachePlugin World → PluginRegistry World → PluginRegistry World
  close plugin s =
      let (r, w) = run_shutdown plugin.shutdown s.world in
      settle (codes "plugin:" ++ (plugin.name ++ codes ":shutdown")) r
        (record s { closed = plugin ∷ s.closed; world = w })

  unfoldable pub close_each : List (CachePlugin World) → PluginRegistry World → PluginRegistry World
  close_each [] s = s
  close_each (plugin ∷ plugins) s = close_each plugins (close plugin s)

  unfoldable pub shutdown : PluginRegistry World → PluginRegistry World
  shutdown s =
      if s.shutdown_complete
      then s
      else close_each (reverse s.plugins) (record s { shutdown_complete = true })
