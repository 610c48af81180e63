-- ===== src/Cache/Setup.antt =====
-- What packages/core/src/cache.ts makes of its options, and what it reports: `normalizeLayers`,
-- `wrap` and `stats`.
use safecache.Base.{ℕ, Bool, Option, none, some, List, [], ◌∷◌, map}
use safecache.Text.{Text}
use safecache.Result.{Result, ok, throw}
use safecache.Cache.Types.{
  Error, no_layers, CacheLayer, CacheOptions, CacheState, CacheStats, Env, Fetched, QueryOptions,
}
use safecache.Cache.Exec.{Exec, pure, gets, ◌>>=◌}
use safecache.Cache.Calls.{breaker_open}
use safecache.Cache.Guarded.{either}
use safecache.Cache.Query.{query}

-- A provider of the surroundings, with the tag index it brings, if any.
pub record CacheProvider : Type 0 where
  pub provider : ℕ
  pub name : Text
  pub tag_index : Option ℕ

-- `CacheProvider | CacheLayer`
pub data Configured : Type 0 where
  bare : CacheProvider → Configured
  layered : CacheProvider → Option ℕ → Configured

unfoldable pub to_layer : Configured → CacheLayer
to_layer (bare p) = record { provider = p.provider; name = p.name; tag_index = p.tag_index }
to_layer (layered p tag_index) = record {
  provider = p.provider;
  name = p.name;
  tag_index = either tag_index p.tag_index;
}

-- `options.layers ?? (options.provider ? [options.provider] : [])`
unfoldable pub configured_layers : Option (List Configured) → Option CacheProvider → List Configured
configured_layers (some layers) provider = layers
configured_layers none (some p) = bare p ∷ []
configured_layers none none = []

unfoldable pub to_layers : List Configured → Result Error (List CacheLayer)
to_layers [] = throw no_layers
to_layers (c ∷ cs) = ok (to_layer c ∷ map to_layer cs)

unfoldable pub normalize_layers :
    Option (List Configured) → Option CacheProvider → Result Error (List CacheLayer)
normalize_layers layers provider = to_layers (configured_layers layers provider)

module _ {World Raw V : Type 0} (env : Env World Raw V) (options : CacheOptions) where
  unfoldable pub wrap :
      Text
      → (World → Result Error (Fetched V) × World)
      → QueryOptions World V
      → Exec (CacheState World V) (Fetched V)
  wrap key fetcher q = query env options (record q { key = key; fetcher = fetcher })

  -- the counters, and whether the breaker is open
  unfoldable pub stats : Exec (CacheState World V) (CacheStats × Bool)
  stats = do counters ← gets (λ s. s.stats); is_open ← breaker_open env; pure (counters, is_open)
