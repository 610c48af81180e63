-- ===== src/Tests/Closing.antt =====
-- The theorem on plugins applied to two plugins of one name and a third.
use safecache.Base.{ℕ, ◌+◌, none, some, List, [], ◌∷◌}
use safecache.Text.{codes}
use safecache.Result.{ok, throw}
use safecache.Tests.Sample.{down}
use safecache.Plugins.{CachePlugin, shutdown}

abbrev broken : CachePlugin ℕ
broken = record {
  name = codes "metrics";
  setup = λ w. (throw down, w + 1);
  shutdown = some (λ w. (throw down, w + 1));
}

abbrev silent : CachePlugin ℕ
silent = record { name = codes "outbox"; setup = λ w. (ok tt, w); shutdown = none }

abbrev plugins : List (CachePlugin ℕ)
plugins = broken ∷ silent ∷ broken ∷ []
