-- ===== src/Tests/Sample.antt =====
-- A cache of one layer over a map of entries, and what the tests run it on.
use safecache.Base.{ℕ, ltb, if◌then◌else◌, true, false, none, some, List, [], ◌∷◌}
use safecache.Text.{Text, codes, text_has_eq}
use safecache.JsMap
use safecache.JsMap.{JsMap}
use safecache.Result.{ok, throw}
use safecache.Duration.{text, number, nat}
use safecache.CircuitBreaker.{CircuitBreaker}
use safecache.Cache.Epochs.{no_epochs, bump_epoch}
use safecache.Cache.Types.{
  Error, rejected, value, CacheEntry, CacheEvent, invalidate_key, CacheLayer, CacheOptions,
  CacheState, Env, QueryOptions, unversioned,
}

-- the provider's entries
abbrev pub Store : Type 0
Store = JsMap Text (CacheEntry ℕ)

abbrev pub breaker : CircuitBreaker
breaker = record {
  failures = 0;
  first_failure_at = 0;
  opened_until = 0;
  probing = false;
  enabled = true;
  failure_threshold = 3;
  reset_after_ms = 100;
}

abbrev pub start : CacheState Store ℕ
start = record {
  world = [];
  epochs = no_epochs;
  stats = record {
    hits = 0;
    misses = 0;
    errors = 0;
    invalidations = 0;
    stale_served = 0;
    refreshes = 0;
  };
  breaker = breaker;
  seen_event_ids = [];
  event_counter = 0;
  in_flight = [];
  background = [];
  emitted = [];
}

abbrev pub down : Error
down = rejected (codes "down")

abbrev pub user : Text
user = codes "app:user%3A1"

-- A character above ASCII takes two bytes.
abbrev pub utf8 : Text → List ℕ
utf8 [] = []
utf8 (c ∷ s) = if ltb c 128 then c ∷ utf8 s else c ∷ 0 ∷ utf8 s

-- The surroundings: a provider that works, while another task invalidates the key at each await.
abbrev pub env : Env Store (CacheEntry ℕ) ℕ
env = record {
  clock = λ w. (1000, w);
  date_now = λ w. (1000, w);
  delay = λ ms w. w;
  provider_get = λ p key w. (ok (JsMap.get w key), w);
  provider_set = λ p key raw ttl w. (ok tt, JsMap.set w key raw);
  provider_delete = λ p key w. (ok tt, JsMap.delete w key);
  get_keys_by_tag = λ index scope tag w. (ok [], w);
  add_tags = λ index scope key tags ttl w. (ok tt, w);
  remove_key = λ index scope key w. (ok tt, w);
  remove_tag = λ index scope tag w. (ok tt, w);
  timer_wins = λ ms w. false;
  acquire = λ key ttl w. (ok none, w);
  release = λ lock w. (ok tt, w);
  joined = λ key w. (throw down, w);
  publish = λ event w. (throw down, w);
  serialize = λ entry. ok entry;
  deserialize = λ raw. ok raw;
  number_text = λ n. n ∷ [];
  locale_precedes = λ s t. false;
  hmac = λ secret fields. codes "ab";
  bytes = utf8;
  meanwhile =
      λ s. record s { world = JsMap.delete s.world user; epochs = bump_epoch 5000 user s.epochs };
}

-- The same, with a provider and a fetcher that reject.
abbrev pub failing_env : Env Store (CacheEntry ℕ) ℕ
failing_env = record env { provider_get = λ p key w. (throw down, w); meanwhile = λ s. s }

abbrev pub layer : CacheLayer
layer = record { provider = 0; name = codes "memory"; tag_index = some 0 }

abbrev pub options : CacheOptions
options = record {
  namespace = codes "app";
  layers = layer ∷ [];
  default_ttl = some (text (codes "5m"));
  fail_open = none;
  timeout = some (number (nat 50));
  prevent_stampede = none;
  stale_while_revalidate = none;
  refresh_ahead = none;
  lock_ttl = none;
  has_lock = false;
  has_events = true;
  signing_secret = some (codes "secret");
  consistency = none;
  source = codes "node-a";
}

abbrev pub question : QueryOptions Store ℕ
question = record {
  key = codes "user:1";
  tags = none;
  tenant = none;
  ttl = none;
  fetcher = λ w. (throw (rejected (codes "database")), w);
  stale_while_revalidate = none;
  refresh_ahead = none;
  timeout = none;
  lock = none;
  cache_null = false;
  version = unversioned;
}

abbrev pub entry : CacheEntry ℕ
entry = record {
  content = value 7;
  tags = [];
  created_at = 1000;
  expires_at = 2000;
  stale_until = none;
  version = none;
}

-- An invalidation from another node, with this signature.
abbrev pub event_signed : Text → CacheEvent
event_signed signature = record {
  id = codes "e1";
  kind = invalidate_key;
  source = codes "node-b";
  timestamp = 1;
  namespace = codes "app";
  tenant = none;
  key = some (codes "user:1");
  tag = none;
  actor = none;
  others = (codes "zone", codes "z") ∷ [];
  reason = none;
  region = none;
  signature = some signature;
}
