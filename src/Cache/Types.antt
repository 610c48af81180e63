-- ===== src/Cache/Types.antt =====
-- The data of packages/core/src/types.ts that the cache works on, its options and its state.
-- Durations, times, versions and counters are natural numbers.
use safecache.Base.{ℕ, Bool, Option, List}
use safecache.Text.{Text}
use safecache.JsMap.{JsMap}
use safecache.Result.{Result}
use safecache.Duration.{DurationInput, DurationError}
use safecache.CircuitBreaker.{CircuitBreaker}
use safecache.Cache.Epochs.{Epochs}

-- What is thrown: the errors that cache.ts makes, or what a call outside the cache rejects with.
pub data Error : Type 0 where
  duration : DurationError → Error
  timed_out : ℕ → Error
  missing_ttl no_layers lock_lost malformed_signature invalid_signature : Error
  unequal_buffers : Error
  rejected : Text → Error

-- What a fetcher resolves to.
pub data Fetched (V : Type 0) : Type 0 where
  undefined null : Fetched V
  value : V → Fetched V

pub data CacheVersion : Type 0 where
  num : ℕ → CacheVersion
  str : Text → CacheVersion

pub record CacheEntry (V : Type 0) : Type 0 where
  pub content : Fetched V
  pub tags : List Text
  pub created_at : ℕ
  pub expires_at : ℕ
  pub stale_until : Option ℕ
  pub version : Option CacheVersion

pub data EventType : Type 0 where
  invalidate_key invalidate_tag refresh_key : EventType

-- `others` are own keys that the type does not declare, with what they hold.
pub record CacheEvent : Type 0 where
  pub id : Text
  pub kind : EventType
  pub source : Text
  pub timestamp : ℕ
  pub namespace : Text
  pub tenant : Option Text
  pub key : Option Text
  pub tag : Option Text
  pub actor : Option Text
  pub reason : Option Text
  pub region : Option Text
  pub signature : Option Text
  pub others : List (Text × Text)

pub data ProviderOp : Type 0 where
  get set delete : ProviderOp

-- The operations that an error event names.
pub data Operation : Type 0 where
  on_get on_set on_delete on_deserialize on_serialize on_refresh on_lock on_release : Operation
  on_tag_index on_add_tags on_remove_key on_remove_tag on_publish on_signature : Operation

pub data RuntimeEvent : Type 0 where
  hit miss stale refresh : Text → Option Text → RuntimeEvent
  invalidated : Option Text → Option Text → Option Text → RuntimeEvent
  failed : Operation → Error → Option Text → Option Text → RuntimeEvent
  provider_latency : Text → ProviderOp → ℕ → Text → Option Text → RuntimeEvent
  lock_wait : Text → ℕ → Option Text → RuntimeEvent

-- A provider and a tag index of the surroundings, by number.
pub record CacheLayer : Type 0 where
  pub provider : ℕ
  pub name : Text
  pub tag_index : Option ℕ

pub data ConsistencyLevel : Type 0 where
  performance balanced strict : ConsistencyLevel

-- The options that the running cache reads; an absent option is `none`.
pub record CacheOptions : Type 0 where
  pub namespace : Text
  pub layers : List CacheLayer
  pub default_ttl : Option DurationInput
  pub fail_open : Option Bool
  pub timeout : Option DurationInput
  pub prevent_stampede : Option Bool
  pub stale_while_revalidate : Option Bool
  pub refresh_ahead : Option Bool
  pub lock_ttl : Option DurationInput
  pub has_lock : Bool
  pub has_events : Bool
  pub signing_secret : Option Text
  pub consistency : Option ConsistencyLevel
  pub source : Text

-- `boolean | DurationInput`
pub data Switch : Type 0 where
  flag : Bool → Switch
  window : DurationInput → Switch

pub data VersionSource (World V : Type 0) : Type 0 where
  unversioned : VersionSource World V
  fixed : CacheVersion → VersionSource World V
  computed : (Fetched V → World → Result Error CacheVersion × World) → VersionSource World V

pub record CacheStats : Type 0 where
  pub hits : ℕ
  pub misses : ℕ
  pub errors : ℕ
  pub invalidations : ℕ
  pub stale_served : ℕ
  pub refreshes : ℕ

-- `QueryOptions`; the fetcher runs in the surroundings.
pub record QueryOptions (World V : Type 0) : Type 0 where
  pub key : Text
  pub tags : Option (List Text)
  pub tenant : Option Text
  pub ttl : Option DurationInput
  pub fetcher : World → Result Error (Fetched V) × World
  pub stale_while_revalidate : Option Switch
  pub refresh_ahead : Option Switch
  pub timeout : Option DurationInput
  pub lock : Option Bool
  pub cache_null : Bool
  pub version : VersionSource World V

-- A background refresh that was started and has not run yet.
pub record RefreshJob (World V : Type 0) : Type 0 where
  pub query : QueryOptions World V
  pub scoped_key : Text
  pub ttl_ms : ℕ

-- The fields of `SafeCache` that change, the runtime events that were emitted (latest first),
-- and the surroundings.
pub record CacheState (World V : Type 0) : Type 0 where
  pub world : World
  pub epochs : Epochs
  pub stats : CacheStats
  pub breaker : CircuitBreaker
  pub seen_event_ids : List Text
  pub event_counter : ℕ
  pub in_flight : List Text
  pub background : JsMap Text (RefreshJob World V)
  pub emitted : List RuntimeEvent

-- What the cache calls and does not implement: providers, tag indexes, the lock, the bus, the
-- serializer, the clock, HMAC, JSON and `Buffer.from`. Each call takes effect in the world and resolves or
-- rejects. `meanwhile` is what other tasks of the process do to the cache while a call is
-- awaited: it is any function of the state.
pub record Env (World Raw V : Type 0) : Type 0 where
  pub clock : World → ℕ × World
  pub date_now : World → ℕ × World
  pub delay : ℕ → World → World
  pub provider_get : ℕ → Text → World → Result Error (Option Raw) × World
  pub provider_set : ℕ → Text → Raw → ℕ → World → Result Error (Unit {0}) × World
  pub provider_delete : ℕ → Text → World → Result Error (Unit {0}) × World
  pub get_keys_by_tag : ℕ → Text → Text → World → Result Error (List Text) × World
  pub add_tags : ℕ → Text → Text → List Text → ℕ → World → Result Error (Unit {0}) × World
  pub remove_key : ℕ → Text → Text → World → Result Error (Unit {0}) × World
  pub remove_tag : ℕ → Text → Text → World → Result Error (Unit {0}) × World
  pub timer_wins : ℕ → World → Bool
  pub acquire : Text → ℕ → World → Result Error (Option ℕ) × World
  pub release : ℕ → World → Result Error (Unit {0}) × World
  pub joined : Text → World → Result Error (Fetched V) × World
  pub publish : CacheEvent → World → Result Error (Unit {0}) × World
  pub serialize : CacheEntry V → Result Error Raw
  pub deserialize : Raw → Result Error (CacheEntry V)
  pub number_text : ℕ → Text
  pub locale_precedes : Text → Text → Bool
  pub hmac : Text → List (Text × Text) → Text
  pub bytes : Text → List ℕ
  pub meanwhile : CacheState World V → CacheState World V
