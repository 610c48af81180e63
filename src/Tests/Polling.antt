-- ===== src/Tests/Polling.antt =====
-- The theorem on the polling applied to a world that is its clock.
use safecache.Base.{ℕ, suc, ◌+◌, ◌≡◌, refl, arith, false, none, [], ◌∷◌}
use safecache.Text.{codes}
use safecache.Result.{ok, throw}
use safecache.Tests.Sample.{breaker, down, utf8, options}
use safecache.Cache.Epochs.{no_epochs}
use safecache.Cache.Types.{rejected, CacheEntry, CacheState, Env, QueryOptions, unversioned}
use safecache.Cache.Exec.{◌>>=◌}
use safecache.Cache.Fetch.{resolve_lock_ttl, wall_now, poll_peer, wait_for_peer_refresh}
use safecache.Cache.Polling.{IsTicking, wait_ends_at_deadline}

-- Every call of the provider takes a millisecond, and it holds nothing.
abbrev clock_env : Env ℕ (CacheEntry ℕ) ℕ
clock_env = record {
  clock = λ w. (w, w);
  date_now = λ w. (w, w);
  delay = λ ms w. w + ms;
  provider_get = λ p key w. (ok none, w + 1);
  provider_set = λ p key raw ttl w. (ok tt, w + 1);
  provider_delete = λ p key w. (ok tt, w + 1);
  get_keys_by_tag = λ index scope tag w. (ok [], w);
  add_tags = λ index scope key tags ttl w. (ok tt, w);
  remove_key = λ index scope key w. (ok tt, w);
  remove_tag = λ index scope tag w. (ok tt, w);
  timer_wins = λ ms w. false;
  acquire = λ key ttl w. (ok none, w);
  release = λ lock w. (ok tt, w);
  joined = λ key w. (throw down, w);
  publish = λ event w. (throw down, w);
  serialize = λ entry. ok entry;
  deserialize = λ raw. ok raw;
  number_text = λ n. n ∷ [];
  locale_precedes = λ s t. false;
  hmac = λ secret fields. codes "ab";
  bytes = utf8;
  meanwhile = λ s. s;
}

abbrev at_midnight : CacheState ℕ ℕ
at_midnight = record {
  world = 0;
  epochs = no_epochs;
  stats = record {
    hits = 0;
    misses = 0;
    errors = 0;
    invalidations = 0;
    stale_served = 0;
    refreshes = 0;
  };
  breaker = breaker;
  seen_event_ids = [];
  event_counter = 0;
  in_flight = [];
  background = [];
  emitted = [];
}

abbrev asked : QueryOptions ℕ ℕ
asked = record {
  key = codes "user:1";
  tags = none;
  tenant = none;
  ttl = none;
  fetcher = λ w. (throw (rejected (codes "database")), w);
  stale_while_revalidate = none;
  refresh_ahead = none;
  timeout = none;
  lock = none;
  cache_null = false;
  version = unversioned;
}

clock_env-IsTicking : IsTicking clock_env (λ w. w)
clock_env-IsTicking = record {
  shown = λ w. refl;
  shows = λ w. omega arith;
  measures = λ w. omega arith;
  reads = λ p key w. omega arith;
  waits = λ w. omega arith;
  others = λ s. omega arith;
}

wait_ends_at_deadline_example :
    wait_for_peer_refresh clock_env options asked (codes "app:user%3A1") at_midnight
    ≡ (do
      start ← wall_now clock_env options
      lock_ttl ← resolve_lock_ttl options
      poll_peer clock_env options
          (suc (lock_ttl + 1000))
          (start + lock_ttl)
          asked
          (codes "app:user%3A1"))
        at_midnight
wait_ends_at_deadline_example =
    wait_ends_at_deadline clock_env (λ w. w) clock_env-IsTicking options asked
      (codes "app:user%3A1") 1000 at_midnight
