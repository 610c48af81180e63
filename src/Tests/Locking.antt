-- ===== src/Tests/Locking.antt =====
-- A server of one lock, and the theorem on locks applied to it.
use safecache.Base.{ℕ, true, Option, none, some, [], ◌∷◌, nat_has_eq, if◌then◌else◌}
use safecache.Text.{Text, codes}
use safecache.JsSet
use safecache.Result.{ok}
use safecache.Locks.{RedisLockClient}
use safecache.Locks.Users.{is_free, Users}

abbrev one_lock : RedisLockClient (Option Text)
one_lock = record {
  set = λ key token ttl_ms w. (ok (is_free w), if is_free w then some token else w);
  get = λ key w. (ok w, w);
  del = λ key w. (ok (if is_free w then 0 else 1), none);
  pexpire = λ key ttl_ms w. (ok (if is_free w then 0 else 1), w);
  has_eval = true;
}

abbrev stored : Option Text → Option Text
stored w = w

abbrev locks : Text
locks = codes "locks"

abbrev user : Text
user = codes "user"

abbrev token : ℕ → Text
token i = i ∷ []

-- The first acquisition's lease has run out, and the second one holds the lock.
abbrev second_holds : Users (Option Text)
second_holds = record { world = some (token 1); next = 2; active = 1 ∷ [] }
