-- ===== src/Locks/Exclusion.antt =====
-- Any number of acquisitions of one lock of packages/locks/src/index.ts, in any order.
use safecache.Base.{nat_has_eq}
use safecache.Text.{Text}
use safecache.JsSet
use safecache.Locks.Users.{Users}
