-- ===== src/Tests/Mutating.antt =====
-- The theorem on the mutations of Prisma applied to a concrete one.
use safecache.Base.{ℕ, none, false, [], ◌+◌, if◌then◌else◌}
use safecache.Text.{Text, codes, text_eq, text_has_eq}
use safecache.JsSet
use safecache.Result.{Result, ok, throw}
use safecache.Cache.Types.{Error}
use safecache.Tests.Sample.{down}
use safecache.Prisma.Ids.{Value, missing, string, number, object, PrismaTagOptions}
use safecache.Prisma.Sync.{PrismaEnv, PrismaState}

-- a cache that is down
abbrev prisma : PrismaEnv ℕ
prisma = record { invalidate_by_tag = λ tag w. (throw down, w + 1); number_text = λ n. codes "7" }

abbrev defaults : PrismaTagOptions
defaults = record {
  model_tag = none;
  entity_tag = none;
  id_field = none;
  id_extractor = none;
  propagate_invalidation_errors = false;
}

abbrev before : PrismaState ℕ
before = record { world = 0; attempted = []; failures = []; unmappable = [] }

-- `{ where: { id: 7 } }`
abbrev where_id : Value
where_id =
    object (λ name. if text_eq name (codes "where") then object (λ field. number 7) else missing)

abbrev updated : ℕ → Result Error Value × ℕ
updated w = (ok (string (codes "done")), w + 1)
