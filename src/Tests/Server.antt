-- ===== src/Tests/Server.antt =====
-- A server of sets, and the theorems on the tag indexes applied to it.
use safecache.Base.{
  All, ◌≡◌, refl, fun_ext, not, ◌&&◌, ◌||◌, none, some, List, [], ◌∷◌, arith, subst,
}
use safecache.Text.{Text, codes, text_eq, text_has_eq}
use safecache.JsMap
use safecache.JsMap.{JsMap}
use safecache.JsSet
use safecache.Result.{ok}
use safecache.Tests.Sample.{down}
use safecache.Cache.Exec.{Exec, pure, raise, gets, modify, ◌>>◌}
use safecache.TagIndex.{or_empty, add_under, delete_under, no_tags}
use safecache.TagIndex.Lookups.{holds, holds-add_under, holds-delete_under, holds-delete}
use safecache.TagIndex.Relation.{
  Change, add, drop_key, drop_tag, Represents, change_all, change_index_all, untagged,
  index_refines_tagging,
}
use safecache.Redis.{
  Command, queue_s_add, queue_s_rem, queue_expire, queue_del, RedisProviderClient, tag_key,
  key_tags_key,
}
use safecache.Redis.Steps.{step, steps, Accepted, Turns, IsServer, Turns-pure, Turns-then}
use safecache.Redis.Agreement
use safecache.Redis.Agreement.{IsApart}
use safecache.Redis.Refinement.{change_server_all, redis_refines_tagging}

abbrev Held : Type 0
Held = JsMap Text (List Text)

add_members : Text → List Text → Held → Held
add_members at [] held = held
add_members at (m ∷ ms) held = add_members at ms (add_under held at m)

remove_members : Text → List Text → Held → Held
remove_members at [] held = held
remove_members at (m ∷ ms) held = remove_members at ms (delete_under held at m)

carry_out : Command → Held → Held
carry_out (queue_s_add at members) held = add_members at members held
carry_out (queue_s_rem at members) held = remove_members at members held
carry_out (queue_expire at seconds) held = held
carry_out (queue_del at) held = JsMap.delete held at

-- a command without members is refused, as in Redis
command : Command → Exec Held (Unit {0})
command (queue_s_add at []) = raise down
command (queue_s_rem at []) = raise down
command (queue_s_add at (m ∷ ms)) = modify (carry_out (queue_s_add at (m ∷ ms)))
command (queue_s_rem at (m ∷ ms)) = modify (carry_out (queue_s_rem at (m ∷ ms)))
command (queue_expire at seconds) = modify (carry_out (queue_expire at seconds))
command (queue_del at) = modify (carry_out (queue_del at))

execute_all : List Command → Exec Held (Unit {0})
execute_all [] = pure tt
execute_all (c ∷ cs) = do command c; execute_all cs

abbrev server : RedisProviderClient Held Text
server = record {
  get = λ key. pure none;
  set = λ key value ttl. pure tt;
  del = λ at. command (queue_del at);
  s_add = λ at members. command (queue_s_add at members);
  s_members = λ at. gets (λ held. or_empty (JsMap.get held at));
  s_rem = λ at members. command (queue_s_rem at members);
  expire = λ at seconds. command (queue_expire at seconds);
  exec = some execute_all;
  ping = none;
}

holds-add_members :
    (at : Text) (ms : List Text) (held : Held) (k e : Text)
    → holds (add_members at ms held) k e ≡ (holds held k e || (text_eq at k && JsSet.has ms e))
unfolding add_members JsSet.has
holds-add_members at [] held k e = ground arith
holds-add_members at (m ∷ ms) held k e =
    ground (arith, holds-add_members at ms (add_under held at m) k e, holds-add_under held at m k e)

holds-remove_members :
    (at : Text) (ms : List Text) (held : Held) (k e : Text)
    → holds (remove_members at ms held) k e
      ≡ (holds held k e && not (text_eq at k && JsSet.has ms e))
unfolding remove_members JsSet.has
holds-remove_members at [] held k e = ground arith
holds-remove_members at (m ∷ ms) held k e = ground (
  arith,
  holds-remove_members at ms (delete_under held at m) k e,
  holds-delete_under held at m k e,
)

carried_out :
    (c : Command) (held : Held) (k e : Text)
    → holds (carry_out c held) k e ≡ step c (holds held) k e
unfolding carry_out step
carried_out (queue_s_add at members) held k e = holds-add_members at members held k e
carried_out (queue_s_rem at members) held k e = holds-remove_members at members held k e
carried_out (queue_expire at seconds) held k e = refl
carried_out (queue_del at) held k e = ground (arith, holds-delete held at k e)

carried-Turns : (c : Command) → Turns holds (step c) (modify (carry_out c))
unfolding modify
carried-Turns c = record {
  resolves = λ held. refl;
  changes = λ held. fun_ext (λ k. fun_ext (λ e. carried_out c held k e));
}

command-Turns : (c : Command) → Accepted c → Turns holds (step c) (command c)
unfolding command
command-Turns (queue_s_add at []) accepted = absurd accepted
command-Turns (queue_s_rem at []) accepted = absurd accepted
command-Turns (queue_s_add at (m ∷ ms)) accepted = carried-Turns _
command-Turns (queue_s_rem at (m ∷ ms)) accepted = carried-Turns _
command-Turns (queue_expire at seconds) accepted = carried-Turns _
command-Turns (queue_del at) accepted = carried-Turns _

execute_all-Turns : (cs : List Command) → All Accepted cs → Turns holds (steps cs) (execute_all cs)
unfolding execute_all steps
execute_all-Turns [] accepted = Turns-pure
execute_all-Turns (c ∷ cs) accepted =
    Turns-then _ _ (command-Turns c accepted.0) (execute_all-Turns cs accepted.1)

server-IsServer : IsServer server holds
unfolding gets
server-IsServer = record {
  adds = λ at members present. command-Turns (queue_s_add at members) present;
  removes = λ at members present. command-Turns (queue_s_rem at members) present;
  expires = λ at seconds positive. command-Turns (queue_expire at seconds) positive;
  deletes = λ at. command-Turns (queue_del at) tt;
  reads = λ at. record {
    members = λ held. or_empty (JsMap.get held at);
    resolves = λ held. refl;
    exact = λ held e. unfold holds in refl;
    keeps = λ held. refl;
  };
  executes = λ exec multi cs accepted.
      let same : execute_all ≡ exec = cc in
      subst (λ run. Turns holds (steps cs) (run cs)) same (execute_all-Turns cs accepted);
}

abbrev tags : Text
tags = codes "__safecache:tags"

app-IsApart : IsApart tags (codes "app")
unfolding tag_key key_tags_key text_eq
app-IsApart tag key = refl

abbrev changes : List Change
changes =
    add (codes "k") (codes "users" ∷ codes "admins" ∷ [])
    ∷ drop_tag (codes "users")
    ∷ drop_key (codes "k")
    ∷ []

index_refines_tagging_example :
    Represents
      (codes "app")
      (change_index_all (codes "app") changes no_tags)
      (change_all changes untagged)
index_refines_tagging_example = index_refines_tagging (codes "app") changes

nothing-Represents : Agreement.Represents tags (codes "app") (holds []) untagged
unfolding holds JsMap.get JsSet.has
nothing-Represents = record { looks_up = λ tag key. refl; linked = λ tag key. refl }

redis_refines_tagging_example :
    ((change_server_all tags (codes "app") 60000 server changes []).0 ≡ ok tt)
    × Agreement.Represents tags
        (codes "app")
        (holds (change_server_all tags (codes "app") 60000 server changes []).1)
        (change_all changes untagged)
redis_refines_tagging_example =
    redis_refines_tagging tags (codes "app") 60000 server holds server-IsServer app-IsApart changes
      [] untagged nothing-Represents
