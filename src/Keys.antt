-- ===== src/Keys.antt =====
-- packages/core/src/keys.ts: scoped keys, tags and prefixes. A tenant is optional, and the
-- empty tenant is falsy, so it counts as none.
pub mod Decode
pub mod Scope
use safecache.Base.{ℕ, Option, none, some, List, [], ◌∷◌, ◌++◌, nat_eq, if◌then◌else◌}
use safecache.Text.{Text, codes}

-- `component.replace(/%/g, "%25")`
unfoldable pub escape_percent : Text → Text
escape_percent [] = []
escape_percent (c ∷ s) =
    if nat_eq c b'%' then b'%' ∷ b'2' ∷ b'5' ∷ escape_percent s else c ∷ escape_percent s

-- `….replace(/:/g, "%3A")`
unfoldable pub escape_colon : Text → Text
escape_colon [] = []
escape_colon (c ∷ s) =
    if nat_eq c b':' then b'%' ∷ b'3' ∷ b'A' ∷ escape_colon s else c ∷ escape_colon s

unfoldable pub encode_component : Text → Text
unfolding escape_percent escape_colon
encode_component component = escape_colon (escape_percent component)

-- What stands before the key or the tag: `${ns}`, or `${ns}::tenant:${tenant}`.
unfoldable pub scope_prefix : Text → Option Text → Text
unfolding encode_component
scope_prefix namespace none = encode_component namespace
scope_prefix namespace (some []) = encode_component namespace
scope_prefix namespace (some (c ∷ t)) =
    encode_component namespace ++ (codes "::tenant:" ++ encode_component (c ∷ t))

unfoldable pub scope_key : Text → Text → Option Text → Text
unfolding encode_component
scope_key namespace key none = encode_component namespace ++ (codes "::" ++ encode_component key)
scope_key namespace key (some []) =
    encode_component namespace ++ (codes "::" ++ encode_component key)
scope_key namespace key (some (c ∷ t)) =
    encode_component namespace
    ++ (codes "::tenant:" ++ (encode_component (c ∷ t) ++ (codes "::" ++ encode_component key)))

unfoldable pub scope_tag : Text → Text → Option Text → Text
unfolding encode_component
scope_tag namespace tag none =
    encode_component namespace ++ (codes "::tag:" ++ encode_component tag)
scope_tag namespace tag (some []) =
    encode_component namespace ++ (codes "::tag:" ++ encode_component tag)
scope_tag namespace tag (some (c ∷ t)) =
    encode_component namespace
    ++ (codes "::tenant:" ++ (encode_component (c ∷ t) ++ (codes "::tag:" ++ encode_component tag)))
