-- ===== src/Keys/Scope.antt =====
-- Scoped keys are collision-free across namespace, tenant and key, and never meet scoped tags.
use safecache.Base.{◌≡◌, refl, ap, ◌∙◌, sym, ◌≢◌, Option, none, some, [], ◌∷◌, ◌++◌, ℕ, arith}
use safecache.Text.{Text, codes}
use safecache.Keys.{encode_component, scope_key, scope_tag}
use safecache.Keys.Decode.{
  NoColon, encode_component-injective, encode_component-NoColon, colon_free, cut,
}

-- The tenant that a call means: the empty text is falsy.
abbrev pub effective : Option Text → Option Text
effective none = none
effective (some []) = none
effective (some (c ∷ t)) = some (c ∷ t)

-- The layout of a scoped name over encoded parts; `label` is empty for keys.
assemble : Text → Option Text → Text → Text
assemble ns none name = encode_component ns ++ (b':' ∷ b':' ∷ name)
assemble ns (some t) name =
    encode_component ns ++ (codes "::tenant:" ++ (encode_component t ++ (b':' ∷ b':' ∷ name)))

scope_key-assemble :
    (ns key : Text) (tenant : Option Text)
    → scope_key ns key tenant ≡ assemble ns (effective tenant) (encode_component key)
unfolding scope_key assemble
scope_key-assemble ns key none = refl
scope_key-assemble ns key (some []) = refl
scope_key-assemble ns key (some (c ∷ t)) = refl

scope_tag-assemble :
    (ns tag : Text) (tenant : Option Text)
    → scope_tag ns tag tenant
      ≡ assemble ns (effective tenant) (codes "tag:" ++ encode_component tag)
unfolding scope_tag assemble
scope_tag-assemble ns tag none = refl
scope_tag-assemble ns tag (some []) = refl
scope_tag-assemble ns tag (some (c ∷ t)) = refl

-- The tail of a list, to take equations apart.
rest : Text → Text
rest [] = []
rest (c ∷ s) = s

third : Text → ℕ
third (a ∷ b ∷ c ∷ s) = c
third _ = 0

-- The namespace and what follows it are determined.
module _ (a b x y : Text) where
  head_part :
      encode_component a ++ (b':' ∷ x) ≡ encode_component b ++ (b':' ∷ y) → (a ≡ b) × (x ≡ y)
  head_part e =
      let (p, q) =
        cut (encode_component a) (encode_component b) x y (encode_component-NoColon a)
          (encode_component-NoColon b) e in
      (encode_component-injective a b p, q)

abbrev SameParts : Text → Text → Option Text → Option Text → Text → Text → Type 0
SameParts a b t u x y = (a ≡ b) × (t ≡ u) × (x ≡ y)

-- A plain name holds no colon, so it cannot be taken for a tenant.
not_tenant : (a b t x y : Text) → NoColon x → assemble a none x ≢ assemble b (some t) y
unfolding assemble
not_tenant a b t x y h e =
    let (_, q) =
      head_part a b (b':' ∷ x)
        (b':' ∷ (codes "tenant:" ++ (encode_component t ++ (b':' ∷ b':' ∷ y)))) e in
    colon_free x (codes "tenant") (encode_component t ++ (b':' ∷ b':' ∷ y)) h (cc q)

tenant_part :
    (a b t u x y : Text)
    → assemble a (some t) x ≡ assemble b (some u) y
    → (a ≡ b) × (t ≡ u) × (x ≡ y)
unfolding assemble rest
tenant_part a b t u x y e =
    let (p, q) =
      head_part a b (b':' ∷ (codes "tenant:" ++ (encode_component t ++ (b':' ∷ b':' ∷ x))))
        (b':' ∷ (codes "tenant:" ++ (encode_component u ++ (b':' ∷ b':' ∷ y)))) e in
    let (r, s) = head_part t u (b':' ∷ x) (b':' ∷ y) (cc q) in (p, r, ap rest s)

assemble-injective :
    (a b : Text) (t u : Option Text) (x y : Text)
    → NoColon x
    → NoColon y
    → assemble a t x ≡ assemble b u y
    → (a ≡ b) × (t ≡ u) × (x ≡ y)
unfolding rest
assemble-injective a b none none x y hx hy e =
    let (p, q) = head_part a b (b':' ∷ x) (b':' ∷ y) (unfold assemble in e) in (p, refl, ap rest q)
assemble-injective a b none (some u) x y hx hy e = absurd (not_tenant a b u x y hx e)
assemble-injective a b (some t) none x y hx hy e = absurd (not_tenant b a t y x hy (sym e))
assemble-injective a b (some t) (some u) x y hx hy e =
    let (p, q, r) = tenant_part a b t u x y e in (p, ap some q, r)

-- Two scoped keys are equal only if namespace, key and effective tenant are: no two different
-- addresses share a provider key.
pub scope_key-injective :
    (ns ns' key key' : Text) (tenant tenant' : Option Text)
    → scope_key ns key tenant ≡ scope_key ns' key' tenant'
    → (ns ≡ ns') × (key ≡ key') × (effective tenant ≡ effective tenant')
scope_key-injective ns ns' key key' tenant tenant' e =
    let (p, q, r) =
      assemble-injective ns ns' (effective tenant) (effective tenant') (encode_component key)
        (encode_component key') (encode_component-NoColon key) (encode_component-NoColon key')
        (sym (scope_key-assemble ns key tenant) ∙ e ∙ scope_key-assemble ns' key' tenant') in
    (p, encode_component-injective key key' r, q)

key_not_tag :
    (a b : Text) (t u : Option Text) (x y : Text)
    → NoColon x
    → assemble a t x ≢ assemble b u (codes "tag:" ++ y)
unfolding rest third
key_not_tag a b none none x y h e =
    let (_, q) = head_part a b (b':' ∷ x) (b':' ∷ (codes "tag:" ++ y)) (unfold assemble in e) in
    colon_free x (codes "tag") y h (ap rest q)
key_not_tag a b none (some u) x y h e = not_tenant a b u x (codes "tag:" ++ y) h e
key_not_tag a b (some t) none x y h e =
    let (_, q) =
      head_part a b (b':' ∷ (codes "tenant:" ++ (encode_component t ++ (b':' ∷ b':' ∷ x))))
        (b':' ∷ (codes "tag:" ++ y)) (unfold assemble in e) in
    omega (arith, ap third q)
key_not_tag a b (some t) (some u) x y h e =
    let (_, _, r) = tenant_part a b t u x (codes "tag:" ++ y) e in colon_free x (codes "tag") y h r

-- A scoped key is never a scoped tag, whatever the namespaces and tenants.
pub scope_key-ne-scope_tag :
    (ns ns' key tag : Text) (tenant tenant' : Option Text)
    → scope_key ns key tenant ≢ scope_tag ns' tag tenant'
scope_key-ne-scope_tag ns ns' key tag tenant tenant' e =
    key_not_tag ns ns' (effective tenant) (effective tenant') (encode_component key)
      (encode_component tag) (encode_component-NoColon key)
      (sym (scope_key-assemble ns key tenant) ∙ e ∙ scope_tag-assemble ns' tag tenant')
