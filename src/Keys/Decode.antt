-- ===== src/Keys/Decode.antt =====
-- The encoding of a component can be read back, and holds no colon; so a scoped key
-- determines what it was built from.
use safecache.Base.{
  ℕ, ◌≡◌, refl, ap, ◌∙◌, sym, ◌≢◌, [], ◌∷◌, ◌++◌, nat_eq, if◌then◌else◌, arith, All,
}
use safecache.Text.{Text}
use safecache.Keys.{escape_percent, escape_colon, encode_component}

-- An independent reader of one component: what it has seen of an escape, and what follows.
data Mode : Type 0 where
  plain escaped : Mode
  digit : ℕ → Mode

read : Mode → Text → Text
read m [] = []
read plain (c ∷ s) = if nat_eq c b'%' then read escaped s else c ∷ read plain s
read escaped (c ∷ s) = read (digit c) s
read (digit d) (c ∷ s) = (if nat_eq d b'2' then b'%' else b':') ∷ read plain s

pub decode : Text → Text
decode s = read plain s

decode-escape : (s : Text) → read plain (escape_colon (escape_percent s)) ≡ s
unfolding read escape_percent escape_colon
decode-escape [] = refl
decode-escape (c ∷ s) = ground (arith, decode-escape s)

-- Reading an encoded component gives the component.
pub decode-encode_component : (s : Text) → decode (encode_component s) ≡ s
unfolding decode encode_component
decode-encode_component s = decode-escape s

pub encode_component-injective : (s t : Text) → encode_component s ≡ encode_component t → s ≡ t
encode_component-injective s t e =
    sym (decode-encode_component s) ∙ ap decode e ∙ decode-encode_component t

abbrev pub NoColon : Text → Type 0
NoColon = All (λ c. c ≢ b':')

pub encode_component-NoColon : (s : Text) → NoColon (encode_component s)
unfolding encode_component
encode_component-NoColon [] = tt
encode_component-NoColon (c ∷ s) = ground (arith, encode_component-NoColon s)

-- The text before the first colon, and the text behind it.
before : Text → Text
before [] = []
before (c ∷ s) = if nat_eq c b':' then [] else c ∷ before s

after : Text → Text
after [] = []
after (c ∷ s) = if nat_eq c b':' then s else after s

before-append : (xs ys : Text) → NoColon xs → before (xs ++ (b':' ∷ ys)) ≡ xs
unfolding before
before-append [] ys h = refl
before-append (c ∷ xs) ys h = ground (arith, before-append xs ys h.1)

after-append : (xs ys : Text) → NoColon xs → after (xs ++ (b':' ∷ ys)) ≡ ys
unfolding after
after-append [] ys h = refl
after-append (c ∷ xs) ys h = ground (arith, after-append xs ys h.1)

-- A text with no colon is not one that has a colon in it.
pub colon_free : (xs ys zs : Text) → NoColon xs → xs ≢ ys ++ (b':' ∷ zs)
colon_free [] [] zs h e = cc
colon_free [] (y ∷ ys) zs h e = cc
colon_free (x ∷ xs) [] zs h e = ground arith
colon_free (x ∷ xs) (y ∷ ys) zs h e = colon_free xs ys zs h.1 (ground arith)

module _ (a b x y : Text) (a_free : NoColon a) (b_free : NoColon b) where
  pub cut : a ++ (b':' ∷ x) ≡ b ++ (b':' ∷ y) → (a ≡ b) × (x ≡ y)
  cut e = (
    sym (before-append a x a_free) ∙ ap before e ∙ before-append b y b_free,
    sym (after-append a x a_free) ∙ ap after e ∙ after-append b y b_free,
  )
