-- ===== src/Api/Auth/Places.antt =====
-- Where the public paths lie, src/cf_knowledge_kiln/api/auth.py: the components that a path
-- resolves to, against the text that `_is_public` looks at.
use cf_knowledge_kiln.Base.{
  ℕ, ◌==◌, Bool, true, false, not, ◌&&◌, ◌||◌, List, [], ◌∷◌, ◌++◌, any, All, IsAmong,
  if◌then◌else◌, ◌≡◌, ◌≢◌, refl, sym, ap, subst, ◌∙◌, inl, inr, Bool-cases, arith, or_false,
  or_true, and_true, All-at, map,
}
use cf_knowledge_kiln.Base.Texts.{
  Text, codes, same, same_sound, starts_with, split_from, split, join, is_empty, elem,
}
use cf_knowledge_kiln.Api.Auth.Paths.{
  slash, dot, dot_dot, push_component, push_all, reverse_onto, resolve, normpath, public_paths,
  public_prefixes, is_public,
}

-- A component holds no slash.
abbrev IsComponent : Text → Type 0
IsComponent t = any (λ c. c == slash) t ≡ false

parts_of : (t : Text) → IsComponent (split_from slash t).0 × All IsComponent (split_from slash t).1
parts_of [] = (refl, tt)
parts_of (c ∷ cs) = elim (Bool-cases (c == slash)) [
  | inl e ↦ rw e (refl, parts_of cs)
  | inr e ↦ rw (e) (rw e (parts_of cs).0, (parts_of cs).1)
]

push_component-All :
    (P : Text → Type 0) (rooted : Bool) (comp : Text) (kept : List Text)
    → P comp
    → All P kept
    → All P (push_component rooted comp kept)
unfolding push_component
push_component-All P rooted comp [] p h = elim (Bool-cases (is_empty comp || same comp dot)) [
  | inl e ↦ rw e tt
  | inr e ↦ elim (Bool-cases (not (same comp dot_dot) || not rooted)) [
    | inl d ↦ rw (e, d) (p, tt)
    | inr d ↦ rw (e, d) tt
  ]
]
push_component-All P rooted comp (top ∷ rest) p h =
    elim (Bool-cases (is_empty comp || same comp dot)) [
      | inl e ↦ rw e h
      | inr e ↦ elim (Bool-cases (not (same comp dot_dot) || same top dot_dot)) [
        | inl d ↦ rw (e, d) (p, h)
        | inr d ↦ rw (e, d) h.1
      ]
    ]

push_all-All :
    (P : Text → Type 0) (rooted : Bool) (comps kept : List Text)
    → All P comps
    → All P kept
    → All P (push_all rooted comps kept)
push_all-All P rooted [] kept h k = k
push_all-All P rooted (comp ∷ comps) kept h k =
    push_all-All P rooted comps _ h.1 (push_component-All P rooted comp kept h.0 k)

reverse_onto-All :
    (P : Text → Type 0) (xs ys : List Text) → All P xs → All P ys → All P (reverse_onto xs ys)
reverse_onto-All P [] ys h k = k
reverse_onto-All P (x ∷ xs) ys h k = reverse_onto-All P xs (x ∷ ys) h.1 (h.0, k)

resolve-All : (path : Text) → All IsComponent (resolve path)
unfolding resolve
resolve-All path =
    let parts = parts_of path in
    reverse_onto-All IsComponent _ []
      (push_all-All IsComponent _ (split slash path) [] (parts.0, parts.1) tt) tt

-- A component before a slash is the first piece.
split_from-append :
    (t : Text) (rest : Text)
    → IsComponent t
    → split_from slash (t ++ slash ∷ rest) ≡ (t, split slash rest)
split_from-append [] rest h = refl
split_from-append (c ∷ cs) rest h =
    rw ((or_false (c == slash) _ h).0, split_from-append cs rest (or_false (c == slash) _ h).1) refl

split_from-plain : (t : Text) → IsComponent t → split_from slash t ≡ (t, [])
split_from-plain [] h = refl
split_from-plain (c ∷ cs) h =
    rw ((or_false (c == slash) _ h).0, split_from-plain cs (or_false (c == slash) _ h).1) refl

split-join :
    (x : Text) (xs : List Text)
    → All IsComponent (x ∷ xs)
    → split slash (join (codes "/") (x ∷ xs)) ≡ x ∷ xs
split-join x [] h = rw (split_from-plain x h.0) refl
split-join x (y ∷ ys) h =
    let rest = join (codes "/") (y ∷ ys) in
    let first : split slash (x ++ slash ∷ rest) ≡ x ∷ split slash rest =
      rw (split_from-append x rest h.0) refl in
    first ∙ ap (◌∷◌ x) (split-join y ys h.1)

-- The names of the public pages, and the folder of the static files with what lies below it.
abbrev pub page_names : List Text
page_names =
    codes "healthz"
    ∷ codes "readyz"
    ∷ codes "version"
    ∷ codes "openapi.json"
    ∷ codes "docs"
    ∷ codes "redoc"
    ∷ []

pub data IsPublicPlace : List Text → Type 0 where
  page : {name : Text} → IsAmong name page_names → IsPublicPlace (name ∷ [])
  asset : {first : Text} {rest : List Text} → IsPublicPlace (codes "static" ∷ first ∷ rest)

-- The text after the root tells the components.
resolved :
    (comps : List Text) (text : Text)
    → All IsComponent comps
    → text ≢ []
    → join (codes "/") comps ≡ text
    → comps ≡ split slash text
resolved [] text h n e = absurd (n (sym e))
resolved (x ∷ xs) text h n e = sym (split-join x xs h) ∙ ap (split slash) e

page_of :
    (comps : List Text) (name : Text)
    → All IsComponent comps
    → IsAmong name page_names
    → name ≢ []
    → split slash name ≡ name ∷ []
    → join (codes "/") comps ≡ name
    → IsPublicPlace comps
page_of comps name h among n whole e =
    subst IsPublicPlace (sym (resolved comps name h n e ∙ whole)) (page among)

-- What follows a prefix.
eq_of_test : (x y : ℕ) → (x == y) ≡ true → y ≡ x
eq_of_test x y h = ground arith

after_prefix : (p t : Text) → starts_with p t ≡ true → (rest : Text) × (t ≡ p ++ rest)
after_prefix [] t h = (t, refl)
after_prefix (x ∷ p) [] h = cc
after_prefix (x ∷ p) (y ∷ t) h =
    let (first, rest) = and_true (x == y) (starts_with p t) h in
    let (more, e) = after_prefix p t rest in
    (more, ap (λ s. y ∷ s) e ∙ ap (λ c. c ∷ (p ++ more)) (eq_of_test x y first))

tail_inj : {a b : ℕ} {s t : Text} → a ∷ s ≡ b ∷ t → s ≡ t
tail_inj h = cc

-- A rooted text that is equal to one of these names.
named :
    (names : List Text) (text : Text)
    → any (same (slash ∷ text)) (map (λ n. slash ∷ n) names) ≡ true
    → (name : Text) × IsAmong name names × (text ≡ name)
named [] text h = cc
named (n ∷ ns) text h = elim (or_true (same text n) _ h) [
  | inl e ↦ (n, inl refl, same_sound text n e)
  | inr e ↦ let (name, among, is_name) = named ns text e in (name, inr among, is_name)
]

abbrev IsWhole : Text → Type 0
IsWhole n = (n ≢ []) × (split slash n ≡ n ∷ [])

whole : (c : ℕ) (cs : Text) → split slash (c ∷ cs) ≡ (c ∷ cs) ∷ [] → IsWhole (c ∷ cs)
whole c cs h = ((λ e. cc), h)

names-IsWhole : All IsWhole page_names
names-IsWhole = (
  whole _ _ refl,
  (whole _ _ refl, (whole _ _ refl, (whole _ _ refl, (whole _ _ refl, (whole _ _ refl, tt))))),
)

below_root :
    (comps : List Text)
    → All IsComponent comps
    → (elem (slash ∷ join (codes "/") comps) public_paths
        || any (λ p. starts_with p (slash ∷ join (codes "/") comps)) public_prefixes)
      ≡ true
    → IsPublicPlace comps
below_root comps h e = elim (or_true _ _ e) [
  | inl listed ↦
      let (name, among, is_name) = named page_names (join (codes "/") comps) listed in
      let named_whole = All-at IsWhole name page_names names-IsWhole among in
      page_of comps name h among named_whole.0 named_whole.1 is_name
  | inr prefixed ↦
      let text = join (codes "/") comps in
      let (rest, e) =
        after_prefix (codes "static/") text
          (elim (or_true (starts_with (codes "static/") text) false prefixed) [
            | inl p ↦ p
            | inr p ↦ cc
          ]) in
      subst IsPublicPlace (sym (resolved comps (codes "static/" ++ rest) h (λ n. cc) e)) asset
]

guarded : (a b : Bool) → (if a then false else b) ≡ true → b ≡ true
guarded a b h = ground arith

-- A rooted path that bypasses authentication resolves, with its dots and double slashes taken out,
-- to one of the six public pages or to something below the static folder.
pub is_public-IsPublicPlace :
    (path : Text)
    → starts_with (codes "/") path ≡ true
    → is_public path ≡ true
    → IsPublicPlace (resolve path)
unfolding is_public normpath
is_public-IsPublicPlace [] r h = cc
is_public-IsPublicPlace (c ∷ cs) r h =
    let comps = resolve (c ∷ cs) in
    elim (Bool-cases
      (starts_with (codes "//") (c ∷ cs) && not (starts_with (codes "///") (c ∷ cs)))) [
        | inl two ↦ let wrong = guarded _ false (rw (r, two) at h) in cc
        | inr one ↦ below_root comps (resolve-All (c ∷ cs)) (guarded _ _ (rw (r, one) at h))
      ]
