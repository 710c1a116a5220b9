-- ===== src/Api/HeaderSanitize.antt =====
-- The sanitizer of opaque header values, src/cf_knowledge_kiln/api/_header_sanitize.py.
use cf_knowledge_kiln.Base.{
  ℕ, suc, ◌≤◌, ◌≡◌, refl, Bool, true, false, ◌||◌, Option, none, some, [], ◌∷◌, map, ltb, ◌==◌,
  if◌then◌else◌, length, take, All, arith, Bool-cases, inl, inr, ◌≢◌, ap, ◌∙◌, subst, some_inj,
  none-ne-some, length-take-le,
}
unfoldable pub use cf_knowledge_kiln.Base.Texts.{Text, is_space, lstrip, rstrip, strip, is_empty}
use cf_knowledge_kiln.Base.Texts.{between}

-- `[A-Za-z0-9._-]`
abbrev pub is_allowed : ℕ → Bool
is_allowed c =
    between 65 90 c || between 97 122 c || between 48 57 c || c == 46 || c == 95 || c == 45

abbrev pub max_len : ℕ
max_len = 200

-- `_SANITIZE_RE.sub("_", value)`
abbrev pub scrub : Text → Text
scrub = map (λ c. if is_allowed c then c else 95)

abbrev pub none_if_empty : Text → Option Text
none_if_empty [] = none
none_if_empty (c ∷ cs) = some (c ∷ cs)

unfoldable pub sanitize_opaque_header : Option Text → Option Text
unfolding strip
sanitize_opaque_header none = none
sanitize_opaque_header (some value) =
    let stripped = strip value in
    if is_empty stripped
    then none
    else none_if_empty
        (scrub (if ltb max_len (length stripped) then take max_len stripped else stripped))

-- A key that may be stored: between 1 and 200 characters, all of them allowed.
pub record IsKey (key : Text) : Type 0 where
  pub nonempty : key ≢ []
  pub short : length key ≤ max_len
  pub plain : All (λ c. is_allowed c ≡ true) key

length-scrub : (value : Text) → length (scrub value) ≡ length value
length-scrub [] = refl
length-scrub (c ∷ cs) = ap suc (length-scrub cs)

scrub-plain : (value : Text) → All (λ c. is_allowed c ≡ true) (scrub value)
scrub-plain [] = tt
scrub-plain (c ∷ cs) = elim (Bool-cases (is_allowed c)) [
  | inl p ↦ (rw p p, scrub-plain cs)
  | inr p ↦ (rw p refl, scrub-plain cs)
]

none_if_empty-IsKey :
    (value : Text) {key : Text}
    → length value ≤ max_len
    → All (λ c. is_allowed c ≡ true) value
    → none_if_empty value ≡ some key
    → IsKey key
none_if_empty-IsKey [] short plain e = cc
none_if_empty-IsKey (c ∷ cs) short plain e =
    subst IsKey (some_inj e) (record { nonempty = λ h. cc; short = short; plain = plain })

-- `value[:n]` where the value is longer than `n`.
cut_short :
    (n : ℕ) (value : Text) → length (if ltb n (length value) then take n value else value) ≤ n
cut_short n value = ground (arith, length-take-le n value)

uncut :
    (n : ℕ) (value : Text)
    → length value ≤ n
    → (if ltb n (length value) then take n value else value) ≡ value
uncut n value h = ground arith

-- A sanitized header has between 1 and 200 characters, all of them letters, digits, dots, dashes
-- or underscores.
pub sanitize_opaque_header-IsKey :
    (value : Option Text) (key : Text) → sanitize_opaque_header value ≡ some key → IsKey key
unfolding sanitize_opaque_header
sanitize_opaque_header-IsKey none key e = cc
sanitize_opaque_header-IsKey (some value) key e =
    let stripped = strip value in
    elim (Bool-cases (is_empty stripped)) [
      | inl p ↦ absurd (none-ne-some (rw p at e))
      | inr p ↦
          let cut = if ltb max_len (length stripped) then take max_len stripped else stripped in
          none_if_empty-IsKey (scrub cut)
            (omega (arith, length-scrub cut, cut_short max_len stripped)) (scrub-plain cut)
            (rw p at e)
    ]

allowed_no_space : (c : ℕ) → is_allowed c ≡ true → is_space c ≡ false
allowed_no_space c h = ground arith

lstrip-plain : (value : Text) → All (λ c. is_allowed c ≡ true) value → lstrip value ≡ value
lstrip-plain [] h = refl
lstrip-plain (c ∷ cs) h = rw (allowed_no_space c h.0) refl

rstrip-plain : (value : Text) → All (λ c. is_allowed c ≡ true) value → rstrip value ≡ value
rstrip-plain [] h = refl
rstrip-plain (c ∷ []) h = rw (allowed_no_space c h.0) refl
rstrip-plain (c ∷ d ∷ ds) h = rw (rstrip-plain (d ∷ ds) h.1) refl

scrub_plain : (value : Text) → All (λ c. is_allowed c ≡ true) value → scrub value ≡ value
scrub_plain [] h = refl
scrub_plain (c ∷ cs) h = rw (h.0, scrub_plain cs h.1) refl

-- A sanitized header is a fixed point of the sanitizer.
pub sanitize_opaque_header_again :
    (value : Option Text) (key : Text)
    → sanitize_opaque_header value ≡ some key
    → sanitize_opaque_header (some key) ≡ some key
unfolding sanitize_opaque_header strip
sanitize_opaque_header_again value key e =
    let k = sanitize_opaque_header-IsKey value key e in again key k
  where
    again : (key : Text) → IsKey key → sanitize_opaque_header (some key) ≡ some key
    again [] k = absurd (k.nonempty refl)
    again (c ∷ cs) k =
        let p = k.plain in
        rw (lstrip-plain (c ∷ cs) p, rstrip-plain (c ∷ cs) p)
          (ap (λ (v : Text). none_if_empty (scrub v)) (uncut max_len (c ∷ cs) k.short)
            ∙ ap none_if_empty (scrub_plain (c ∷ cs) p))
