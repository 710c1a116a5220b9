-- ===== src/Api/Auth/Paths.antt =====
-- Which paths bypass authentication: `_is_public` of src/cf_knowledge_kiln/api/auth.py, on Python's
-- `posixpath.normpath`.
use cf_knowledge_kiln.Base.{
  ℕ, Bool, true, false, not, ◌&&◌, ◌||◌, List, [], ◌∷◌, ◌++◌, any, if◌then◌else◌, ◌≡◌, refl,
}
use cf_knowledge_kiln.Base.Texts.{Text, codes, same, starts_with, is_empty, split, join, elem}

-- The components kept so far stand in reverse order.
abbrev pub dot : Text
dot = codes "."

abbrev pub dot_dot : Text
dot_dot = codes ".."

abbrev pub slash : ℕ
slash = 47

-- One component of the path against those kept before it.
unfoldable pub push_component : Bool → Text → List Text → List Text
push_component rooted comp [] =
    if is_empty comp || same comp dot
    then []
    else if not (same comp dot_dot) || not rooted
    then comp ∷ []
    else []
push_component rooted comp (top ∷ rest) =
    if is_empty comp || same comp dot
    then top ∷ rest
    else if not (same comp dot_dot) || same top dot_dot
    then comp ∷ top ∷ rest
    else rest

abbrev pub push_all : Bool → List Text → List Text → List Text
push_all rooted [] kept = kept
push_all rooted (comp ∷ comps) kept = push_all rooted comps (push_component rooted comp kept)

abbrev pub reverse_onto : List Text → List Text → List Text
reverse_onto [] ys = ys
reverse_onto (x ∷ xs) ys = reverse_onto xs (x ∷ ys)

-- The components that remain of a path, in order.
unfoldable pub resolve : Text → List Text
resolve path = reverse_onto (push_all (starts_with (codes "/") path) (split slash path) []) []

-- One slash, or the two of a path that starts with exactly two.
abbrev pub root_of : Text → Text
root_of path =
    if starts_with (codes "/") path
    then if starts_with (codes "//") path && not (starts_with (codes "///") path)
      then codes "//"
      else codes "/"
    else []

abbrev pub or_dot : Text → Text
or_dot [] = dot
or_dot (c ∷ cs) = c ∷ cs

-- `posixpath.normpath(path)`
unfoldable pub normpath : Text → Text
normpath [] = dot
normpath (c ∷ cs) = or_dot (root_of (c ∷ cs) ++ join (codes "/") (resolve (c ∷ cs)))

abbrev pub public_paths : List Text
public_paths =
    codes "/healthz"
    ∷ codes "/readyz"
    ∷ codes "/version"
    ∷ codes "/openapi.json"
    ∷ codes "/docs"
    ∷ codes "/redoc"
    ∷ []

abbrev pub public_prefixes : List Text
public_prefixes = codes "/static/" ∷ []

abbrev pub or_slash : Text → Text
or_slash [] = codes "/"
or_slash (c ∷ cs) = c ∷ cs

unfoldable pub is_public : Text → Bool
unfolding normpath
is_public path =
    let normalized = normpath (or_slash path) in
    if elem dot_dot (split slash normalized)
    then false
    else elem normalized public_paths || any (λ p. starts_with p normalized) public_prefixes

static_is_public : is_public (codes "/static/../static//app.css") ≡ true
unfolding is_public normpath resolve push_component
static_is_public = refl

no_escape : is_public (codes "/static/../v1/search") ≡ false
unfolding is_public normpath resolve push_component
no_escape = refl
