-- ===== src/Ingestion/Walk.antt =====
-- The walk over a source's files, `_walk` and `_is_denied_by_default` of
-- src/cf_knowledge_kiln/ingestion/connectors.py.
use cf_knowledge_kiln.Base.{
  ℕ, suc, ◌+◌, ◌≤◌, ltb, Bool, true, false, not, ◌&&◌, ◌||◌, Option, none, some, List, [], ◌∷◌,
  ◌++◌, any, All, length, length-append, if◌then◌else◌, ◌≡◌, sym, ap, subst, ◌∙◌, inl, inr,
  Bool-cases, Option-cases, arith, some_inj, none-ne-some, or_false, All-append,
}
use cf_knowledge_kiln.Base.Texts.{Text, codes, same, starts_with, split, elem, lower, partition}
use cf_knowledge_kiln.Ingestion.Tables.{
  FetchedFile, SkipReason, excluded_by_pattern, symlink_escape, unsupported_file_type, too_large,
}
pub mod Complete

pub record IngestionCaps : Type 0 where
  pub max_file_bytes : ℕ
  pub max_files : ℕ
  pub max_repo_bytes : ℕ

-- A file below the root, in the order of the paths: whether its target lies below the root too, its
-- suffix, its size, and the text of its bytes where they are UTF-8.
pub record Entry : Type 0 where
  pub rel : Text
  pub is_inside : Bool
  pub suffix : Text
  pub size : ℕ
  pub content : Option Text

pub record SkippedFile : Type 0 where
  pub path : Text
  pub reason : SkipReason

pub record FetchResult : Type 0 where
  pub files : List FetchedFile
  pub skipped : List SkippedFile
  pub commit_sha : Option Text

abbrev pub dotfile_deny : List Text
dotfile_deny =
    codes ".git"
    ∷ codes ".github"
    ∷ codes ".env"
    ∷ codes ".envrc"
    ∷ codes ".venv"
    ∷ codes "node_modules"
    ∷ codes ".pytest_cache"
    ∷ codes ".mypy_cache"
    ∷ codes ".ruff_cache"
    ∷ codes ".idea"
    ∷ codes ".vscode"
    ∷ []

abbrev pub is_hidden : Text → Bool
is_hidden seg = starts_with (codes ".") seg && not (same seg (codes ".") || same seg (codes ".."))

-- `_is_denied_by_default`
unfoldable pub is_denied_by_default : Text → Bool
is_denied_by_default rel = elem (partition 47 rel).0 dotfile_deny || any is_hidden (split 47 rel)

abbrev pub supported_suffixes : List Text
supported_suffixes = codes ".md" ∷ codes ".markdown" ∷ []

-- What the globs of the source match is the caller's.
module _ (in_include in_exclude : Text → Bool) (caps : IngestionCaps)
    (commit_sha : Option Text) where
  -- Why an entry is passed over.
  unfoldable pub skip_reason : Entry → Option SkipReason
  unfolding is_denied_by_default
  skip_reason e =
      if not e.is_inside
      then some symlink_escape
      else if is_denied_by_default e.rel || not (in_include e.rel) || in_exclude e.rel
      then some excluded_by_pattern
      else if not (elem (lower e.suffix) supported_suffixes)
      then some unsupported_file_type
      else if ltb caps.max_file_bytes e.size
      then some too_large
      else none

  abbrev pub fetched : Entry → FetchedFile
  fetched e = record {
    path = e.rel;
    content = e.content;
    size_bytes = e.size;
    commit_sha = commit_sha;
  }

  abbrev pub with_skipped : Entry → SkipReason → FetchResult → FetchResult
  with_skipped e reason r = record r {
    skipped = r.skipped ++ record { path = e.rel; reason = reason } ∷ [];
  }

  abbrev pub with_file : Entry → FetchResult → FetchResult
  with_file e r = record r { files = r.files ++ fetched e ∷ [] }

  abbrev pub is_over : ℕ → ℕ → Bool
  is_over total count = ltb caps.max_repo_bytes total || ltb caps.max_files count

  -- The walk, with the bytes and the files so far; `none` is IngestionCapExceeded.
  unfoldable pub walk_from : ℕ → ℕ → FetchResult → List Entry → Option FetchResult
  unfolding skip_reason
  walk_from total count result [] = some result
  walk_from total count result (e ∷ entries) = elim (skip_reason e) [
    | some reason ↦ walk_from total count (with_skipped e reason result) entries
    | none ↦
        let rest = walk_from (total + e.size) (suc count) (with_file e result) entries in
        if is_over (total + e.size) (suc count) then none else rest
  ]

  -- `_walk`
  unfoldable pub walk : List Entry → Option FetchResult
  unfolding walk_from
  walk entries =
      walk_from 0 0 (record { files = []; skipped = []; commit_sha = commit_sha }) entries

  -- `sum(f.size_bytes for f in files)`
  abbrev pub bytes_of : List FetchedFile → ℕ
  bytes_of [] = 0
  bytes_of (f ∷ fs) = f.size_bytes + bytes_of fs

  bytes_of-append :
      (fs : List FetchedFile) (f : FetchedFile)
      → bytes_of (fs ++ f ∷ []) ≡ bytes_of fs + f.size_bytes
  bytes_of-append [] f = omega arith
  bytes_of-append (g ∷ fs) f = omega (arith, bytes_of-append fs f)

  abbrev pub IsAllowed : FetchedFile → Type 0
  IsAllowed f =
      (f.size_bytes ≤ caps.max_file_bytes)
      × (is_denied_by_default f.path ≡ false)
      × (in_include f.path ≡ true)
      × (in_exclude f.path ≡ false)

  -- Within the caps, and nothing lost of so many files.
  pub record IsWithin (seen : ℕ) (r : FetchResult) : Type 0 where
    pub bytes : bytes_of r.files ≤ caps.max_repo_bytes
    pub count : length r.files ≤ caps.max_files
    pub allowed : All IsAllowed r.files
    pub complete : length r.files + length r.skipped ≡ seen

  pub skip_reason-IsAllowed : (e : Entry) → skip_reason e ≡ none → IsAllowed (fetched e)
  unfolding skip_reason
  skip_reason-IsAllowed e h =
      (ground (arith, h), ground (arith, h), ground (arith, h), ground (arith, h))

  pub skipped-IsWithin :
      (seen : ℕ) (e : Entry) (reason : SkipReason) (r : FetchResult)
      → IsWithin seen r
      → IsWithin (suc seen) (with_skipped e reason r)
  skipped-IsWithin seen e reason r w = record {
    bytes = w.bytes;
    count = w.count;
    allowed = w.allowed;
    complete = omega (
      arith,
      w.complete,
      length-append r.skipped (record { path = e.rel; reason = reason } ∷ []),
    );
  }

  pub taken-IsWithin :
      (seen : ℕ) (e : Entry) (r : FetchResult)
      → IsAllowed (fetched e)
      → is_over (bytes_of r.files + e.size) (suc (length r.files)) ≡ false
      → IsWithin seen r
      → IsWithin (suc seen) (with_file e r)
  taken-IsWithin seen e r a h w =
      let (bytes_ok, count_ok) =
        or_false (ltb caps.max_repo_bytes (bytes_of r.files + e.size)) _ h in
      record {
        bytes =
            subst (λ n. n ≤ caps.max_repo_bytes) (sym (bytes_of-append r.files (fetched e)))
              (ground (arith, bytes_ok));
        count =
            subst (λ n. n ≤ caps.max_files) (sym (length-append r.files (fetched e ∷ [])))
              (ground (arith, count_ok));
        allowed = All-append IsAllowed r.files (fetched e ∷ []) w.allowed (a, tt);
        complete = omega (arith, w.complete, length-append r.files (fetched e ∷ []));
      }

  pub walk_from-IsWithin :
      (total count : ℕ) (result out : FetchResult) (entries : List Entry) (seen : ℕ)
      → total ≡ bytes_of result.files
      → count ≡ length result.files
      → IsWithin seen result
      → walk_from total count result entries ≡ some out
      → IsWithin (seen + length entries) out
  unfolding walk_from
  walk_from-IsWithin total count result out [] seen t c w h =
      subst (IsWithin (seen + 0)) (some_inj h) (subst (λ n. IsWithin n result) (omega arith) w)
  walk_from-IsWithin total count result out (e ∷ entries) seen t c w h =
      elim (Option-cases (skip_reason e)) [
        | inr (reason, p) ↦
            subst (λ n. IsWithin n out) (omega arith)
              (walk_from-IsWithin total count (with_skipped e reason result) out entries (suc seen)
                t c (skipped-IsWithin seen e reason result w) (rw (p, walk_from) at h))
        | inl p ↦ elim (Bool-cases (is_over (total + e.size) (suc count))) [
          | inl q ↦ absurd (none-ne-some (rw (p, walk_from, q) at h))
          | inr q ↦
              let allowed = skip_reason-IsAllowed e p in
              let fits : is_over (bytes_of result.files + e.size) (suc (length result.files))
                  ≡ false =
                rw⁻¹ (t, c) q in
              subst (λ n. IsWithin n out) (omega arith)
                (walk_from-IsWithin (total + e.size) (suc count) (with_file e result) out entries
                  (suc seen)
                  (ap (λ n. n + e.size) t ∙ sym (bytes_of-append result.files (fetched e)))
                  (omega (arith, c, length-append result.files (fetched e ∷ [])))
                  (taken-IsWithin seen e result allowed fits w) (rw (p, walk_from, q) at h))
        ]
      ]
