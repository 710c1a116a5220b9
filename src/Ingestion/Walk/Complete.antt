-- ===== src/Ingestion/Walk/Complete.antt =====
-- Every entry of a walk is returned or recorded: `_walk` of
-- src/cf_knowledge_kiln/ingestion/connectors.py.
use cf_knowledge_kiln.Base.{
  ℕ, suc, ◌+◌, ◌<◌, ◌⊎◌, Bool, true, false, not, ◌||◌, Option, none, some, List, [], ◌∷◌, ◌++◌,
  length, ◌≡◌, refl, sym, ap, subst, ◌∙◌, inl, inr, Bool-cases, Option-cases, arith, some_inj,
  none-ne-some,
}
use mathlib.Core.List.{append-nil, append_assoc}
use cf_knowledge_kiln.Base.Texts.{Text, split, elem, lower}
use cf_knowledge_kiln.Ingestion.Tables.{
  FetchedFile, SkipReason, binary_content, frontmatter_too_large, excluded_by_pattern,
  symlink_escape, unsupported_file_type, too_large,
}
use cf_knowledge_kiln.Ingestion.Walk.{
  IngestionCaps, Entry, SkippedFile, FetchResult, is_denied_by_default, supported_suffixes,
  skip_reason, fetched, is_over, walk_from, walk, IsAllowed, IsWithin, skip_reason-IsAllowed,
  walk_from-IsWithin,
}

module _ (in_include in_exclude : Text → Bool) (caps : IngestionCaps)
    (commit_sha : Option Text) where
  -- The test that an entry failed, where it passed those before.
  abbrev pub Explains : Entry → SkipReason → Type 0
  Explains e symlink_escape = e.is_inside ≡ false
  Explains e excluded_by_pattern =
      (e.is_inside ≡ true)
      × ((is_denied_by_default e.rel ≡ true)
          ⊎ ((in_include e.rel ≡ false) ⊎ (in_exclude e.rel ≡ true)))
  Explains e unsupported_file_type =
      (e.is_inside ≡ true) × (elem (lower e.suffix) supported_suffixes ≡ false)
  Explains e too_large = (e.is_inside ≡ true) × (caps.max_file_bytes < e.size)
  Explains e _ = ⊥

  abbrev pub IsTaken : Entry → Type 0
  IsTaken e =
      (e.is_inside ≡ true)
      × (elem (lower e.suffix) supported_suffixes ≡ true)
      × IsAllowed in_include in_exclude caps commit_sha
          (fetched in_include in_exclude caps commit_sha e)

  -- Each entry in its order is one of the files, as it is, or one of the skips, with its path and
  -- the test that it failed.
  pub data IsSplit : List Entry → List FetchedFile → List SkippedFile → Type 0 where
    ended : IsSplit [] [] []
    taken :
        {e : Entry} {entries : List Entry} {files : List FetchedFile} {skipped : List SkippedFile}
        → IsTaken e
        → IsSplit entries files skipped
        → IsSplit (e ∷ entries) (fetched in_include in_exclude caps commit_sha e ∷ files) skipped
    passed :
        {e : Entry} {reason : SkipReason} {entries : List Entry} {files : List FetchedFile}
        {skipped : List SkippedFile}
        → Explains e reason
        → IsSplit entries files skipped
        → IsSplit (e ∷ entries) files (record { path = e.rel; reason = reason } ∷ skipped)

  skip_reason-Explains :
      (e : Entry) (reason : SkipReason)
      → skip_reason in_include in_exclude caps commit_sha e ≡ some reason
      → Explains e reason
  unfolding skip_reason
  skip_reason-Explains e symlink_escape h = ground (arith, h)
  skip_reason-Explains e excluded_by_pattern h =
      (ground (arith, h), excluded (is_denied_by_default e.rel) _ _ (ground (arith, h)))
    where
      excluded : (a b c : Bool) → (a || not b || c) ≡ true → (a ≡ true) ⊎ ((b ≡ false) ⊎ (c ≡ true))
      excluded true b c p = inl refl
      excluded false false c p = inr (inl refl)
      excluded false true c p = inr (inr p)
  skip_reason-Explains e unsupported_file_type h = (ground (arith, h), ground (arith, h))
  skip_reason-Explains e too_large h = (ground (arith, h), ground (arith, h))
  skip_reason-Explains e binary_content h = absurd (ground (arith, h))
  skip_reason-Explains e frontmatter_too_large h = absurd (ground (arith, h))

  skip_reason-IsTaken :
      (e : Entry) → skip_reason in_include in_exclude caps commit_sha e ≡ none → IsTaken e
  unfolding skip_reason
  skip_reason-IsTaken e h = (
    ground (arith, h),
    ground (arith, h),
    skip_reason-IsAllowed in_include in_exclude caps commit_sha e h,
  )

  -- What the rest of a walk adds.
  abbrev Adds : List Entry → FetchResult → FetchResult → Type 0
  Adds entries result out =
      (files : List FetchedFile) × (skipped : List SkippedFile) × (out.files
        ≡ result.files ++ files)
      × (out.skipped ≡ result.skipped ++ skipped)
      × IsSplit entries files skipped

  walk_from-Adds :
      (total count : ℕ) (result out : FetchResult) (entries : List Entry)
      → walk_from in_include in_exclude caps commit_sha total count result entries ≡ some out
      → Adds entries result out
  unfolding walk_from
  walk_from-Adds total count result out [] h =
      let same = some_inj h in
      (
        [],
        [],
        ap (λ (r : FetchResult). r.files) (sym same) ∙ sym (append-nil result.files),
        ap (λ (r : FetchResult). r.skipped) (sym same) ∙ sym (append-nil result.skipped),
        ended,
      )
  walk_from-Adds total count result out (e ∷ entries) h =
      elim (Option-cases (skip_reason in_include in_exclude caps commit_sha e)) [
        | inr (reason, p) ↦
            let skip : SkippedFile = record { path = e.rel; reason = reason } in
            let (files, skipped, f, s, split) =
              walk_from-Adds total count _ out entries (rw (p, walk_from) at h) in
            (
              files,
              skip ∷ skipped,
              f,
              s ∙ append_assoc result.skipped (skip ∷ []) skipped,
              passed (skip_reason-Explains e reason p) split,
            )
        | inl p ↦
            elim (Bool-cases
              (is_over in_include in_exclude caps commit_sha (total + e.size) (suc count))) [
                | inl q ↦ absurd (none-ne-some (rw (p, walk_from, q) at h))
                | inr q ↦
                    let file = fetched in_include in_exclude caps commit_sha e in
                    let (files, skipped, f, s, split) =
                      walk_from-Adds (total + e.size) (suc count) _ out entries
                        (rw (p, walk_from, q) at h) in
                    (
                      file ∷ files,
                      skipped,
                      f ∙ append_assoc result.files (file ∷ []) files,
                      s,
                      taken (skip_reason-IsTaken e p) split,
                    )
              ]
      ]

-- A walk that does not raise has, in the order of the files, returned each as it is or recorded
-- its path with the test that it failed, and what it returned is within the caps on the number of
-- files and the bytes in total, each file is within the cap on a file, no hidden or denied path,
-- and matched by the include and by no exclude pattern.
pub walk-IsWithin :
    (in_include in_exclude : Text → Bool) (caps : IngestionCaps) (commit_sha : Option Text)
    (entries : List Entry) (out : FetchResult)
    → walk in_include in_exclude caps commit_sha entries ≡ some out
    → IsWithin in_include in_exclude caps commit_sha (length entries) out
      × IsSplit in_include in_exclude caps commit_sha entries out.files out.skipped
unfolding walk
walk-IsWithin in_include in_exclude caps commit_sha entries out h =
    let (files, skipped, f, s, split) =
      walk_from-Adds in_include in_exclude caps commit_sha 0 0 _ out entries h in
    (
      subst (λ (n : ℕ). IsWithin in_include in_exclude caps commit_sha n out) (omega arith)
          (walk_from-IsWithin in_include in_exclude caps commit_sha 0 0 _ out entries 0 refl refl
            (record {
              bytes = omega arith;
              count = omega arith;
              allowed = tt;
              complete = omega arith;
            })
            h),
      subst
          (λ (xs : List FetchedFile).
            IsSplit in_include in_exclude caps commit_sha entries xs out.skipped)
          (sym f)
          (subst
            (λ (xs : List SkippedFile).
              IsSplit in_include in_exclude caps commit_sha entries files xs)
            (sym s) split),
    )
