-- ===== src/Ingestion/Files/Rows.antt =====
-- The table of chunks under upserts and deletions, for ingestion/_file_processing.py: which hash
-- stands at an index of a document, and that identifiers stay distinct.
use cf_knowledge_kiln.Base.{
  ℕ, suc, ◌<◌, ◌≤◌, ◌==◌, Bool, true, false, not, ◌&&◌, Option, none, some, List, [], ◌∷◌, any, All,
  if◌then◌else◌, ◌≡◌, refl, sym, ap, subst, ◌∙◌, inl, inr, Bool-cases, arith, or_false,
}
use cf_knowledge_kiln.Base.Texts.{Text}
use cf_knowledge_kiln.Ingestion.Chunking.Document.{Chunk}
use cf_knowledge_kiln.Ingestion.Tables.{
  ChunkRow, upsert_row, existing_chunks, find_existing, orphan_ids, is_seen, has_id, delete_rows,
}

abbrev pub is_at : ℕ → ℕ → ChunkRow → Bool
is_at doc index row = (row.document_id == doc) && (row.chunk_index == index)

-- The hash that stands at an index of a document.
abbrev pub hash_at : ℕ → ℕ → List ChunkRow → Option Text
hash_at doc index [] = none
hash_at doc index (row ∷ rows) =
    let rest = hash_at doc index rows in if is_at doc index row then some row.content_hash else rest

-- The hash of the parsed chunk with an index.
abbrev pub hash_in : ℕ → List Chunk → Option Text
hash_in index [] = none
hash_in index (c ∷ cs) =
    let rest = hash_in index cs in if c.chunk_index == index then some c.content_hash else rest

pub find_existing-existing_chunks :
    (doc index : ℕ) (rows : List ChunkRow)
    → find_existing index (existing_chunks doc rows) ≡ hash_at doc index rows
unfolding existing_chunks
find_existing-existing_chunks doc index [] = refl
find_existing-existing_chunks doc index (row ∷ rows) =
    ground (arith, find_existing-existing_chunks doc index rows)

pub hash_at-upsert_row :
    (new : ChunkRow) (rows : List ChunkRow) (doc index : ℕ)
    → hash_at doc index (upsert_row new rows)
      ≡ (if is_at doc index new then some new.content_hash else hash_at doc index rows)
unfolding upsert_row
hash_at-upsert_row new [] doc index = refl
hash_at-upsert_row new (row ∷ rows) doc index =
    ground (arith, hash_at-upsert_row new rows doc index)

-- The identifiers are distinct, and all below the next one.
abbrev pub IsTable : ℕ → List ChunkRow → Type 0
IsTable next [] = Unit
IsTable next (row ∷ rows) =
    (row.id < next) × (any (λ r. r.id == row.id) rows ≡ false) × IsTable next rows

-- Every row is marked for deletion exactly if it belongs to the document and its index is not seen.
abbrev pub IsMarked : ℕ → List Chunk → List ℕ → ChunkRow → Type 0
IsMarked doc chunks ids row =
    has_id row.id ids ≡ ((row.document_id == doc) && not (is_seen chunks row.chunk_index))

eq_of_test : (a b : ℕ) → (a == b) ≡ true → a ≡ b
eq_of_test a b h = ground arith

pub hash_at-delete_rows :
    (doc : ℕ) (chunks : List Chunk) (ids : List ℕ) (rows : List ChunkRow) (d index : ℕ)
    → All (IsMarked doc chunks ids) rows
    → hash_at d index (delete_rows ids rows)
      ≡ (if (d == doc) && not (is_seen chunks index) then none else hash_at d index rows)
unfolding delete_rows
hash_at-delete_rows doc chunks ids [] d index h = ground arith
hash_at-delete_rows doc chunks ids (row ∷ rows) d index h =
    let seen_at : (row.chunk_index == index) ≡ true
        → is_seen chunks row.chunk_index ≡ is_seen chunks index =
      λ e. ap (is_seen chunks) (eq_of_test _ _ e) in
    ground (arith, hash_at-delete_rows doc chunks ids rows d index h.1, h.0, seen_at)

-- No orphan has an identifier that no row has.
pub has_id-orphan_ids :
    (doc : ℕ) (chunks : List Chunk) (rows : List ChunkRow) (x : ℕ)
    → any (λ r. r.id == x) rows ≡ false
    → has_id x (orphan_ids (existing_chunks doc rows) chunks) ≡ false
unfolding orphan_ids existing_chunks
has_id-orphan_ids doc chunks [] x h = refl
has_id-orphan_ids doc chunks (row ∷ rows) x h =
    let (first, rest) = or_false (row.id == x) _ h in
    ground (arith, has_id-orphan_ids doc chunks rows x rest)

more_ids :
    (doc : ℕ) (chunks : List Chunk) (ids : List ℕ) (x : ℕ) (rows : List ChunkRow)
    → any (λ r. r.id == x) rows ≡ false
    → All (IsMarked doc chunks ids) rows
    → All (IsMarked doc chunks (x ∷ ids)) rows
more_ids doc chunks ids x [] h m = tt
more_ids doc chunks ids x (row ∷ rows) h m =
    let (first, rest) = or_false (row.id == x) _ h in
    (ground (arith, m.0), more_ids doc chunks ids x rows rest m.1)

orphan_ids_cons :
    (doc : ℕ) (chunks : List Chunk) (row : ChunkRow) (rows : List ChunkRow)
    → orphan_ids (existing_chunks doc (row ∷ rows)) chunks ≡ (
        if (row.document_id == doc) && not (is_seen chunks row.chunk_index)
        then row.id ∷ orphan_ids (existing_chunks doc rows) chunks
        else orphan_ids (existing_chunks doc rows) chunks)
unfolding orphan_ids existing_chunks
orphan_ids_cons doc chunks row rows = elim (Bool-cases (row.document_id == doc)) [
  | inr d ↦ rw d refl
  | inl d ↦ elim (Bool-cases (is_seen chunks row.chunk_index)) [
    | inl e ↦ rw (d, e) refl
    | inr e ↦ rw (d, e) refl
  ]
]

-- A row that is deleted adds its own identifier.
marked_with :
    (doc : ℕ) (chunks : List Chunk) (ids : List ℕ) (row : ChunkRow) (rows : List ChunkRow)
    → has_id row.id ids ≡ false
    → any (λ r. r.id == row.id) rows ≡ false
    → All (IsMarked doc chunks ids) rows
    → (b : Bool) → b ≡ ((row.document_id == doc) && not (is_seen chunks row.chunk_index))
    → All (IsMarked doc chunks (if b then row.id ∷ ids else ids)) (row ∷ rows)
marked_with doc chunks ids row rows absent apart m true e =
    (ground (arith, e), more_ids doc chunks ids row.id rows apart m)
marked_with doc chunks ids row rows absent apart m false e = (absent ∙ e, m)

pub orphan_ids-IsMarked :
    (doc : ℕ) (chunks : List Chunk) (next : ℕ) (rows : List ChunkRow)
    → IsTable next rows
    → All (IsMarked doc chunks (orphan_ids (existing_chunks doc rows) chunks)) rows
orphan_ids-IsMarked doc chunks next [] t = tt
orphan_ids-IsMarked doc chunks next (row ∷ rows) (low, apart, t) =
    subst (λ ids. All (IsMarked doc chunks ids) (row ∷ rows))
      (sym (orphan_ids_cons doc chunks row rows))
      (marked_with doc chunks _ row rows (has_id-orphan_ids doc chunks rows row.id apart) apart
        (orphan_ids-IsMarked doc chunks next rows t) _ refl)

pub upsert_row-IsMarked :
    (doc : ℕ) (chunks : List Chunk) (ids : List ℕ) (new : ChunkRow) (rows : List ChunkRow)
    → new.document_id ≡ doc
    → is_seen chunks new.chunk_index ≡ true
    → has_id new.id ids ≡ false
    → All (IsMarked doc chunks ids) rows
    → All (IsMarked doc chunks ids) (upsert_row new rows)
unfolding upsert_row
upsert_row-IsMarked doc chunks ids new [] d e f m = (ground arith, tt)
upsert_row-IsMarked doc chunks ids new (row ∷ rows) d e f m =
    elim (Bool-cases (is_at new.document_id new.chunk_index row)) [
      | inl p ↦
          let same_index : row.chunk_index ≡ new.chunk_index = ground (arith, p) in
          let same_document : row.document_id ≡ new.document_id = ground (arith, p) in
          rw p (
            m.0
                ∙ ap (λ (i : ℕ). (row.document_id == doc) && not (is_seen chunks i)) same_index
                ∙ ap (λ (d : ℕ). (d == doc) && not (is_seen chunks new.chunk_index)) same_document,
            m.1,
          )
      | inr p ↦ rw p (m.0, upsert_row-IsMarked doc chunks ids new rows d e f m.1)
    ]

any-upsert_row :
    (new : ChunkRow) (rows : List ChunkRow) (x : ℕ)
    → (new.id == x) ≡ false
    → any (λ r. r.id == x) (upsert_row new rows) ≡ any (λ r. r.id == x) rows
unfolding upsert_row
any-upsert_row new [] x h = ground arith
any-upsert_row new (row ∷ rows) x h = ground (arith, any-upsert_row new rows x h)

pub beyond_table :
    (next x : ℕ) (rows : List ChunkRow)
    → IsTable next rows
    → next ≤ x
    → any (λ r. r.id == x) rows ≡ false
beyond_table next x [] t h = refl
beyond_table next x (row ∷ rows) (low, apart, t) h = ground (arith, beyond_table next x rows t h)

pub IsTable-grows : (next : ℕ) (rows : List ChunkRow) → IsTable next rows → IsTable (suc next) rows
IsTable-grows next [] t = tt
IsTable-grows next (row ∷ rows) (low, apart, t) = (omega arith, apart, IsTable-grows next rows t)

pub upsert_row-IsTable :
    (next : ℕ) (new : ChunkRow) (rows : List ChunkRow)
    → new.id ≡ next
    → IsTable next rows
    → IsTable (suc next) (upsert_row new rows)
unfolding upsert_row
upsert_row-IsTable next new [] e t = (omega arith, refl, tt)
upsert_row-IsTable next new (row ∷ rows) e (low, apart, t) =
    elim (Bool-cases (is_at new.document_id new.chunk_index row)) [
      | inl p ↦ rw p (omega arith, apart, IsTable-grows next rows t)
      | inr p ↦ rw p (
        omega arith,
        any-upsert_row new rows row.id (ground arith) ∙ apart,
        upsert_row-IsTable next new rows e t,
      )
    ]

any-delete_rows :
    (ids : List ℕ) (rows : List ChunkRow) (x : ℕ)
    → any (λ r. r.id == x) rows ≡ false
    → any (λ r. r.id == x) (delete_rows ids rows) ≡ false
unfolding delete_rows
any-delete_rows ids [] x h = refl
any-delete_rows ids (row ∷ rows) x h =
    let (first, rest) = or_false (row.id == x) _ h in
    ground (arith, any-delete_rows ids rows x rest)

pub delete_rows-IsTable :
    (ids : List ℕ) (next : ℕ) (rows : List ChunkRow)
    → IsTable next rows
    → IsTable next (delete_rows ids rows)
unfolding delete_rows
delete_rows-IsTable ids next [] t = tt
delete_rows-IsTable ids next (row ∷ rows) (low, apart, t) = elim (Bool-cases (has_id row.id ids)) [
  | inl p ↦ rw p (delete_rows-IsTable ids next rows t)
  | inr p ↦ rw p (low, any-delete_rows ids rows row.id apart, delete_rows-IsTable ids next rows t)
]
