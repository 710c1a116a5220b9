-- ===== src/Ingestion/Files/Convergence.antt =====
-- After a file was processed, its document's chunks are the parsed ones:
-- src/cf_knowledge_kiln/ingestion/_file_processing.py.
use cf_knowledge_kiln.Base.{
  ℕ, suc, ◌<◌, ◌≤◌, ◌==◌, Bool, true, false, not, ◌&&◌, Option, none, some, List, [], ◌∷◌, All,
  All-self, All-weaken, IsAmong, if◌then◌else◌, ◌≡◌, refl, sym, ap, ◌∙◌, inl, inr, Bool-cases,
  arith,
}
use cf_knowledge_kiln.Base.Texts.{Text, same_sound}
use cf_knowledge_kiln.Ingestion.Chunking.Document.{Chunk, IsNumbered}
use cf_knowledge_kiln.Ingestion.Tables.{
  Database, IngestionSummary, existing_chunks, find_existing, has_hash, orphan_ids, is_seen, has_id,
}
use cf_knowledge_kiln.Ingestion.Files.{Reader, chunk_row, write_chunk, write_chunks, replace_chunks}
use cf_knowledge_kiln.Ingestion.Files.Rows.{
  hash_at, hash_in, IsTable, IsMarked, find_existing-existing_chunks, hash_at-upsert_row,
  hash_at-delete_rows, has_id-orphan_ids, orphan_ids-IsMarked, upsert_row-IsMarked,
  upsert_row-IsTable, delete_rows-IsTable, beyond_table,
}

-- The first of two that is there.
abbrev pub either : Option Text → Option Text → Option Text
either none o = o
either (some h) o = some h

has_hash-true : (o : Option Text) (hash : Text) → has_hash o hash ≡ true → o ≡ some hash
has_hash-true none hash h = cc
has_hash-true (some x) hash h = ap some (same_sound x hash h)

-- Numbered chunks have no smaller index.
pub hash_in_below :
    (n : ℕ) (chunks : List Chunk) (j : ℕ) → IsNumbered n chunks → j < n → hash_in j chunks ≡ none
hash_in_below n [] j h l = refl
hash_in_below n (c ∷ cs) j h l =
    let rest = hash_in_below (suc n) cs j h.1 (omega arith) in ground (arith, rest, h.0)

-- A hash that is written now against those written later.
merge :
    (o p x : Option Text) (hash : Text) (a b : Bool)
    → (b ≡ true → o ≡ none)
    → p ≡ (if a && b then some hash else x)
    → (if a then either o p else p) ≡ (if a then either (if b then some hash else o) x else x)
merge o p x hash false b absent e = e
merge o p x hash true false absent e = ap (either o) e
merge o p x hash true true absent e = ap (λ o. either o p) (absent refl) ∙ e

seen_alone :
    (chunks : List Chunk) (j : ℕ) (x : Option Text)
    → (if is_seen chunks j then either (hash_in j chunks) x else none) ≡ hash_in j chunks
seen_alone [] j x = refl
seen_alone (c ∷ cs) j x = ground (arith, seen_alone cs j x)

seen_among :
    (c : Chunk) (chunks : List Chunk) → IsAmong c chunks → is_seen chunks c.chunk_index ≡ true
seen_among c [] a = absurd a
seen_among c (x ∷ xs) (inl e) = rw (sym (ap (λ (k : Chunk). k.chunk_index) e)) (ground arith)
seen_among c (x ∷ xs) (inr a) = ground (arith, seen_among c xs a)

-- The loop's result, less what was deleted.
settle :
    (w x h : Option Text) (mine own seen : Bool)
    → mine ≡ own
    → w ≡ (if own then either h x else x)
    → (if seen then either h x else none) ≡ h
    → (if mine && not seen then none else w) ≡ (if own then h else x)
settle w x h mine false seen e f g = rw e f
settle w x h mine true true e f g = rw e (f ∙ g)
settle w x h mine true false e f g = rw e g

==_sym : (a b : ℕ) → (a == b) ≡ (b == a)
==_sym a b = ground arith

module _ (reader : Reader) (phrases patterns : List Text) (doc : ℕ) where
  write_chunk-hash_at :
      (existing : List (ℕ × ℕ × Text)) (c : Chunk) (db : Database) (s : IngestionSummary) (d j : ℕ)
      → find_existing c.chunk_index existing ≡ hash_at doc c.chunk_index db.chunks
      → hash_at d j (write_chunk reader phrases patterns doc existing c (db, s)).0.chunks ≡ (
          if (doc == d) && (c.chunk_index == j) then some c.content_hash else hash_at d j db.chunks)
  unfolding chunk_row
  write_chunk-hash_at existing c db s d j e =
      elim (Bool-cases (has_hash (find_existing c.chunk_index existing) c.content_hash)) [
        | inr p ↦
            rw p (
              hash_at-upsert_row (chunk_row reader phrases patterns db.next_id doc c) db.chunks d j)
        | inl p ↦ rw p (
            there (doc == d) (c.chunk_index == j) (λ h k.
              ap (λ i. hash_at i j db.chunks) (sym (eq_of_test doc d h))
              ∙ ap (λ i. hash_at doc i db.chunks) (sym (eq_of_test c.chunk_index j k))
              ∙ sym e
              ∙ has_hash-true _ _ p))
      ]
    where
      eq_of_test : (a b : ℕ) → (a == b) ≡ true → a ≡ b
      eq_of_test a b h = ground arith

      there :
          {o : Option Text} {hash : Text} (a b : Bool)
          → (a ≡ true → b ≡ true → o ≡ some hash)
          → o ≡ (if a && b then some hash else o)
      there true true f = f refl refl
      there true false f = refl
      there false b f = refl

  -- The loop writes the hash of each parsed chunk and leaves every other one.
  write_chunks-hash_at :
      (existing : List (ℕ × ℕ × Text)) (n : ℕ) (cs : List Chunk)
      (state : Database × IngestionSummary) (d j : ℕ)
      → IsNumbered n cs
      → ((i : ℕ) → n ≤ i → find_existing i existing ≡ hash_at doc i state.0.chunks)
      → hash_at d j (write_chunks reader phrases patterns doc existing cs state).0.chunks ≡ (
          if doc == d
          then either (hash_in j cs) (hash_at d j state.0.chunks)
          else hash_at d j state.0.chunks)
  write_chunks-hash_at existing n [] state d j h e = ground arith
  write_chunks-hash_at existing n (c ∷ cs) (db, s) d j (number, h) e =
      let agrees = e c.chunk_index (omega (arith, number)) in
      let next = write_chunk reader phrases patterns doc existing c (db, s) in
      let now = write_chunk-hash_at existing c db s d j agrees in
      let later = write_chunks-hash_at existing (suc n) cs next d j h (λ i l.
        e i (omega arith)
        ∙ sym (
            write_chunk-hash_at existing c db s doc i agrees
            ∙ rw (not_here (doc == doc) c.chunk_index i (omega (arith, number))) refl)) in
      let absent = hash_in_below (suc n) cs j h in
      later
      ∙ merge (hash_in j cs) _ _ c.content_hash (doc == d) (c.chunk_index == j)
          (λ k. absent (below c.chunk_index j n number k)) now
    where
      not_here : (b : Bool) (a i : ℕ) → a < i → (b && (a == i)) ≡ false
      not_here b a i l = ground arith

      below : (i j n : ℕ) → i ≡ n → (i == j) ≡ true → j < suc n
      below i j n h k = ground arith

  -- What the loop keeps of the table.
  pub record IsWritten (chunks : List Chunk) (ids : List ℕ) (low : ℕ) (db : Database) : Type 0 where
    pub table : IsTable db.next_id db.chunks
    pub marked : All (IsMarked doc chunks ids) db.chunks
    pub above : low ≤ db.next_id

  write_chunk-IsWritten :
      (existing : List (ℕ × ℕ × Text)) (chunks : List Chunk) (ids : List ℕ) (low : ℕ) (c : Chunk)
      (state : Database × IngestionSummary)
      → is_seen chunks c.chunk_index ≡ true
      → ((x : ℕ) → low ≤ x → has_id x ids ≡ false)
      → IsWritten chunks ids low state.0
      → IsWritten chunks ids low (write_chunk reader phrases patterns doc existing c state).0
  unfolding chunk_row
  write_chunk-IsWritten existing chunks ids low c (db, s) seen free w =
      elim (Bool-cases (has_hash (find_existing c.chunk_index existing) c.content_hash)) [
        | inl p ↦ rw p w
        | inr p ↦
            let new = chunk_row reader phrases patterns db.next_id doc c in
            rw p (record {
              table = upsert_row-IsTable db.next_id new db.chunks refl w.table;
              marked =
                  upsert_row-IsMarked doc chunks ids new db.chunks refl seen
                    (free db.next_id w.above) w.marked;
              above = up low db.next_id w.above;
            })
      ]
    where
      up : (a b : ℕ) → a ≤ b → a ≤ suc b
      up a b h = omega arith

  write_chunks-IsWritten :
      (existing : List (ℕ × ℕ × Text)) (chunks : List Chunk) (ids : List ℕ) (low : ℕ)
      (cs : List Chunk) (state : Database × IngestionSummary)
      → All (λ (c : Chunk). is_seen chunks c.chunk_index ≡ true) cs
      → ((x : ℕ) → low ≤ x → has_id x ids ≡ false)
      → IsWritten chunks ids low state.0
      → IsWritten chunks ids low (write_chunks reader phrases patterns doc existing cs state).0
  write_chunks-IsWritten existing chunks ids low [] state seen free w = w
  write_chunks-IsWritten existing chunks ids low (c ∷ cs) state seen free w =
      write_chunks-IsWritten existing chunks ids low cs _ seen.1 free
        (write_chunk-IsWritten existing chunks ids low c state seen.0 free w)

  -- The loop of a replacement, from a well-formed table on.
  pub loop-IsWritten :
      (chunks : List Chunk) (db : Database) (s : IngestionSummary)
      → IsTable db.next_id db.chunks
      → IsWritten chunks
          (orphan_ids (existing_chunks doc db.chunks) chunks)
          db.next_id
          (write_chunks reader phrases patterns doc
            (existing_chunks doc db.chunks)
            chunks
            (db, s)).0
  loop-IsWritten chunks db s table =
      let existing = existing_chunks doc db.chunks in
      let ids = orphan_ids existing chunks in
      write_chunks-IsWritten existing chunks ids db.next_id chunks (db, s)
        (All-weaken _ _ chunks (λ c a. seen_among c chunks a) (All-self chunks))
        (λ x l.
          has_id-orphan_ids doc chunks db.chunks x (beyond_table db.next_id x db.chunks table l))
        (record {
          table = table;
          marked = orphan_ids-IsMarked doc chunks db.next_id db.chunks table;
          above = omega arith;
        })

  -- The whole replacement: the document has the parsed chunks, every other document its own.
  pub replace_chunks-hash_at :
      (chunks : List Chunk) (db : Database) (s : IngestionSummary) (d j : ℕ)
      → IsNumbered 0 chunks
      → IsTable db.next_id db.chunks
      → hash_at d j (replace_chunks reader phrases patterns doc chunks (db, s)).0.chunks
        ≡ (if doc == d then hash_in j chunks else hash_at d j db.chunks)
  unfolding replace_chunks
  replace_chunks-hash_at chunks db s d j numbered table =
      let existing = existing_chunks doc db.chunks in
      let ids = orphan_ids existing chunks in
      let written = loop-IsWritten chunks db s table in
      let deleted =
        hash_at-delete_rows doc chunks ids
          (write_chunks reader phrases patterns doc existing chunks (db, s)).0.chunks d j
          written.marked in
      let looped =
        write_chunks-hash_at existing 0 chunks (db, s) d j numbered
          (λ i l. find_existing-existing_chunks doc i db.chunks) in
      deleted
      ∙ settle _ _ (hash_in j chunks) (d == doc) (doc == d) (is_seen chunks j) (==_sym d doc) looped
          (seen_alone chunks j (hash_at d j db.chunks))

  pub replace_chunks-IsTable :
      (chunks : List Chunk) (db : Database) (s : IngestionSummary)
      → IsTable db.next_id db.chunks
      → IsTable
          (replace_chunks reader phrases patterns doc chunks (db, s)).0.next_id
          (replace_chunks reader phrases patterns doc chunks (db, s)).0.chunks
  unfolding replace_chunks
  replace_chunks-IsTable chunks db s table =
      let existing = existing_chunks doc db.chunks in
      let ids = orphan_ids existing chunks in
      let written = loop-IsWritten chunks db s table in delete_rows-IsTable ids _ _ written.table

  write_chunks-documents :
      (existing : List (ℕ × ℕ × Text)) (cs : List Chunk) (state : Database × IngestionSummary)
      → (write_chunks reader phrases patterns doc existing cs state).0.documents ≡ state.0.documents
  write_chunks-documents existing [] state = refl
  write_chunks-documents existing (c ∷ cs) (db, s) =
      write_chunks-documents existing cs _
      ∙ elim (Bool-cases (has_hash (find_existing c.chunk_index existing) c.content_hash)) [
        | inl p ↦ rw p refl
        | inr p ↦ rw p refl
      ]

  pub replace_chunks-documents :
      (chunks : List Chunk) (db : Database) (s : IngestionSummary)
      → (replace_chunks reader phrases patterns doc chunks (db, s)).0.documents ≡ db.documents
  unfolding replace_chunks
  replace_chunks-documents chunks db s =
      write_chunks-documents (existing_chunks doc db.chunks) chunks (db, s)
