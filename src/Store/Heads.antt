-- ===== src/Store/Heads.antt =====
-- What a replay reads of the store: each note's source and date, and each chunk's source; and how
-- the methods of storage/mock/store.py treat it.
use diary_memory_service.Base.{
  ℕ, ◌≡◌, refl, ◌∙◌, ap, Option, none, some, List, [], ◌∷◌, ◌++◌, map, inl, inr, keep, length,
  find?, Option-cases, arith, ◌==◌, text_eq, if◌then◌else◌,
}
use mathlib.Core.List.{map-append}
use diary_memory_service.Base.Text.{Text}
use diary_memory_service.Base.Dict.{lookup, values, values-insert_new, map-values-insert_same}
use diary_memory_service.Exec.{Result, for_each}
use diary_memory_service.Models.{
  Date, Note, EventChunk, EmbeddingRecord, EmbeddingStatus, LifecycleState, IndexingDeadLetter,
}
use diary_memory_service.Store.{MockDomainStore}
use diary_memory_service.Store.Notes.{save_note, mark_note, get_note_by_source_message_id}
use diary_memory_service.Store.Chunks.{
  save_embedding_record, save_embedding_records, set_chunk_embedding_status, mark_chunk,
  save_indexing_dead_letter, count_event_chunks_for_source,
}

abbrev pub note_head : Note → Text × Date
note_head n = (n.source_message_id, n.note_date)

abbrev pub chunk_head : EventChunk → Text
chunk_head c = c.source_message_id

unfoldable pub note_heads : MockDomainStore → List (Text × Date)
note_heads s = map note_head (values s.notes)

unfoldable pub chunk_heads : MockDomainStore → List Text
chunk_heads s = map chunk_head (values s.chunks)

abbrev pub SameHeads : MockDomainStore → MockDomainStore → Type 0
SameHeads s t = (note_heads t ≡ note_heads s) × (chunk_heads t ≡ chunk_heads s)

-- The date of the first note of a source.
abbrev pub head_date : Text → List (Text × Date) → Option Date
head_date id [] = none
head_date id ((i, d) ∷ hs) = if i == id then some d else head_date id hs

abbrev pub count_heads : Text → List Text → ℕ
count_heads id hs = length (keep (λ i. i == id) hs)

abbrev pub date_of_note : Option Note → Option Date
date_of_note none = none
date_of_note (some n) = some n.note_date

find-head_date :
    (id : Text) (ns : List Note)
    → date_of_note (find? (λ n. n.source_message_id == id) ns) ≡ head_date id (map note_head ns)
find-head_date id [] = refl
find-head_date id (n ∷ ns) = ground (arith, find-head_date id ns)

keep-count_heads :
    (id : Text) (cs : List EventChunk)
    → length (keep (λ c. c.source_message_id == id) cs) ≡ count_heads id (map chunk_head cs)
keep-count_heads id [] = refl
keep-count_heads id (c ∷ cs) = ground (arith, keep-count_heads id cs)

pub date-get_note :
    (id : Text) (s : MockDomainStore)
    → date_of_note (get_note_by_source_message_id id s) ≡ head_date id (note_heads s)
unfolding get_note_by_source_message_id note_heads
date-get_note id s = find-head_date id (values s.notes)

pub count-chunks :
    (id : Text) (s : MockDomainStore)
    → count_event_chunks_for_source id s ≡ count_heads id (chunk_heads s)
unfolding count_event_chunks_for_source chunk_heads
count-chunks id s = keep-count_heads id (values s.chunks)

pub for_each-SameHeads :
    {A : Type 0} (body : A → MockDomainStore → Result (Unit {0}) × MockDomainStore) (xs : List A)
    (s : MockDomainStore)
    → ((x : A) (t : MockDomainStore) → SameHeads t (body x t).1)
    → SameHeads s (for_each body xs s).1
for_each-SameHeads body [] s h = (refl, refl)
for_each-SameHeads body (x ∷ xs) s h =
    ground (arith, h x s, for_each-SameHeads body xs (body x s).1 h)

module _ (s : MockDomainStore) where
  pub mark_note-SameHeads :
      (state : LifecycleState) (id c : Text) → SameHeads s (mark_note state id c s).1
  unfolding mark_note note_heads chunk_heads
  mark_note-SameHeads state id c = elim (Option-cases (lookup id s.notes)) [
    | inl absent ↦ ground arith
    | inr (n, found) ↦ ground (
      arith,
      map-values-insert_same note_head id n (record n { lifecycle_state = state }) s.notes found,
    )
  ]

  pub mark_chunk-SameHeads :
      (state : LifecycleState) (id c : Text) → SameHeads s (mark_chunk state id c s).1
  unfolding mark_chunk note_heads chunk_heads
  mark_chunk-SameHeads state id c = elim (Option-cases (lookup id s.chunks)) [
    | inl absent ↦ ground arith
    | inr (n, found) ↦ ground (
      arith,
      map-values-insert_same chunk_head id n (record n { lifecycle_state = state }) s.chunks found,
    )
  ]

  pub set_chunk_embedding_status-SameHeads :
      (id : Text) (status : EmbeddingStatus)
      → SameHeads s (set_chunk_embedding_status id status s).1
  unfolding set_chunk_embedding_status note_heads chunk_heads
  set_chunk_embedding_status-SameHeads id status = elim (Option-cases (lookup id s.chunks)) [
    | inl absent ↦ ground arith
    | inr (n, found) ↦ ground (
      arith,
      map-values-insert_same chunk_head id n (record n { embedding_status = status }) s.chunks
          found,
    )
  ]

  pub save_indexing_dead_letter-SameHeads :
      (r : IndexingDeadLetter) → SameHeads s (save_indexing_dead_letter r s).1
  unfolding save_indexing_dead_letter note_heads chunk_heads
  save_indexing_dead_letter-SameHeads r = ground arith

  pub save_embedding_records-SameHeads :
      (records : List EmbeddingRecord) → SameHeads s (save_embedding_records records s).1
  unfolding save_embedding_records note_heads chunk_heads
  save_embedding_records-SameHeads records =
      for_each-SameHeads save_embedding_record records s (λ x t. ground arith)

  pub save_note-heads :
      (note : Note)
      → lookup note.note_id s.notes ≡ none
      → (note_heads (save_note note s).1 ≡ note_heads s ++ note_head note ∷ [])
        × (chunk_heads (save_note note s).1 ≡ chunk_heads s)
  unfolding save_note note_heads chunk_heads
  save_note-heads note fresh = (
    ap (map note_head) (values-insert_new note.note_id note s.notes fresh)
        ∙ map-append note_head (values s.notes) (note ∷ []),
    refl,
  )
