-- ===== src/Store/Removal/Keys.antt =====
-- The rows of storage/mock/store.py stand under their own ids, each once: its writes keep that so.
use diary_memory_service.Base.{
  ◌≡◌, refl, ◌∙◌, sym, some, [], ◌∷◌, inl, inr, KeyEquality, ◌==◌, eq_of_beq, Bool-cases,
  Option-cases, text_eq, text_pair_eq, message_key_eq, arith,
}
use diary_memory_service.Base.Text.{Text}
use diary_memory_service.Base.Dict.{Dict, lookup, insert, contains, lookup-insert}
use diary_memory_service.Models.{
  SourceMessage, Note, EventChunk, EmbeddingRecord, EmbeddingStatus, LifecycleState,
  IndexingDeadLetter, Query, RetrievalHit, AnswerTrace,
}
use diary_memory_service.Store.{MockDomainStore}
use diary_memory_service.Store.Sources.{put_source}
use diary_memory_service.Store.Notes.{save_note, mark_note}
use diary_memory_service.Store.Chunks.{
  save_event_chunk, save_embedding_record, set_chunk_embedding_status, mark_chunk,
  save_indexing_dead_letter,
}
use diary_memory_service.Store.Traces.{save_query, save_retrieval_hit, save_answer_trace}
use diary_memory_service.Store.Removal.Erased.{Distinct, Keyed, discard-Distinct, discard-Keyed}
use diary_memory_service.Store.Removal.Purged.{IsWellKeyed, purged}

module _ {K V : Type 0} ⦃e : KeyEquality K⦄ where
  pub insert-Distinct : (k : K) (v : V) (d : Dict K V) → Distinct d → Distinct (insert k v d)
  insert-Distinct k v [] h = (refl, tt)
  insert-Distinct k v ((j, w) ∷ d) h = elim (Bool-cases (j == k)) [
    | inl same ↦ rw same h
    | inr other ↦ rw other (
      ground (arith, lookup-insert k j v d, e.equals_iff j k, e.equals_iff k j, h.0),
      insert-Distinct k v d h.1,
    )
  ]

  pub insert-Keyed :
      (id : V → K) (k : K) (v : V) (d : Dict K V) → id v ≡ k → Keyed id d → Keyed id (insert k v d)
  insert-Keyed id k v [] p h = (p, tt)
  insert-Keyed id k v ((j, w) ∷ d) p h = elim (Bool-cases (j == k)) [
    | inl same ↦ rw same (p ∙ sym (eq_of_beq j k same), h.1)
    | inr other ↦ rw other (h.0, insert-Keyed id k v d p h.1)
  ]

  pub lookup-Keyed :
      (id : V → K) (k : K) (v : V) (d : Dict K V) → Keyed id d → lookup k d ≡ some v → id v ≡ k
  lookup-Keyed id k v [] h p = cc
  lookup-Keyed id k v ((j, w) ∷ d) h p =
      ground (arith, h.0, e.equals_iff j k, lookup-Keyed id k v d h.1)

module _ (s : MockDomainStore) (h : IsWellKeyed s) where
  pub put_source-IsWellKeyed : (source : SourceMessage) → IsWellKeyed (put_source source s)
  unfolding put_source
  put_source-IsWellKeyed source = h

  pub save_chunk-IsWellKeyed : (c : EventChunk) → IsWellKeyed (save_event_chunk c s).1
  save_chunk-IsWellKeyed c = (
    h.0,
    h.1,
    insert-Distinct c.chunk_id c s.chunks h.2,
    insert-Keyed (λ x. x.chunk_id) c.chunk_id c s.chunks refl h.3,
    h.4,
    h.5,
    h.6,
  )

  pub save_note-IsWellKeyed : (n : Note) → IsWellKeyed (save_note n s).1
  unfolding save_note
  save_note-IsWellKeyed n = (
    insert-Distinct n.note_id n s.notes h.0,
    insert-Keyed (λ x. x.note_id) n.note_id n s.notes refl h.1,
    h.2,
    h.3,
    h.4,
    h.5,
    h.6,
  )

  with_note-IsWellKeyed :
      (id : Text) (n : Note)
      → n.note_id ≡ id
      → IsWellKeyed (record s { notes = insert id n s.notes })
  with_note-IsWellKeyed id n p = (
    insert-Distinct id n s.notes h.0,
    insert-Keyed (λ x. x.note_id) id n s.notes p h.1,
    h.2,
    h.3,
    h.4,
    h.5,
    h.6,
  )

  with_chunk-IsWellKeyed :
      (id : Text) (c : EventChunk)
      → c.chunk_id ≡ id
      → IsWellKeyed (record s { chunks = insert id c s.chunks })
  with_chunk-IsWellKeyed id c p = (
    h.0,
    h.1,
    insert-Distinct id c s.chunks h.2,
    insert-Keyed (λ x. x.chunk_id) id c s.chunks p h.3,
    h.4,
    h.5,
    h.6,
  )

  pub mark_note-IsWellKeyed :
      (state : LifecycleState) (id c : Text) → IsWellKeyed (mark_note state id c s).1
  unfolding mark_note
  mark_note-IsWellKeyed state id c = elim (Option-cases (lookup id s.notes)) [
    | inl absent ↦ ground (arith, h)
    | inr (n, found) ↦ ground (
      arith,
      h,
      with_note-IsWellKeyed id (record n { lifecycle_state = state })
          (lookup-Keyed (λ x. x.note_id) id n s.notes h.1 found),
    )
  ]

  pub mark_chunk-IsWellKeyed :
      (state : LifecycleState) (id c : Text) → IsWellKeyed (mark_chunk state id c s).1
  unfolding mark_chunk
  mark_chunk-IsWellKeyed state id c = elim (Option-cases (lookup id s.chunks)) [
    | inl absent ↦ ground (arith, h)
    | inr (k, found) ↦ ground (
      arith,
      h,
      with_chunk-IsWellKeyed id (record k { lifecycle_state = state })
          (lookup-Keyed (λ x. x.chunk_id) id k s.chunks h.3 found),
    )
  ]

  pub set_status-IsWellKeyed :
      (id : Text) (status : EmbeddingStatus)
      → IsWellKeyed (set_chunk_embedding_status id status s).1
  unfolding set_chunk_embedding_status
  set_status-IsWellKeyed id status = elim (Option-cases (lookup id s.chunks)) [
    | inl absent ↦ rw (set_chunk_embedding_status, absent) h
    | inr (k, found) ↦
        rw (set_chunk_embedding_status, found)
          (with_chunk-IsWellKeyed id (record k { embedding_status = status })
            (lookup-Keyed (λ x. x.chunk_id) id k s.chunks h.3 found))
  ]

  pub save_embedding_record-IsWellKeyed :
      (r : EmbeddingRecord) → IsWellKeyed (save_embedding_record r s).1
  save_embedding_record-IsWellKeyed r =
      elim (Bool-cases (contains (r.chunk_id, r.model_name) s.embeddings)) [
        | inl taken ↦ rw taken h
        | inr free ↦ rw free (
          h.0,
          h.1,
          h.2,
          h.3,
          h.4,
          h.5,
          insert-Distinct (r.chunk_id, r.model_name) r s.embeddings h.6,
        )
      ]

  pub save_hit-IsWellKeyed : (x : RetrievalHit) → IsWellKeyed (save_retrieval_hit x s).1
  unfolding save_retrieval_hit
  save_hit-IsWellKeyed x = elim (Bool-cases (contains x.retrieval_hit_id s.retrieval_hits)) [
    | inl taken ↦ rw taken h
    | inr free ↦ rw free (
      h.0,
      h.1,
      h.2,
      h.3,
      insert-Distinct x.retrieval_hit_id x s.retrieval_hits h.4,
      insert-Keyed (λ y. y.retrieval_hit_id) x.retrieval_hit_id x s.retrieval_hits refl h.5,
      h.6,
    )
  ]

  pub save_letter-IsWellKeyed :
      (d : IndexingDeadLetter) → IsWellKeyed (save_indexing_dead_letter d s).1
  unfolding save_indexing_dead_letter
  save_letter-IsWellKeyed d = elim (Bool-cases (contains d.dead_letter_id s.dead_letters)) [
    | inl taken ↦ rw taken h
    | inr free ↦ rw free h
  ]

  pub save_query-IsWellKeyed : (q : Query) → IsWellKeyed (save_query q s).1
  unfolding save_query
  save_query-IsWellKeyed q = elim (Bool-cases (contains q.query_id s.queries)) [
    | inl taken ↦ rw taken h
    | inr free ↦ rw free h
  ]

  pub save_trace-IsWellKeyed : (t : AnswerTrace) → IsWellKeyed (save_answer_trace t s).1
  unfolding save_answer_trace
  save_trace-IsWellKeyed t = elim (Bool-cases (contains t.query_id s.answer_traces)) [
    | inl taken ↦ rw taken h
    | inr free ↦ rw free h
  ]

  pub purged-IsWellKeyed : (id : Text) (source : SourceMessage) → IsWellKeyed (purged id source s)
  purged-IsWellKeyed id source = (
    discard-Distinct _ s.notes h.0,
    discard-Keyed _ (λ n. n.note_id) s.notes h.1,
    discard-Distinct _ s.chunks h.2,
    discard-Keyed _ (λ c. c.chunk_id) s.chunks h.3,
    discard-Distinct _ s.retrieval_hits h.4,
    discard-Keyed _ (λ x. x.retrieval_hit_id) s.retrieval_hits h.5,
    discard-Distinct _ s.embeddings h.6,
  )
