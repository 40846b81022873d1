-- ===== src/Reconciliation/Embedded.antt =====
-- What a retry run leaves in the store, services/reconciliation.py.
use diary_memory_service.Base.{
  ℕ, suc, Bool, ◌∙◌, true, ◌≡◌, refl, ap, some, none, Option, List, [], ◌∷◌, All, All-map, length,
  nat_beq, eq_of_beq, nat_eq, ◌==◌, text_eq, text_pair_eq, inl, inr, Bool-cases, arith,
  if◌then◌else◌,
}
use diary_memory_service.Base.Text.{Text}
use diary_memory_service.Base.Dict.{
  Dict, lookup, insert, contains, lookup-insert, lookup-insert_self,
}
use diary_memory_service.Exec.{key_error, Exec, Result, ok, raised, for_each}
use diary_memory_service.Exec.Invariants.{
  Preserves, Leaves, bind-Leaves, for_each-All, for_each-Preserves,
}
use diary_memory_service.Models.{
  Float, EventChunk, EmbeddingRecord, EmbeddingStatus, IndexingDeadLetter, ready,
}
use diary_memory_service.Store.{MockDomainStore}
use diary_memory_service.Store.Chunks.{
  save_embedding_record, save_embedding_records, set_chunk_embedding_status,
  save_indexing_dead_letter,
}
use diary_memory_service.DomainService.{EmbeddingClient}
use diary_memory_service.DomainService.Embedding.{embedding_records}
use diary_memory_service.Reconciliation.{RetryDraws, embed_group}

-- The chunk is stored as ready.
abbrev pub IsReady : Text → MockDomainStore → Type 0
IsReady id s = (c : EventChunk) × (lookup id s.chunks ≡ some c) × (c.embedding_status ≡ ready)

-- The chunk has an embedding of the model.
abbrev pub HasVector : Text → Text → MockDomainStore → Type 0
HasVector id model s = contains (id, model) s.embeddings ≡ true

record_saved-HasVector :
    (id model : Text) (r : EmbeddingRecord)
    → Preserves (HasVector id model) (save_embedding_record r)
record_saved-HasVector id model r s h =
    elim (Bool-cases (contains (r.chunk_id, r.model_name) s.embeddings)) [
      | inl taken ↦ rw taken h
      | inr free ↦
          rw free
            (ground (arith, h, lookup-insert (r.chunk_id, r.model_name) (id, model) r s.embeddings))
    ]

contains-insert_self :
    (k : Text × Text) (r : EmbeddingRecord) (d : Dict (Text × Text) EmbeddingRecord)
    → contains k (insert k r d) ≡ true
contains-insert_self k r d = ground (arith, lookup-insert_self k r d)

record_saved-Leaves :
    (r : EmbeddingRecord) (s : MockDomainStore)
    → Leaves (λ u. HasVector r.chunk_id r.model_name) (save_embedding_record r s)
record_saved-Leaves r s = elim (Bool-cases (contains (r.chunk_id, r.model_name) s.embeddings)) [
  | inl taken ↦ rw taken tt
  | inr free ↦ rw free (contains-insert_self (r.chunk_id, r.model_name) r s.embeddings)
]

status_set-HasVector :
    (id model i : Text) (status : EmbeddingStatus)
    → Preserves (HasVector id model) (set_chunk_embedding_status i status)
unfolding set_chunk_embedding_status
status_set-HasVector id model i status s h = ground (arith, h)

status_set-IsReady : (id i : Text) → Preserves (IsReady id) (set_chunk_embedding_status i ready)
unfolding set_chunk_embedding_status
status_set-IsReady id i s (c, found, done) = go (lookup i s.chunks)
  where
    other_or : (old : EventChunk) → Bool → Option EventChunk
    other_or old b =
        if b then some (record old { embedding_status = ready }) else lookup id s.chunks

    written :
        (old : EventChunk)
        → IsReady id
            (record s { chunks = insert i (record old { embedding_status = ready }) s.chunks })
    written old = elim (Bool-cases (i == id)) [
      | inl same ↦ (
        record old { embedding_status = ready },
        lookup-insert i id (record old { embedding_status = ready }) s.chunks
            ∙ ap (other_or old) same,
        refl,
      )
      | inr other ↦ (
        c,
        lookup-insert i id (record old { embedding_status = ready }) s.chunks
            ∙ ap (other_or old) other
            ∙ found,
        done,
      )
    ]

    go :
        (o : Option EventChunk)
        → IsReady id
            (elim o as (λ x. Result (Unit {0}) × MockDomainStore) [
              | none ↦ (raised key_error, s)
              | some existing ↦ (
                ok tt,
                record s {
                  chunks = insert i (record existing { embedding_status = ready }) s.chunks;
                },
              )
            ]).1
    go none = (c, found, done)
    go (some old) = written old

status_set-Leaves :
    (i : Text) (s : MockDomainStore)
    → Leaves (λ u. IsReady i) (set_chunk_embedding_status i ready s)
unfolding set_chunk_embedding_status
status_set-Leaves i s = go (lookup i s.chunks)
  where
    go :
        (o : Option EventChunk)
        → Leaves
            (λ u. IsReady i)
            (elim o as (λ x. Result (Unit {0}) × MockDomainStore) [
              | none ↦ (raised key_error, s)
              | some existing ↦ (
                ok tt,
                record s {
                  chunks = insert i (record existing { embedding_status = ready }) s.chunks;
                },
              )
            ])
    go none = tt
    go (some old) = (
      record old { embedding_status = ready },
      lookup-insert_self i (record old { embedding_status = ready }) s.chunks,
      refl,
    )

record_saved-IsReady :
    (id : Text) (r : EmbeddingRecord) → Preserves (IsReady id) (save_embedding_record r)
record_saved-IsReady id r s h =
    elim (Bool-cases (contains (r.chunk_id, r.model_name) s.embeddings)) [
      | inl taken ↦ rw taken h
      | inr free ↦ rw free h
    ]

pub letter_saved-Preserves :
    (id model : Text) (d : IndexingDeadLetter)
    → Preserves (λ s. IsReady id s × HasVector id model s) (save_indexing_dead_letter d)
unfolding save_indexing_dead_letter
letter_saved-Preserves id model d s h =
    elim (Bool-cases (contains d.dead_letter_id s.dead_letters)) [
      | inl taken ↦ rw taken h
      | inr free ↦ rw free h
    ]

-- What a run keeps of a chunk that is ready and embedded.
abbrev pub IsDone : Text → Text → MockDomainStore → Type 0
IsDone id model s = IsReady id s × HasVector id model s

pub record_saved-IsDone :
    (id model : Text) (r : EmbeddingRecord) → Preserves (IsDone id model) (save_embedding_record r)
record_saved-IsDone id model r s h =
    (record_saved-IsReady id r s h.0, record_saved-HasVector id model r s h.1)

pub status_set-IsDone :
    (id model i : Text) → Preserves (IsDone id model) (set_chunk_embedding_status i ready)
status_set-IsDone id model i s h =
    (status_set-IsReady id i s h.0, status_set-HasVector id model i ready s h.1)

module _ (client : EmbeddingClient) (draws : RetryDraws) (community_id : Text) where
  abbrev pub records_of : Text → ℕ → List EventChunk → List (List Float) → List EmbeddingRecord
  records_of source i group vectors =
      embedding_records client (draws.embedding_record_id source) draws.now source community_id i
        group vectors

  -- Where there is a vector for each chunk, each has a record.
  records-chunks :
      (source : Text) (i : ℕ) (s : MockDomainStore) (group : List EventChunk)
      (vectors : List (List Float))
      → length group ≡ length vectors
      → All (λ r. HasVector r.chunk_id r.model_name s) (records_of source i group vectors)
      → All (λ c. HasVector c.chunk_id client.model_name s) group
  unfolding embedding_records
  records-chunks source i s [] vectors same h = tt
  records-chunks source i s (c ∷ cs) [] same h = absurd (omega arith)
  records-chunks source i s (c ∷ cs) (v ∷ vs) same h =
      (h.0, records-chunks source (suc i) s cs vs (omega arith) h.1)

  abbrev pub AllDone : List EventChunk → MockDomainStore → Type 0
  AllDone group s = All (λ c. IsDone c.chunk_id client.model_name s) group

  both_done :
      (group : List EventChunk) (s : MockDomainStore)
      → All (λ c. IsReady c.chunk_id s) group
      → All (λ c. HasVector c.chunk_id client.model_name s) group
      → AllDone group s
  both_done [] s h k = tt
  both_done (c ∷ cs) s h k = ((h.0, k.0), both_done cs s h.1 k.1)

  abbrev HaveVectors : List EventChunk → MockDomainStore → Type 0
  HaveVectors group s = All (λ c. HasVector c.chunk_id client.model_name s) group

  marked-HaveVectors :
      (group : List EventChunk) (i : Text)
      → Preserves (HaveVectors group) (set_chunk_embedding_status i ready)
  marked-HaveVectors group i s h =
      All-map _ _ group (λ c. status_set-HasVector c.chunk_id client.model_name i ready s) h

  abbrev pub marking : List EventChunk → Exec MockDomainStore (Unit {0})
  marking group = for_each (λ (c : EventChunk). set_chunk_embedding_status c.chunk_id ready) group

  -- A marking that returns leaves all chunks done that had their vectors.
  marked-AllDone :
      (group : List EventChunk) (s : MockDomainStore)
      → HaveVectors group s
      → Leaves (λ u. AllDone group) (marking group s)
  marked-AllDone group s h =
      go (marking group s)
        (for_each-All (λ (c : EventChunk). IsReady c.chunk_id)
          (λ (c : EventChunk). set_chunk_embedding_status c.chunk_id ready) group s
          (λ c. status_set-Leaves c.chunk_id) (λ x y. status_set-IsReady x.chunk_id y.chunk_id))
        (for_each-Preserves (HaveVectors group)
          (λ (c : EventChunk). set_chunk_embedding_status c.chunk_id ready) group
          (λ c. marked-HaveVectors group c.chunk_id) s h)
    where
      go :
          (x : Result (Unit {0}) × MockDomainStore)
          → Leaves (λ u t. All (λ c. IsReady c.chunk_id t) group) x
          → HaveVectors group x.1
          → Leaves (λ u. AllDone group) x
      go (raised e, t) h k = tt
      go (ok u, t) h k = both_done group t h k

  pub embed_group-AllDone :
      (source : Text) (group : List EventChunk) (vectors : List (List Float)) (s : MockDomainStore)
      → Leaves (λ u. AllDone group) (embed_group client draws community_id source group vectors s)
  unfolding embed_group save_embedding_records
  embed_group-AllDone source group vectors s =
      elim (Bool-cases (nat_beq (length group) (length vectors))) [
        | inl same ↦ rw same (
            bind-Leaves (λ u t. HaveVectors group t) (λ u. AllDone group)
              (for_each save_embedding_record (records_of source 0 group vectors))
              (λ u. marking group) s (saved (eq_of_beq (length group) (length vectors) same))
              (λ u t h. marked-AllDone group t h))
        | inr other ↦ rw other tt
      ]
    where
      weaken :
          length group ≡ length vectors
          → (x : Result (Unit {0}) × MockDomainStore)
          → Leaves
              (λ u t.
                All (λ r. HasVector r.chunk_id r.model_name t) (records_of source 0 group vectors))
              x
          → Leaves (λ u t. HaveVectors group t) x
      weaken same (raised e, t) h = tt
      weaken same (ok u, t) h = records-chunks source 0 t group vectors same h

      saved :
          length group ≡ length vectors
          → Leaves
              (λ u t. HaveVectors group t)
              (for_each save_embedding_record (records_of source 0 group vectors) s)
      saved same =
          weaken same (for_each save_embedding_record (records_of source 0 group vectors) s) (
            for_each-All (λ (r : EmbeddingRecord). HasVector r.chunk_id r.model_name)
              save_embedding_record (records_of source 0 group vectors) s record_saved-Leaves
              (λ x y. record_saved-HasVector x.chunk_id x.model_name y))
