-- ===== src/Reconciliation/Kept.antt =====
-- What the groups of a retry run keep, services/reconciliation.py.
use diary_memory_service.Base.{
  true, ◌≡◌, some, none, List, [], ◌∷◌, map, length, nat_beq, nat_eq, text_eq, text_pair_eq, inl,
  inr, Bool-cases,
}
use diary_memory_service.Base.Text.{Text}
use diary_memory_service.Base.Dict.{Dict}
use diary_memory_service.Exec.{
  Exception, Exec, Result, ok, raised, pure, lift, for_each, caught, ◌>>=◌,
}
use diary_memory_service.Exec.Invariants.{
  Preserves, Leaves, Leaves-any, bind-Leaves, bind-Preserves, for_each-Preserves,
  try_except-Preserves,
}
use diary_memory_service.Models.{Float, EventChunk, ready}
use diary_memory_service.Store.{MockDomainStore}
use diary_memory_service.Store.Chunks.{
  save_embedding_record, save_embedding_records, set_chunk_embedding_status,
  save_indexing_dead_letter,
}
use diary_memory_service.DomainService.{EmbeddingClient}
use diary_memory_service.Reconciliation.{
  RetryGroupOutcome, RetryDraws, embed_group, retry_body, succeeded_outcome, failed_outcome,
  write_dead_letter, retry_failed, retry_group, retry_groups,
}
use diary_memory_service.Reconciliation.Embedded.{
  IsDone, AllDone, records_of, marking, embed_group-AllDone, record_saved-IsDone, status_set-IsDone,
  letter_saved-Preserves,
}

module _ (client : EmbeddingClient) (draws : RetryDraws) (community_id : Text) where
  -- A successful outcome of a group's chunks.
  abbrev pub HasKept : List EventChunk → RetryGroupOutcome → MockDomainStore → Type 0
  HasKept group o s = o.succeeded ≡ true → AllDone client draws community_id group s

  retry_body-HasKept :
      (source : Text) (group : List EventChunk) (s : MockDomainStore)
      → Leaves (HasKept group) (retry_body client draws community_id source group s)
  unfolding retry_body
  retry_body-HasKept source group s = go (client.embed (map (λ c. c.chunk_text) group))
    where
      go :
          (r : Result (List (List Float)))
          → Leaves (HasKept group) (
              (lift r >>= λ vectors.
              embed_group client draws community_id source group vectors >>= λ u.
              pure (succeeded_outcome client draws community_id source group))
                s)
      go (raised e) = tt
      go (ok vectors) =
          bind-Leaves (λ u. AllDone client draws community_id group) (HasKept group)
            (embed_group client draws community_id source group vectors)
            (λ u. pure (succeeded_outcome client draws community_id source group)) s
            (embed_group-AllDone client draws community_id source group vectors s) (λ u t h ok_o. h)

  retry_failed-HasKept :
      (source : Text) (group : List EventChunk) (e : Exception) (s : MockDomainStore)
      → Leaves (HasKept group) (retry_failed client draws community_id source group e s)
  unfolding retry_failed
  retry_failed-HasKept source group e s =
      bind-Leaves (λ letter t. Unit {0}) (HasKept group)
        (write_dead_letter client draws community_id source group e)
        (λ letter. pure (failed_outcome client draws community_id source group e letter)) s
        (Leaves-any (write_dead_letter client draws community_id source group e s))
        (λ letter t u succeeded. absurd cc)

  -- A group that is reported as a success is done.
  pub retry_group-HasKept :
      (source : Text) (group : List EventChunk) (s : MockDomainStore)
      → Leaves (HasKept group) (retry_group client draws community_id source group s)
  unfolding retry_group
  retry_group-HasKept source group s =
      go (retry_body client draws community_id source group s) (retry_body-HasKept source group s)
    where
      go :
          (x : Result RetryGroupOutcome × MockDomainStore)
          → Leaves (HasKept group) x
          → Leaves
              (HasKept group)
              (caught x.0 (retry_failed client draws community_id source group) x.1)
      go (raised e, t) h = retry_failed-HasKept source group e t
      go (ok o, t) h = h

  -- No group undoes what is done.
  module _ (id model : Text) where
    abbrev Kept : {A : Type 0} → Exec MockDomainStore A → Type 0
    Kept = Preserves (IsDone id model)

    embed_group-IsDone :
        (source : Text) (group : List EventChunk) (vectors : List (List Float))
        → Kept (embed_group client draws community_id source group vectors)
    unfolding embed_group save_embedding_records
    embed_group-IsDone source group vectors s h =
        elim (Bool-cases (nat_beq (length group) (length vectors))) [
          | inl same ↦ rw same (
              bind-Preserves (IsDone id model)
                (for_each save_embedding_record
                  (records_of client draws community_id source 0 group vectors))
                (λ u. marking client draws community_id group)
                (for_each-Preserves (IsDone id model) save_embedding_record
                  (records_of client draws community_id source 0 group vectors)
                  (record_saved-IsDone id model))
                (λ u.
                  for_each-Preserves (IsDone id model)
                    (λ (c : EventChunk). set_chunk_embedding_status c.chunk_id ready) group
                    (λ c. status_set-IsDone id model c.chunk_id))
                s h)
          | inr other ↦ rw other h
        ]

    retry_body-IsDone :
        (source : Text) (group : List EventChunk)
        → Kept (retry_body client draws community_id source group)
    unfolding retry_body
    retry_body-IsDone source group =
        bind-Preserves (IsDone id model) (lift (client.embed (map (λ c. c.chunk_text) group)))
          (λ vectors. embed_group client draws community_id source group vectors >>= λ u.
            pure (succeeded_outcome client draws community_id source group))
          (λ s h. h)
          (λ vectors.
            bind-Preserves (IsDone id model)
              (embed_group client draws community_id source group vectors)
              (λ u. pure (succeeded_outcome client draws community_id source group))
              (embed_group-IsDone source group vectors) (λ u s h. h))

    retry_failed-IsDone :
        (source : Text) (group : List EventChunk) (e : Exception)
        → Kept (retry_failed client draws community_id source group e)
    unfolding retry_failed write_dead_letter
    retry_failed-IsDone source group e =
        bind-Preserves (IsDone id model)
          (write_dead_letter client draws community_id source group e)
          (λ letter. pure (failed_outcome client draws community_id source group e letter))
          (try_except-Preserves (IsDone id model) _ (λ x. pure none)
            (bind-Preserves (IsDone id model) (save_indexing_dead_letter _)
              (λ u. pure (some (draws.dead_letter_id source))) (letter_saved-Preserves id model _)
              (λ u s h. h))
            (λ x s h. h))
          (λ letter s h. h)

    pub retry_group-IsDone :
        (source : Text) (group : List EventChunk)
        → Kept (retry_group client draws community_id source group)
    unfolding retry_group
    retry_group-IsDone source group =
        try_except-Preserves (IsDone id model) (retry_body client draws community_id source group)
          (retry_failed client draws community_id source group) (retry_body-IsDone source group)
          (retry_failed-IsDone source group)

    pub retry_groups-IsDone :
        (d : Dict Text (List EventChunk)) → Kept (retry_groups client draws community_id d)
    unfolding retry_groups
    retry_groups-IsDone [] = λ s h. h
    retry_groups-IsDone ((source, group) ∷ d) =
        bind-Preserves (IsDone id model) (retry_group client draws community_id source group)
          (λ o. retry_groups client draws community_id d >>= λ os. pure (o ∷ os))
          (retry_group-IsDone source group)
          (λ o.
            bind-Preserves (IsDone id model) (retry_groups client draws community_id d)
              (λ os. pure (o ∷ os)) (retry_groups-IsDone d) (λ os s h. h))
