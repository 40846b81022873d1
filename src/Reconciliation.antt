-- ===== src/Reconciliation.antt =====
-- The retry of failed embeddings, src/memory_rag/services/reconciliation.py.
pub mod Groups
pub mod Embedded
pub mod Kept
pub mod Total
use diary_memory_service.Base.{
  ℕ, ◌+◌, ◌-◌, Bool, true, false, Option, none, some, List, [], ◌∷◌, ◌++◌, map, length, nat_beq,
  text_eq, if◌then◌else◌,
}
use diary_memory_service.Base.Text.{Text}
use diary_memory_service.Base.Int.{ℤ}
use diary_memory_service.Base.Dict.{Dict, lookup, insert}
use diary_memory_service.Exec.{
  Exception, value_error, runtime_error, class_name, Exec, pure, raise, lift, for_each, try_except,
  ◌>>=◌, ◌>>◌,
}
use diary_memory_service.Models.{DateTime, Float, EventChunk, ready}
use diary_memory_service.Store.{MockDomainStore}
use diary_memory_service.Store.Chunks.{
  list_failed_event_chunks, save_embedding_records, set_chunk_embedding_status,
  save_indexing_dead_letter,
}
use diary_memory_service.DomainService.{EmbeddingClient}
use diary_memory_service.DomainService.Embedding.{embedding_records, chunk_ids}

pub record FailedEmbeddingReport : Type 0 where
  pub community_id : Text
  pub chunks : List EventChunk

pub record RetryGroupOutcome : Type 0 where
  pub source_message_id : Text
  pub chunk_ids : List Text
  pub succeeded : Bool
  pub error_class : Option Text
  pub dead_letter_id : Option Text

pub record RetryOutcomeReport : Type 0 where
  pub community_id : Text
  pub groups : List RetryGroupOutcome

-- `attempted_chunks` and `succeeded_chunks` of the report, over its groups.
unfoldable pub attempted_chunks : List RetryGroupOutcome → ℕ
attempted_chunks [] = 0
attempted_chunks (g ∷ gs) = length g.chunk_ids + attempted_chunks gs

unfoldable pub succeeded_chunks : List RetryGroupOutcome → ℕ
succeeded_chunks [] = 0
succeeded_chunks (g ∷ gs) =
    let rest = succeeded_chunks gs in if g.succeeded then length g.chunk_ids + rest else rest

unfoldable pub failed_chunks : List RetryGroupOutcome → ℕ
failed_chunks gs = attempted_chunks gs - succeeded_chunks gs

unfoldable pub discover_failed_chunks : Text → Option ℤ → Exec MockDomainStore FailedEmbeddingReport
discover_failed_chunks community_id limit = do
  chunks ← list_failed_event_chunks community_id limit
  pure (record { community_id = community_id; chunks = chunks })

-- What a run reads from the clock and from `uuid4`, by source message.
pub record RetryDraws : Type 0 where
  pub now : DateTime
  pub embedding_record_id : Text → ℕ → Text
  pub dead_letter_id : Text → Text

abbrev pub appended : Option (List EventChunk) → EventChunk → List EventChunk
appended none chunk = chunk ∷ []
appended (some group) chunk = group ++ chunk ∷ []

-- `groups.setdefault(chunk.source_message_id, []).append(chunk)`, for each chunk.
unfoldable pub group_chunks :
    List EventChunk → Dict Text (List EventChunk) → Dict Text (List EventChunk)
group_chunks [] groups = groups
group_chunks (c ∷ cs) groups =
    group_chunks cs
      (insert c.source_message_id (appended (lookup c.source_message_id groups) c) groups)

module _ (client : EmbeddingClient) (draws : RetryDraws) (community_id : Text) where
  -- The body of the `try`.
  unfoldable pub embed_group :
      Text → List EventChunk → List (List Float) → Exec MockDomainStore (Unit {0})
  embed_group source_message_id group vectors =
      if nat_beq (length group) (length vectors)
      then (do
        save_embedding_records (
            embedding_records client (draws.embedding_record_id source_message_id) draws.now
              source_message_id community_id 0 group vectors)
        for_each (λ c. set_chunk_embedding_status c.chunk_id ready) group)
      else raise value_error

  abbrev pub succeeded_outcome : Text → List EventChunk → RetryGroupOutcome
  succeeded_outcome source_message_id group = record {
    source_message_id = source_message_id;
    chunk_ids = chunk_ids group;
    succeeded = true;
    error_class = none;
    dead_letter_id = none;
  }

  abbrev pub failed_outcome : Text → List EventChunk → Exception → Option Text → RetryGroupOutcome
  failed_outcome source_message_id group exc dead_letter_id = record {
    source_message_id = source_message_id;
    chunk_ids = chunk_ids group;
    succeeded = false;
    error_class = some (class_name exc);
    dead_letter_id = dead_letter_id;
  }

  unfoldable pub retry_body : Text → List EventChunk → Exec MockDomainStore RetryGroupOutcome
  retry_body source_message_id group = do
    vectors ← lift (client.embed (map (λ c. c.chunk_text) group))
    embed_group source_message_id group vectors
    pure (succeeded_outcome source_message_id group)

  -- The dead letter is written at best effort: its id comes back if the write succeeded.
  unfoldable pub write_dead_letter :
      Text → List EventChunk → Exception → Exec MockDomainStore (Option Text)
  write_dead_letter source_message_id group exc =
      try_except
        (do
          save_indexing_dead_letter (record {
            dead_letter_id = draws.dead_letter_id source_message_id;
            source_message_id = source_message_id;
            community_id = community_id;
            chunk_ids = chunk_ids group;
            model_name = client.model_name;
            error_class = class_name exc;
            created_at = draws.now;
          })
          pure (some (draws.dead_letter_id source_message_id)))
        (λ _. pure none)

  -- `except Exception as exc`
  unfoldable pub retry_failed :
      Text → List EventChunk → Exception → Exec MockDomainStore RetryGroupOutcome
  retry_failed source_message_id group exc = do
    dead_letter_id ← write_dead_letter source_message_id group exc
    pure (failed_outcome source_message_id group exc dead_letter_id)

  unfoldable pub retry_group : Text → List EventChunk → Exec MockDomainStore RetryGroupOutcome
  retry_group source_message_id group =
      try_except (retry_body source_message_id group) (retry_failed source_message_id group)

  unfoldable pub retry_groups :
      Dict Text (List EventChunk) → Exec MockDomainStore (List RetryGroupOutcome)
  retry_groups [] = pure []
  retry_groups ((source_message_id, group) ∷ groups) = do
    outcome ← retry_group source_message_id group
    outcomes ← retry_groups groups
    pure (outcome ∷ outcomes)

unfoldable pub retry_failed_chunks :
    Option EmbeddingClient → RetryDraws → Text → Option ℤ → Exec MockDomainStore RetryOutcomeReport
retry_failed_chunks none draws community_id limit = raise runtime_error
retry_failed_chunks (some client) draws community_id limit = do
  chunks ← list_failed_event_chunks community_id limit
  outcomes ← retry_groups client draws community_id (group_chunks chunks [])
  pure (record { community_id = community_id; groups = outcomes })
