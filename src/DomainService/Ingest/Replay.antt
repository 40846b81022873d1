-- ===== src/DomainService/Ingest/Replay.antt =====
-- The index of the stored messages under `ingest`, services/domain_service.py.
use diary_memory_service.Base.{
  false, ◌≡◌, refl, subst, ◌==◌, eq_of_beq, message_key_eq, text_eq, Option, none, some, inl, inr,
  Bool-cases, Option-cases, arith,
}
use mathlib.Core.Option.{some-injective}
use diary_memory_service.Base.Text.{Text}
use diary_memory_service.Base.Dict.{
  lookup, insert, lookup-insert, lookup-insert_self, lookup-insert_fresh,
}
use diary_memory_service.Exec.{ok}
use diary_memory_service.Models.{InboundMessage, SourceMessage}
use diary_memory_service.Parser.{DateSyntax}
use diary_memory_service.Store.{MessageKey, MockDomainStore}
use diary_memory_service.Store.Sources.{source_key, put_source, get_or_create_source_message}
use diary_memory_service.Store.Frame.{SameSources}
use diary_memory_service.DomainService.{EmbeddingClient, Draws}
use diary_memory_service.DomainService.Ingest.{
  candidate_source, reconstruct_result, ingest_fresh, ingest,
}
use diary_memory_service.DomainService.Ingest.Frame.{ingest_fresh-SameSources}

-- The key under which a message is stored.
abbrev pub message_key : InboundMessage → MessageKey
message_key m = (m.external_chat_id, m.external_message_id, m.edit_seq)

-- Every key in the index leads to the stored message with that key.
pub record IsIndexed (s : MockDomainStore) : Type 0 where
  pub indexed :
      (k : MessageKey) (id : Text)
      → lookup k s.idempotency ≡ some id
      → (m : SourceMessage) × (lookup id s.sources ≡ some m) × (source_key m ≡ k)

-- The sources and the index after `ingest`: unchanged if the key was known, else with the new row.
pub ingest_known :
    (ds : DateSyntax) (client : Option EmbeddingClient) (draws : Draws) (message : InboundMessage)
    (s : MockDomainStore) (id : Text) (m : SourceMessage)
    → lookup (message_key message) s.idempotency ≡ some id
    → lookup id s.sources ≡ some m
    → ingest ds client draws message s ≡ reconstruct_result m s
unfolding ingest get_or_create_source_message
ingest_known ds client draws message s id m h k = ground arith

pub get_or_create-new :
    (source : SourceMessage) (s : MockDomainStore)
    → lookup (source_key source) s.idempotency ≡ none
    → get_or_create_source_message source s ≡ (ok (source, false), put_source source s)
unfolding get_or_create_source_message
get_or_create-new source s h = ground arith

pub ingest_new :
    (ds : DateSyntax) (client : Option EmbeddingClient) (draws : Draws) (message : InboundMessage)
    (s : MockDomainStore)
    → lookup (message_key message) s.idempotency ≡ none
    → ingest ds client draws message s
      ≡ ingest_fresh ds client draws message draws.candidate_id
          (put_source (candidate_source draws message) s)
unfolding ingest
ingest_new ds client draws message s h = rw (get_or_create-new (candidate_source draws message) s h)

pub ingest_new-SameSources :
    (ds : DateSyntax) (client : Option EmbeddingClient) (draws : Draws) (message : InboundMessage)
    (s : MockDomainStore)
    → lookup (message_key message) s.idempotency ≡ none
    → SameSources
        (put_source (candidate_source draws message) s)
        (ingest ds client draws message s).1
ingest_new-SameSources ds client draws message s h = rw (ingest_new ds client draws message s h) (
    ingest_fresh-SameSources ds client draws message draws.candidate_id
      (put_source (candidate_source draws message) s))

SameSources-IsIndexed : (s t : MockDomainStore) → SameSources s t → IsIndexed s → IsIndexed t
SameSources-IsIndexed s t same inv = record {
  indexed = λ k id h. rw (same.0) (inv.indexed k id (rw (same.1) at h));
}

reconstruct_result-state :
    (m : SourceMessage) (s : MockDomainStore) → (reconstruct_result m s).1 ≡ s
unfolding reconstruct_result
reconstruct_result-state m s = ground arith

reconstruct_result-SameSources :
    (m : SourceMessage) (s : MockDomainStore) → SameSources s (reconstruct_result m s).1
reconstruct_result-SameSources m s = rw (reconstruct_result-state m s) (refl, refl)

-- Storing a row under a fresh id keeps the index right.
put_source-IsIndexed :
    (m : SourceMessage) (s : MockDomainStore)
    → lookup m.source_message_id s.sources ≡ none
    → IsIndexed s
    → IsIndexed (put_source m s)
unfolding put_source
put_source-IsIndexed m s fresh inv = record {
  indexed = λ k id h. elim (Bool-cases (source_key m == k)) [
    | inl same ↦ new_key k id (eq_of_beq (source_key m) k same) (rw (lookup-insert, same) at h)
    | inr other ↦ old_key k id (inv.indexed k id (rw (lookup-insert, other) at h))
  ];
}
  where
    new_key :
        (k : MessageKey) (id : Text)
        → source_key m ≡ k
        → some m.source_message_id ≡ some id
        → (n : SourceMessage) × (lookup id (insert m.source_message_id m s.sources) ≡ some n)
          × (source_key n ≡ k)
    new_key k id e p = (
      m,
      subst (λ j. lookup j (insert m.source_message_id m s.sources) ≡ some m) (some-injective _ _ p)
          (lookup-insert_self m.source_message_id m s.sources),
      e,
    )

    old_key :
        (k : MessageKey) (id : Text)
        → (n : SourceMessage) × (lookup id s.sources ≡ some n) × (source_key n ≡ k)
        → (n : SourceMessage) × (lookup id (insert m.source_message_id m s.sources) ≡ some n)
          × (source_key n ≡ k)
    old_key k id (n, p, e) =
        (n, lookup-insert_fresh m.source_message_id id m n s.sources fresh p, e)

-- Where the drawn id is new, ingesting keeps the index right, whether or not it raises: every key
-- leads to the stored message with that key.
pub ingest-IsIndexed :
    (ds : DateSyntax) (client : Option EmbeddingClient) (draws : Draws) (message : InboundMessage)
    (s : MockDomainStore)
    → lookup draws.candidate_id s.sources ≡ none
    → IsIndexed s
    → IsIndexed (ingest ds client draws message s).1
ingest-IsIndexed ds client draws message s fresh inv =
    elim (Option-cases (lookup (message_key message) s.idempotency)) [
      | inl new ↦
          SameSources-IsIndexed (put_source (candidate_source draws message) s) _
            (ingest_new-SameSources ds client draws message s new)
            (put_source-IsIndexed (candidate_source draws message) s fresh inv)
      | inr (id, known) ↦
          (let (m, found, e) = inv.indexed (message_key message) id known in
            SameSources-IsIndexed s _
              (rw (ingest_known ds client draws message s id m known found)
                (reconstruct_result-SameSources m s))
              inv)
    ]
