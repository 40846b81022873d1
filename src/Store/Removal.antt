-- ===== src/Store/Removal.antt =====
-- Physical removal: storage/mock/store.py, `hard_delete_source_message`, `clear` and the `len_`
-- methods. Each `del` raises KeyError on a missing key.
pub mod Erased
pub mod Purged
pub mod Keys
use diary_memory_service.Base.{
  ℕ, Bool, true, false, ◌||◌, Option, none, some, List, [], ◌∷◌, map, keep, length, ◌==◌, text_eq,
  text_pair_eq, message_key_eq, if◌then◌else◌,
}
use diary_memory_service.Base.Text.{Text}
use diary_memory_service.Base.{KeyEquality}
use diary_memory_service.Base.Dict.{Dict, lookup, erase, contains, values}
use diary_memory_service.Exec.{
  Exec, Result, ok, raised, key_error, raise, gets, modify, for_each, pure, ◌>>=◌, ◌>>◌,
}
use diary_memory_service.Models.{SourceMessage, HardDeleteOutcome}
use diary_memory_service.Store.{MockDomainStore, empty_store, require_community}
use diary_memory_service.Store.Sources.{source_key}

module _ {K V : Type 0} ⦃e : KeyEquality K⦄ where
  -- `del d[k]`
  abbrev pub del_key : K → Exec (Dict K V) (Unit {0})
  del_key k d = if contains k d then (ok tt, erase k d) else (raised key_error, d)

  -- `for k in keys: del d[k]`
  abbrev pub del_each : List K → Exec (Dict K V) (Unit {0})
  del_each = for_each del_key

  -- `[k for k, v in d.items() if p(v)]`
  abbrev pub keys_where : (V → Bool) → Dict K V → List K
  keys_where p [] = []
  keys_where p ((k, v) ∷ d) = if p v then k ∷ keys_where p d else keys_where p d

-- `x in xs`
abbrev pub is_member : Text → List Text → Bool
is_member x [] = false
is_member x (y ∷ ys) = y == x || is_member x ys

-- The elements of a set comprehension, each once.
abbrev pub distinct : List Text → List Text
distinct [] = []
distinct (x ∷ xs) = let rest = distinct xs in if is_member x xs then rest else x ∷ rest

unfoldable pub chunk_ids_of : Text → MockDomainStore → List Text
chunk_ids_of source_message_id s =
    distinct (
      map (λ c. c.chunk_id)
        (keep (λ c. c.source_message_id == source_message_id) (values s.chunks)))

unfoldable pub hit_ids_of : List Text → MockDomainStore → List Text
hit_ids_of chunk_ids s =
    map (λ h. h.retrieval_hit_id)
      (keep (λ h. is_member h.chunk_id chunk_ids) (values s.retrieval_hits))

unfoldable pub embedding_keys_of : Text → MockDomainStore → List (Text × Text)
embedding_keys_of source_message_id s =
    keys_where (λ r. r.source_message_id == source_message_id) s.embeddings

unfoldable pub note_ids_of : Text → MockDomainStore → List Text
note_ids_of source_message_id s =
    map (λ n. n.note_id) (keep (λ n. n.source_message_id == source_message_id) (values s.notes))

abbrev pub del_hits : List Text → Exec MockDomainStore (Unit {0})
del_hits ids s = let r = del_each ids s.retrieval_hits in (r.0, record s { retrieval_hits = r.1 })

abbrev pub del_embeddings : List (Text × Text) → Exec MockDomainStore (Unit {0})
del_embeddings keys s = let r = del_each keys s.embeddings in (r.0, record s { embeddings = r.1 })

abbrev pub del_notes : List Text → Exec MockDomainStore (Unit {0})
del_notes ids s = let r = del_each ids s.notes in (r.0, record s { notes = r.1 })

abbrev pub del_chunks : List Text → Exec MockDomainStore (Unit {0})
del_chunks ids s = let r = del_each ids s.chunks in (r.0, record s { chunks = r.1 })

abbrev pub del_source : Text → Exec MockDomainStore (Unit {0})
del_source id s = let r = del_key id s.sources in (r.0, record s { sources = r.1 })

-- `idempotency.pop(key, None)`
abbrev pub free_key : SourceMessage → MockDomainStore → MockDomainStore
free_key source s = record s { idempotency = erase (source_key source) s.idempotency }

abbrev pub del_rows_of : Text → SourceMessage → Exec MockDomainStore HardDeleteOutcome
del_rows_of id source = do
  chunk_ids ← gets (chunk_ids_of id)
  hit_ids ← gets (hit_ids_of chunk_ids)
  del_hits hit_ids
  keys ← gets (embedding_keys_of id)
  del_embeddings keys
  note_ids ← gets (note_ids_of id)
  del_notes note_ids
  del_chunks chunk_ids
  del_source id
  modify (free_key source)
  pure (record {
    source_messages = 1;
    notes = length note_ids;
    event_chunks = length chunk_ids;
    embedding_records = length keys;
    retrieval_hits = length hit_ids;
  })

abbrev pub del_owned : Text → Text → Option SourceMessage → Exec MockDomainStore HardDeleteOutcome
del_owned id community_id none = raise key_error
del_owned id community_id (some source) =
    if source.community_id == community_id then del_rows_of id source else raise key_error

unfoldable pub hard_delete_source_message : Text → Text → Exec MockDomainStore HardDeleteOutcome
hard_delete_source_message source_message_id community_id = do
  require_community community_id
  source ← gets (λ s. lookup source_message_id s.sources)
  del_owned source_message_id community_id source

unfoldable pub clear : Exec MockDomainStore (Unit {0})
clear = modify (λ s. empty_store)

module _ (s : MockDomainStore) where
  abbrev pub len_sources : ℕ
  len_sources = length s.sources

  abbrev pub len_notes : ℕ
  len_notes = length s.notes

  abbrev pub len_chunks : ℕ
  len_chunks = length s.chunks

  abbrev pub len_embeddings : ℕ
  len_embeddings = length s.embeddings

  abbrev pub len_queries : ℕ
  len_queries = length s.queries

  abbrev pub len_retrieval_hits : ℕ
  len_retrieval_hits = length s.retrieval_hits

  abbrev pub len_answer_traces : ℕ
  len_answer_traces = length s.answer_traces

  abbrev pub len_chat_route_decisions : ℕ
  len_chat_route_decisions = length s.chat_route_decisions

  abbrev pub len_chat_query_rewrites : ℕ
  len_chat_query_rewrites = length s.chat_query_rewrites

  abbrev pub len_chat_knowledge_searches : ℕ
  len_chat_knowledge_searches = length s.chat_knowledge_searches

  abbrev pub len_indexing_dead_letters : ℕ
  len_indexing_dead_letters = length s.dead_letters
