-- ===== src/DomainService/Keys.antt =====
-- The writes of services/domain_service.py keep the notes, chunks and hits under their own ids, each once.
use diary_memory_service.Base.{text_eq, text_pair_eq}
use diary_memory_service.Store.Removal.Purged.{IsWellKeyed}
use diary_memory_service.Store.Removal.Keys.{
  save_note-IsWellKeyed, save_chunk-IsWellKeyed, mark_note-IsWellKeyed, mark_chunk-IsWellKeyed,
  set_status-IsWellKeyed, save_embedding_record-IsWellKeyed, save_letter-IsWellKeyed,
}
use diary_memory_service.DomainService.Writes.{KeepsFlips}
use diary_memory_service.DomainService.Ingest.Writes.{KeepsRows}

pub keyed_flips : KeepsFlips IsWellKeyed
keyed_flips = record {
  note_marked = λ state id c off s h. mark_note-IsWellKeyed s h state id c;
  chunk_marked = λ state id c s h. mark_chunk-IsWellKeyed s h state id c;
}

pub keyed_rows : KeepsRows IsWellKeyed
keyed_rows = record {
  note_saved = λ n s h. save_note-IsWellKeyed s h n;
  chunk_saved = λ c s h. save_chunk-IsWellKeyed s h c;
  embeddings = record {
    embedding_saved = λ r s h. save_embedding_record-IsWellKeyed s h r;
    status_set = λ id status s h. set_status-IsWellKeyed s h id status;
    letter_saved = λ x s h. save_letter-IsWellKeyed s h x;
  };
}
