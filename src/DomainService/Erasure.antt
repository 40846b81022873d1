-- ===== src/DomainService/Erasure.antt =====
-- The hard deletion of services/domain_service.py as a step: the store after it is the purged one,
-- or the one before.
use diary_memory_service.Base.{
  true, ◌≡◌, ap, ◌==◌, eq_of_beq, text_eq, message_key_eq, inl, inr, Bool-cases, Option-cases,
  arith,
}
use diary_memory_service.Base.Text.{Text, is_empty}
use diary_memory_service.Base.Dict.{Dict, lookup, erase, lookup-erase}
use diary_memory_service.Models.{SourceMessage, Note}
use diary_memory_service.Store.{MockDomainStore}
use diary_memory_service.Store.Notes.{active_notes_for, is_active_note_for}
use diary_memory_service.Store.Removal
use diary_memory_service.Store.Removal.Erased.{length-keep-discard}
use diary_memory_service.Store.Removal.Purged.{IsWellKeyed, purged, hard_delete_purges}
use diary_memory_service.DomainService.Rows.{hard_delete_source_message}
use diary_memory_service.DomainService.Ingest.Single.{IsSingle}

module _ (P : MockDomainStore → Type 0) (id c : Text) (s : MockDomainStore)
    (keyed : IsWellKeyed s) where
  -- What the purged stores have, if the store has it, the hard deletion keeps.
  pub hard_delete-Preserves :
      ((source : SourceMessage) → P s → P (purged id source s))
      → P s
      → P (hard_delete_source_message id c s).1
  unfolding hard_delete_source_message Removal.hard_delete_source_message
  hard_delete-Preserves purge p = elim (Bool-cases (is_empty c)) [
    | inl nobody ↦ rw nobody p
    | inr named ↦ elim (Option-cases (lookup id s.sources)) [
      | inl missing ↦ rw (named, missing) p
      | inr (source, found) ↦ elim (Bool-cases (source.community_id == c)) [
        | inl owned ↦
            rw
              (ap (λ x. x.1)
                (hard_delete_purges id c source s named keyed found
                  (eq_of_beq source.community_id c owned)))
              (purge source p)
        | inr other ↦ rw (named, found, other) p
      ]
    ]
  ]

-- Without a source, a note's test passes no more often.
erased-stricter :
    (id : Text) (sources : Dict Text SourceMessage) (chat m c : Text) (n : Note)
    → is_active_note_for (erase id sources) chat m c n ≡ true
    → is_active_note_for sources chat m c n ≡ true
unfolding is_active_note_for
erased-stricter id sources chat m c n h =
    ground (arith, lookup-erase id n.source_message_id sources)

pub purged-IsSingle :
    (chat m c id : Text) (source : SourceMessage) (s : MockDomainStore)
    → IsSingle chat m c s
    → IsSingle chat m c (purged id source s)
unfolding active_notes_for
purged-IsSingle chat m c id source s few = omega (
  arith,
  few,
  length-keep-discard (λ (n : Note). n.source_message_id == id)
      (is_active_note_for (erase id s.sources) chat m c) (is_active_note_for s.sources chat m c)
      s.notes (erased-stricter id s.sources chat m c),
)
