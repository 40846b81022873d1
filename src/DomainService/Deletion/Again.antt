-- ===== src/DomainService/Deletion/Again.antt =====
-- A second deletion of the same message, services/domain_service.py.
use diary_memory_service.Base.{
  ◌≤◌, true, false, ◌≡◌, refl, Option, none, some, List, [], ◌∷◌, head?, length, text_eq, inl, inr,
  Bool-cases, arith,
}
use diary_memory_service.Base.Text.{Text, is_empty}
use diary_memory_service.Base.Sort.{sort_by}
use diary_memory_service.Exec.{value_error, Result, ok, raised, outcome_then, pure, ◌>>=◌}
use diary_memory_service.Store.Frame.{get_active_chunk-state}
use diary_memory_service.Models.{Note, EventChunk, DeleteOutcome, tombstoned}
use diary_memory_service.Store.{MockDomainStore}
use diary_memory_service.Store.Notes.{
  active_notes_for, is_active_note_for, note_after, get_active_note_for_external_message, mark_note,
  mark_note_tombstoned,
}
use diary_memory_service.Store.Chunks.{mark_chunk, mark_chunk_tombstoned, get_active_chunk_for_note}
use diary_memory_service.Store.Active.{
  IsKeyed, IsFound, length-keep-insert, active-community, inactive-fails, active-IsFound, no_active,
}
use diary_memory_service.DomainService.Deletion.{
  tombstone_chunk, tombstone_note, tombstone_active_note_for_external_message, delete_outcome,
  delete_note_for_external_message,
}

empty_of_length : {A : Type 0} (xs : List A) → length xs ≤ 0 → xs ≡ []
empty_of_length [] h = refl
empty_of_length (x ∷ xs) h = absurd (omega arith)

module _ (chat message community_id : Text) where
  abbrev active_notes : MockDomainStore → List Note
  active_notes = active_notes_for chat message community_id

  -- A call that returns leaves no active note of the message.
  abbrev pub Cleared : {A : Type 0} → Result A × MockDomainStore → Type 0
  Cleared (raised e, t) = Unit
  Cleared (ok a, t) = active_notes t ≡ []

  -- The note is found, and no other is active.
  abbrev IsLast : MockDomainStore → Note → Type 0
  IsLast s n = IsFound chat message community_id s (some n) × (length (active_notes s) ≤ 1)

  SameNotes-IsLast :
      (s t : MockDomainStore) (n : Note)
      → t.notes ≡ s.notes
      → t.sources ≡ s.sources
      → IsLast s n
      → IsLast t n
  unfolding active_notes_for
  SameNotes-IsLast s t n same_notes same_sources h = rw (same_notes, same_sources) h

  mark_note_tombstoned-Cleared :
      (s : MockDomainStore) (n : Note)
      → is_empty community_id ≡ false
      → IsLast s n
      → Cleared (mark_note_tombstoned n.note_id community_id s)
  unfolding mark_note_tombstoned mark_note active_notes_for
  mark_note_tombstoned-Cleared s n named ((active, stored), few) =
      rw (named, stored, active-community chat message community_id s n active)
        (empty_of_length _ (
          omega (
            arith,
            length-keep-insert (is_active_note_for s.sources chat message community_id) n.note_id n
                (record n { lifecycle_state = tombstoned }) s.notes stored active
                (inactive-fails chat message community_id s n tombstoned refl),
          )))

  tombstone_chunk-same :
      (c : Option EventChunk) (s : MockDomainStore)
      → ((tombstone_chunk community_id c s).1.notes ≡ s.notes)
        × ((tombstone_chunk community_id c s).1.sources ≡ s.sources)
  unfolding tombstone_chunk mark_chunk_tombstoned mark_chunk
  tombstone_chunk-same none s = (refl, refl)
  tombstone_chunk-same (some c) s = ground arith

  -- The rest of `tombstone_note`, from the note's flip on, and from the chunk's flip on.
  after_note :
      (n : Note) (x : Result (Unit {0}) × MockDomainStore)
      → Cleared x
      → Cleared (outcome_then x.0 (λ _. pure (some n)) x.1)
  after_note n (raised e, t) h = tt
  after_note n (ok u, t) h = h

  after_chunk :
      (n : Note) (x : Result (Unit {0}) × MockDomainStore)
      → is_empty community_id ≡ false
      → IsLast x.1 n
      → Cleared (
          outcome_then x.0
            (λ _. mark_note_tombstoned n.note_id community_id >>= λ _. pure (some n))
            x.1)
  after_chunk n (raised e, t) named h = tt
  after_chunk n (ok u, t) named h =
      after_note n (mark_note_tombstoned n.note_id community_id t)
        (mark_note_tombstoned-Cleared t n named h)

  after_lookup :
      (n : Note) (x : Result (Option EventChunk) × MockDomainStore)
      → is_empty community_id ≡ false
      → IsLast x.1 n
      → Cleared (
          outcome_then x.0
            (λ c. tombstone_chunk community_id c >>= λ _.
              (mark_note_tombstoned n.note_id community_id >>= λ _. pure (some n)))
            x.1)
  after_lookup n (raised e, t) named h = tt
  after_lookup n (ok c, t) named h =
      let same = tombstone_chunk-same c t in
      after_chunk n (tombstone_chunk community_id c t) named
        (SameNotes-IsLast t (tombstone_chunk community_id c t).1 n same.0 same.1 h)

  tombstone_note-Cleared :
      (s : MockDomainStore) (n : Note)
      → is_empty community_id ≡ false
      → IsLast s n
      → Cleared (tombstone_note community_id (some n) s)
  unfolding tombstone_note
  tombstone_note-Cleared s n named h =
      after_lookup n (get_active_chunk_for_note n.note_id community_id s) named
        (rw (get_active_chunk-state s n.note_id community_id) h)

  tombstone-Cleared :
      (s : MockDomainStore)
      → IsKeyed s
      → length (active_notes s) ≤ 1
      → Cleared (tombstone_active_note_for_external_message chat message community_id s)
  unfolding tombstone_active_note_for_external_message get_active_note_for_external_message
      tombstone_note
  tombstone-Cleared s keyed few = elim (Bool-cases (is_empty community_id)) [
    | inl nobody ↦ rw nobody tt
    | inr named ↦ rw named (
        go named (head? (sort_by note_after (active_notes s))) refl
          (active-IsFound chat message community_id s keyed))
  ]
    where
      go :
          is_empty community_id ≡ false
          → (found : Option Note) → head? (sort_by note_after (active_notes s)) ≡ found
          → IsFound chat message community_id s found
          → Cleared (tombstone_note community_id found s)
      go named none e h =
          empty_of_length (active_notes s) (omega (arith, no_active chat message community_id s e))
      go named (some n) e h = tombstone_note-Cleared s n named (h, few)

  after_delete :
      (x : Result (Option Note) × MockDomainStore)
      → Cleared x
      → Cleared (outcome_then x.0 (λ removed. pure (delete_outcome removed)) x.1)
  after_delete (raised e, t) h = tt
  after_delete (ok o, t) h = h

  delete-Cleared :
      (s : MockDomainStore)
      → IsKeyed s
      → length (active_notes s) ≤ 1
      → Cleared (delete_note_for_external_message chat message community_id s)
  unfolding delete_note_for_external_message
  delete-Cleared s keyed few =
      after_delete (tombstone_active_note_for_external_message chat message community_id s)
        (tombstone-Cleared s keyed few)

  Cleared-ok :
      {A : Type 0} (x : Result A × MockDomainStore) (r : A)
      → Cleared x
      → x.0 ≡ ok r
      → active_notes x.1 ≡ []
  Cleared-ok (raised e, t) r h p = cc
  Cleared-ok (ok a, t) r h p = h

  -- Where the message has no active note in a named community, deleting it reports so and changes
  -- nothing.
  delete_missing :
      (s : MockDomainStore)
      → is_empty community_id ≡ false
      → active_notes_for chat message community_id s ≡ []
      → delete_note_for_external_message chat message community_id s
        ≡ (ok (record { deleted = false; note_date = none }), s)
  unfolding delete_note_for_external_message tombstone_active_note_for_external_message
      get_active_note_for_external_message tombstone_note sort_by
  delete_missing s named gone = rw (named, gone)

  delete-named :
      (s : MockDomainStore) (r : DeleteOutcome)
      → (delete_note_for_external_message chat message community_id s).0 ≡ ok r
      → is_empty community_id ≡ false
  unfolding delete_note_for_external_message tombstone_active_note_for_external_message
      get_active_note_for_external_message
  delete-named s r h = elim (Bool-cases (is_empty community_id)) [
    | inl nobody ↦ absurd (refused nobody h)
    | inr named ↦ named
  ]
    where
      clash : (x : Result DeleteOutcome) → x ≡ raised value_error → x ≡ ok r → ⊥
      clash x p q = cc

      refused :
          is_empty community_id ≡ true
          → (delete_note_for_external_message chat message community_id s).0 ≡ ok r
          → ⊥
      refused nobody p =
          clash (delete_note_for_external_message chat message community_id s).0 (rw nobody) p

  -- In a store that has every note under its own id, and at most one active note of the message, a
  -- deletion that returns leaves none: the next one reports that there is nothing to delete, and
  -- changes nothing.
  pub delete_again :
      (s : MockDomainStore) (r : DeleteOutcome)
      → IsKeyed s
      → length (active_notes_for chat message community_id s) ≤ 1
      → (delete_note_for_external_message chat message community_id s).0 ≡ ok r
      → delete_note_for_external_message chat message community_id
          (delete_note_for_external_message chat message community_id s).1
        ≡ (
          ok (record { deleted = false; note_date = none }),
          (delete_note_for_external_message chat message community_id s).1,
        )
  delete_again s r keyed few h =
      delete_missing (delete_note_for_external_message chat message community_id s).1
        (delete-named s r h)
        (Cleared-ok (delete_note_for_external_message chat message community_id s) r
          (delete-Cleared s keyed few) h)
