-- ===== src/Store/Active.antt =====
-- The active notes of a message under the writes of notes: storage/mock/store.py,
-- `get_active_note_for_external_message`.
use diary_memory_service.Base.{
  suc, ◌≤◌, Bool, true, false, ◌≡◌, refl, ap, Option, none, some, List, [], ◌∷◌, keep, head?, All,
  All-map, All-keep, All-keep_test, length, eq_of_beq, ◌==◌, ==-refl, text_eq, inl, inr, Bool-cases,
  arith,
}
use mathlib.Core.Option.{some-injective}
use diary_memory_service.Base.Text.{Text, is_empty}
use diary_memory_service.Base.Dict.{Dict, lookup, insert, values}
use diary_memory_service.Base.Sort.{sort_by, All-sort_by, length-sort_by}
use diary_memory_service.Exec.{ok}
use diary_memory_service.Models.{Note, LifecycleState, is_active}
use diary_memory_service.Store.{MockDomainStore}
use diary_memory_service.Store.Notes.{
  active_notes_for, is_active_note_for, note_after, get_active_note_for_external_message,
}
use diary_memory_service.Store.Removal.Erased.{Distinct, Keyed}

-- Every note stands under its own id.
abbrev pub IsKeyed : MockDomainStore → Type 0
IsKeyed s = All (λ n. lookup n.note_id s.notes ≡ some n) (values s.notes)

module _ {V : Type 0} (p : V → Bool) (k : Text) where
  -- A write that takes an entry out of the test takes one from what is kept.
  pub length-keep-insert :
      (v w : V) (d : Dict Text V)
      → lookup k d ≡ some v
      → p v ≡ true
      → p w ≡ false
      → suc (length (keep p (values (insert k w d)))) ≡ length (keep p (values d))
  length-keep-insert v w [] h pv pw = cc
  length-keep-insert v w ((j, u) ∷ d) h pv pw = elim (Bool-cases (j == k)) [
    | inl same ↦
        rw same (let u_is_v : u ≡ v = some-injective u v (rw same at h) in rw (u_is_v, pv, pw))
    | inr other ↦
        (let rest = length-keep-insert v w d (rw other at h) pv pw in
          elim (Bool-cases (p u)) [
            | inl kept ↦ rw (other, kept) (ap suc rest)
            | inr dropped ↦ rw (other, dropped) rest
          ])
  ]

  -- A write outside the test adds nothing to what is kept.
  pub length-keep-insert_outside :
      (w : V) (d : Dict Text V)
      → p w ≡ false
      → length (keep p (values (insert k w d))) ≤ length (keep p (values d))
  length-keep-insert_outside w [] h = ground arith
  length-keep-insert_outside w ((j, u) ∷ d) h = ground (arith, length-keep-insert_outside w d h)

  -- Any write adds one entry at most.
  pub length-keep-insert_any :
      (w : V) (d : Dict Text V)
      → length (keep p (values (insert k w d))) ≤ suc (length (keep p (values d)))
  length-keep-insert_any w [] = ground arith
  length-keep-insert_any w ((j, u) ∷ d) = ground (arith, length-keep-insert_any w d)

  -- The only kept entry is the one that is known to stand there.
  pub keep-only :
      (v : V) (d : Dict Text V)
      → lookup k d ≡ some v
      → p v ≡ true
      → length (keep p (values d)) ≤ 1
      → keep p (values d) ≡ v ∷ []
  keep-only v [] h pv few = absurd cc
  keep-only v ((j, u) ∷ d) h pv few = ground (arith, keep-only v d, some-injective u v)

module _ {V : Type 0} (id : V → Text) where
  lookup-weaken :
      (j : Text) (v : V) (d : Dict Text V)
      → lookup j d ≡ none
      → (x : V) → lookup (id x) d ≡ some x
      → lookup (id x) ((j, v) ∷ d) ≡ some x
  lookup-weaken j v d absent x found = elim (Bool-cases (j == id x)) [
    | inl same ↦ absurd (clash (ap (λ i. lookup i d) (eq_of_beq j (id x) same)))
    | inr other ↦ rw other found
  ]
    where
      clash : lookup j d ≡ lookup (id x) d → ⊥
      clash p = cc

  -- In a dict of distinct keys, a row under its own id is found there.
  pub lookups-Keyed :
      (d : Dict Text V) → Distinct d → Keyed id d → All (λ x. lookup (id x) d ≡ some x) (values d)
  lookups-Keyed [] h k = tt
  lookups-Keyed ((j, v) ∷ d) h k = (
    rw (k.0, ==-refl j),
    All-map (λ x. lookup (id x) d ≡ some x) (λ x. lookup (id x) ((j, v) ∷ d) ≡ some x) (values d)
        (lookup-weaken j v d h.0) (lookups-Keyed d h.1 k.1),
  )

head-none : {A : Type 0} (xs : List A) → head? xs ≡ none → length xs ≡ 0
head-none [] h = refl
head-none (x ∷ xs) h = absurd cc

-- A row that a test and an order choose among the rows of a dict passes the test and stands in it.
module _ {V : Type 0} (id : V → Text) (d : Dict Text V) (p : V → Bool) (before : V → V → Bool) where
  -- The row, if any, passes the test, and stands under its id.
  abbrev pub IsChosen : Option V → Type 0
  IsChosen none = Unit
  IsChosen (some x) = (p x ≡ true) × (lookup (id x) d ≡ some x)

  head-IsChosen : (xs : List V) → All (λ x. IsChosen (some x)) xs → IsChosen (head? xs)
  head-IsChosen [] h = tt
  head-IsChosen (x ∷ xs) h = h.0

  pairs :
      (xs : List V)
      → All (λ x. p x ≡ true) xs
      → All (λ x. lookup (id x) d ≡ some x) xs
      → All (λ x. IsChosen (some x)) xs
  pairs [] h k = tt
  pairs (x ∷ xs) h k = ((h.0, k.0), pairs xs h.1 k.1)

  pub chosen :
      All (λ x. lookup (id x) d ≡ some x) (values d)
      → IsChosen (head? (sort_by before (keep p (values d))))
  chosen keyed = head-IsChosen (sort_by before (keep p (values d))) (
      All-sort_by before (λ x. IsChosen (some x)) (keep p (values d))
        (pairs (keep p (values d)) (All-keep_test p (values d))
          (All-keep (λ x. lookup (id x) d ≡ some x) p (values d) keyed)))

module _ (chat message community_id : Text) (s : MockDomainStore) where
  -- The note that the lookup finds passes its test, and stands under its id.
  abbrev pub IsFound : Option Note → Type 0
  IsFound =
      IsChosen (λ n. n.note_id) s.notes (is_active_note_for s.sources chat message community_id)
        note_after

  pub active-IsFound :
      IsKeyed s
      → IsFound (head? (sort_by note_after (active_notes_for chat message community_id s)))
  unfolding active_notes_for
  active-IsFound =
      chosen (λ n. n.note_id) s.notes (is_active_note_for s.sources chat message community_id)
        note_after

  pub no_active :
      head? (sort_by note_after (active_notes_for chat message community_id s)) ≡ none
      → length (active_notes_for chat message community_id s) ≡ 0
  no_active h = omega (
    arith,
    length-sort_by note_after (active_notes_for chat message community_id s),
    head-none (sort_by note_after (active_notes_for chat message community_id s)) h,
  )

  -- A lookup that returns was of a named community, and found the most recent active note.
  pub found_note :
      (n : Option Note)
      → get_active_note_for_external_message chat message community_id s ≡ (ok n, s)
      → (is_empty community_id ≡ false)
        × (head? (sort_by note_after (active_notes_for chat message community_id s)) ≡ n)
  unfolding get_active_note_for_external_message
  found_note n h = ground arith

  pub active-community :
      (n : Note)
      → is_active_note_for s.sources chat message community_id n ≡ true
      → (n.community_id == community_id) ≡ true
  unfolding is_active_note_for
  active-community n h = ground arith

  pub inactive-fails :
      (n : Note) (state : LifecycleState)
      → is_active state ≡ false
      → is_active_note_for s.sources chat message community_id
          (record n { lifecycle_state = state })
        ≡ false
  unfolding is_active_note_for
  inactive-fails n state off = ground arith
