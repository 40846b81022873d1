-- ===== src/Reconciliation/Groups.antt =====
-- The groups of a retry run, services/reconciliation.py: the failed chunks by their source.
use diary_memory_service.Base.{
  ◌≡◌, refl, ap, ◌∙◌, sym, Option, none, some, List, [], ◌∷◌, ◌++◌, keep, All, All-map,
  append_assoc, append-nil, ◌==◌, ==-refl, eq_of_beq, text_eq, inl, inr, Bool-cases,
}
use diary_memory_service.Base.Text.{Text}
use diary_memory_service.Base.Dict.{Dict, lookup, insert, lookup-insert}
use diary_memory_service.Models.{EventChunk}
use diary_memory_service.Store.Removal.Erased.{Distinct}
use diary_memory_service.Store.Removal.Keys.{insert-Distinct}
use diary_memory_service.Reconciliation.{appended, group_chunks}

-- The chunks of a source, in their order.
abbrev pub chunks_of_source : Text → List EventChunk → List EventChunk
chunks_of_source id chunks = keep (λ c. c.source_message_id == id) chunks

abbrev group_or_empty : Option (List EventChunk) → List EventChunk
group_or_empty none = []
group_or_empty (some g) = g

appended_lem :
    (o : Option (List EventChunk)) (c : EventChunk) → appended o c ≡ group_or_empty o ++ c ∷ []
appended_lem none c = refl
appended_lem (some g) c = refl

lookup-group_chunks :
    (cs : List EventChunk) (d : Dict Text (List EventChunk)) (id : Text)
    → group_or_empty (lookup id (group_chunks cs d))
      ≡ group_or_empty (lookup id d) ++ chunks_of_source id cs
unfolding group_chunks
lookup-group_chunks [] d id = sym (append-nil _)
lookup-group_chunks (c ∷ cs) d id =
    let k = c.source_message_id in
    let next = insert k (appended (lookup k d) c) d in
    lookup-group_chunks cs next id ∙ elim (Bool-cases (k == id)) [
      | inl same ↦
          rw (lookup-insert k id (appended (lookup k d) c) d, same, appended_lem)
            (ap (λ i. (group_or_empty (lookup i d) ++ c ∷ []) ++ chunks_of_source id cs)
                (eq_of_beq k id same)
              ∙ append_assoc (group_or_empty (lookup id d)) (c ∷ []) (chunks_of_source id cs))
      | inr other ↦ rw (lookup-insert k id (appended (lookup k d) c) d, other) refl
    ]

pub group_chunks-Distinct :
    (cs : List EventChunk) (d : Dict Text (List EventChunk))
    → Distinct d
    → Distinct (group_chunks cs d)
unfolding group_chunks
group_chunks-Distinct [] d h = h
group_chunks-Distinct (c ∷ cs) d h =
    group_chunks-Distinct cs _
      (insert-Distinct c.source_message_id (appended (lookup c.source_message_id d) c) d h)

lookup-weaken :
    (j : Text) (v : List EventChunk) (d : Dict Text (List EventChunk))
    → lookup j d ≡ none
    → (e : Text × List EventChunk) → lookup e.0 d ≡ some e.1
    → lookup e.0 ((j, v) ∷ d) ≡ some e.1
lookup-weaken j v d absent e found = elim (Bool-cases (j == e.0)) [
  | inl same ↦ absurd (clash (ap (λ i. lookup i d) (eq_of_beq j e.0 same)))
  | inr other ↦ rw other found
]
  where
    clash : lookup j d ≡ lookup e.0 d → ⊥
    clash p = cc

entries-found :
    (d : Dict Text (List EventChunk)) → Distinct d → All (λ e. lookup e.0 d ≡ some e.1) d
entries-found [] h = tt
entries-found ((j, v) ∷ d) h = (
  rw (==-refl j) refl,
  All-map (λ e. lookup e.0 d ≡ some e.1) (λ e. lookup e.0 ((j, v) ∷ d) ≡ some e.1) d
      (lookup-weaken j v d h.0) (entries-found d h.1),
)

-- Each group holds the chunks of its source, in their order.
pub group_chunks-groups :
    (cs : List EventChunk) → All (λ e. e.1 ≡ chunks_of_source e.0 cs) (group_chunks cs [])
group_chunks-groups cs =
    All-map (λ e. lookup e.0 (group_chunks cs []) ≡ some e.1) (λ e. e.1 ≡ chunks_of_source e.0 cs)
      (group_chunks cs [])
      (λ e found. ap group_or_empty (sym found) ∙ lookup-group_chunks cs [] e.0)
      (entries-found (group_chunks cs []) (group_chunks-Distinct cs [] tt))
