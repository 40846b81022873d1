-- ===== src/Reconciliation/Total.antt =====
-- The reports of retry runs, services/reconciliation.py.
use diary_memory_service.Base.{
  ℕ, ◌+◌, true, false, ◌≡◌, ◌⊎◌, refl, sym, ap, ◌∙◌, subst, All-map, Option, none, some, List, [],
  ◌∷◌, map, All, length, length-append, ◌==◌, text_eq, inl, inr, Bool-cases, arith,
}
use diary_memory_service.Base.Text.{Text}
use diary_memory_service.Base.Int.{ℤ}
use diary_memory_service.Base.Dict.{Dict, lookup, insert}
use diary_memory_service.Exec.{
  Exception, class_name, Result, ok, raised, caught, outcome_then, pure, ◌>>=◌,
}
use diary_memory_service.Models.{EventChunk, Float}
use diary_memory_service.Store.{MockDomainStore}
use diary_memory_service.Store.Chunks.{list_failed_event_chunks}
use diary_memory_service.DomainService.{EmbeddingClient}
use diary_memory_service.DomainService.Embedding.{chunk_ids}
use diary_memory_service.Exec.Invariants.{Leaves}
use diary_memory_service.Store.Removal.Erased.{Distinct}
use diary_memory_service.Retrieval.Distinct.{AllApart}
use diary_memory_service.Reconciliation.Groups.{
  chunks_of_source, group_chunks-Distinct, group_chunks-groups,
}
use diary_memory_service.Reconciliation.Embedded.{IsDone}
use diary_memory_service.Reconciliation.Kept.{HasKept, retry_group-HasKept, retry_groups-IsDone}
use diary_memory_service.Reconciliation.{
  RetryGroupOutcome, RetryOutcomeReport, RetryDraws, attempted_chunks, appended, group_chunks,
  succeeded_outcome, failed_outcome, embed_group, retry_body, write_dead_letter, retry_failed,
  retry_group, retry_groups, retry_failed_chunks,
}

-- The chunks of all groups.
abbrev grouped : Dict Text (List EventChunk) → ℕ
grouped [] = 0
grouped ((k, g) ∷ d) = length g + grouped d

abbrev old_length : Option (List EventChunk) → ℕ
old_length none = 0
old_length (some g) = length g

length-appended :
    (o : Option (List EventChunk)) (c : EventChunk) → length (appended o c) ≡ old_length o + 1
length-appended none c = omega arith
length-appended (some g) c = omega (arith, length-append g (c ∷ []))

grouped-insert :
    (k : Text) (v : List EventChunk) (d : Dict Text (List EventChunk))
    → grouped (insert k v d) + old_length (lookup k d) ≡ grouped d + length v
grouped-insert k v [] = omega arith
grouped-insert k v ((j, g) ∷ d) = elim (Bool-cases (j == k)) [
  | inl same ↦ rw same (omega arith)
  | inr other ↦ rw other (omega (arith, grouped-insert k v d))
]

grouped-group_chunks :
    (cs : List EventChunk) (d : Dict Text (List EventChunk))
    → grouped (group_chunks cs d) ≡ length cs + grouped d
unfolding group_chunks
grouped-group_chunks [] d = omega arith
grouped-group_chunks (c ∷ cs) d = omega (
  arith,
  grouped-insert c.source_message_id (appended (lookup c.source_message_id d) c) d,
  length-appended (lookup c.source_message_id d) c,
  grouped-group_chunks cs
      (insert c.source_message_id (appended (lookup c.source_message_id d) c) d),
)

length-chunk_ids : (cs : List EventChunk) → length (chunk_ids cs) ≡ length cs
length-chunk_ids [] = refl
length-chunk_ids (c ∷ cs) = omega (arith, length-chunk_ids cs)

-- An outcome names an error exactly where the group failed.
abbrev pub IsConsistent : RetryGroupOutcome → Type 0
IsConsistent o =
    ((o.succeeded ≡ true) × (o.error_class ≡ none) × (o.dead_letter_id ≡ none))
    ⊎ ((o.succeeded ≡ false) × ((name : Text) × (o.error_class ≡ some name)))

-- The outcome of the group, for the group's chunks.
abbrev IsOutcomeOf : Text → List EventChunk → Result RetryGroupOutcome → Type 0
IsOutcomeOf id group (raised e) = ⊥
IsOutcomeOf id group (ok o) =
    (o.source_message_id ≡ id) × (o.chunk_ids ≡ chunk_ids group) × IsConsistent o

-- The same, where a raise is allowed.
abbrev Succeeds : Text → List EventChunk → Result RetryGroupOutcome → Type 0
Succeeds id group (raised e) = Unit
Succeeds id group (ok o) = IsOutcomeOf id group (ok o)

abbrev HasReturned : {A : Type 0} → Result A → Type 0
HasReturned (raised e) = ⊥
HasReturned (ok a) = Unit

module _ (client : EmbeddingClient) (draws : RetryDraws) (community_id : Text) where
  write_dead_letter-HasReturned :
      (id : Text) (group : List EventChunk) (exc : Exception) (s : MockDomainStore)
      → HasReturned (write_dead_letter client draws community_id id group exc s).0
  unfolding write_dead_letter
  write_dead_letter-HasReturned id group exc s = go _
    where
      go :
          (x : Result (Option Text) × MockDomainStore)
          → HasReturned (caught x.0 (λ _. pure none) x.1).0
      go (raised e, t) = tt
      go (ok a, t) = tt

  retry_failed-IsOutcomeOf :
      (id : Text) (group : List EventChunk) (exc : Exception) (s : MockDomainStore)
      → IsOutcomeOf id group (retry_failed client draws community_id id group exc s).0
  unfolding retry_failed
  retry_failed-IsOutcomeOf id group exc s =
      go (write_dead_letter client draws community_id id group exc s)
        (write_dead_letter-HasReturned id group exc s)
    where
      go :
          (x : Result (Option Text) × MockDomainStore)
          → HasReturned x.0
          → IsOutcomeOf id group
              (outcome_then x.0
                (λ letter. pure (failed_outcome client draws community_id id group exc letter))
                x.1).0
      go (raised e, t) h = absurd h
      go (ok letter, t) h = (refl, refl, inr (refl, (class_name exc, refl)))

  retry_group-IsOutcomeOf :
      (id : Text) (group : List EventChunk) (s : MockDomainStore)
      → IsOutcomeOf id group (retry_group client draws community_id id group s).0
  unfolding retry_group retry_body
  retry_group-IsOutcomeOf id group s = go (retry_body client draws community_id id group s) body
    where
      body_embedded :
          (x : Result (Unit {0}) × MockDomainStore)
          → Succeeds id group
              (outcome_then x.0
                (λ _. pure (succeeded_outcome client draws community_id id group))
                x.1).0
      body_embedded (raised e, t) = tt
      body_embedded (ok u, t) = (refl, refl, inl (refl, refl, refl))

      body_vectors :
          (vectors : Result (List (List Float)))
          → Succeeds id group
              (outcome_then vectors
                (λ v. embed_group client draws community_id id group v >>= λ _.
                  pure (succeeded_outcome client draws community_id id group))
                s).0
      body_vectors (raised e) = tt
      body_vectors (ok v) = body_embedded (embed_group client draws community_id id group v s)

      body : Succeeds id group (retry_body client draws community_id id group s).0
      body = body_vectors (client.embed (map (λ c. c.chunk_text) group))

      go :
          (x : Result RetryGroupOutcome × MockDomainStore)
          → Succeeds id group x.0
          → IsOutcomeOf id group
              (caught x.0 (retry_failed client draws community_id id group) x.1).0
      go (raised e, t) h = retry_failed-IsOutcomeOf id group e t
      go (ok o, t) h = h

  -- The outcomes of the groups, in their order, over the store that the run leaves.
  abbrev OutcomesOf :
      Dict Text (List EventChunk) → List RetryGroupOutcome → MockDomainStore → Type 0
  OutcomesOf [] [] t = Unit
  OutcomesOf [] (o ∷ os) t = ⊥
  OutcomesOf ((id, group) ∷ d) [] t = ⊥
  OutcomesOf ((id, group) ∷ d) (o ∷ os) t =
      IsOutcomeOf id group (ok o) × HasKept client draws community_id group o t × OutcomesOf d os t

  -- The run returns an outcome for every group.
  abbrev AreOutcomes :
      Dict Text (List EventChunk) → Result (List RetryGroupOutcome) × MockDomainStore → Type 0
  AreOutcomes d (raised e, t) = ⊥
  AreOutcomes d (ok os, t) = OutcomesOf d os t

  HasKept-later :
      (group : List EventChunk) (o : RetryGroupOutcome) (d : Dict Text (List EventChunk))
      (t : MockDomainStore)
      → HasKept client draws community_id group o t
      → HasKept client draws community_id group o (retry_groups client draws community_id d t).1
  HasKept-later group o d t h succeeded =
      All-map (λ c. IsDone c.chunk_id client.model_name t)
        (λ c. IsDone c.chunk_id client.model_name (retry_groups client draws community_id d t).1)
        group (λ c. retry_groups-IsDone client draws community_id c.chunk_id client.model_name d t)
        (h succeeded)

  retry_groups-AreOutcomes :
      (d : Dict Text (List EventChunk)) (s : MockDomainStore)
      → AreOutcomes d (retry_groups client draws community_id d s)
  unfolding retry_groups
  retry_groups-AreOutcomes [] s = tt
  retry_groups-AreOutcomes ((id, group) ∷ d) s =
      go (retry_group client draws community_id id group s) (retry_group-IsOutcomeOf id group s)
        (retry_group-HasKept client draws community_id id group s)
        (λ t. retry_groups-AreOutcomes d t)
    where
      collect :
          (o : RetryGroupOutcome)
          → IsOutcomeOf id group (ok o)
          → (y : Result (List RetryGroupOutcome) × MockDomainStore)
          → HasKept client draws community_id group o y.1
          → AreOutcomes d y
          → AreOutcomes ((id, group) ∷ d) (outcome_then y.0 (λ os. pure (o ∷ os)) y.1)
      collect o good (raised e, t) kept h = absurd h
      collect o good (ok os, t) kept h = (good, kept, h)

      go :
          (x : Result RetryGroupOutcome × MockDomainStore)
          → IsOutcomeOf id group x.0
          → Leaves (HasKept client draws community_id group) x
          → ((t : MockDomainStore) → AreOutcomes d (retry_groups client draws community_id d t))
          → AreOutcomes ((id, group) ∷ d) (
              outcome_then x.0
                (λ o. retry_groups client draws community_id d >>= λ os. pure (o ∷ os))
                x.1)
      go (raised e, t) h kept later = absurd h
      go (ok o, t) h kept later =
          collect o h (retry_groups client draws community_id d t) (HasKept-later group o d t kept)
            (later t)

  attempted-OutcomesOf :
      (d : Dict Text (List EventChunk)) (os : List RetryGroupOutcome) (t : MockDomainStore)
      → OutcomesOf d os t
      → attempted_chunks os ≡ grouped d
  unfolding attempted_chunks
  attempted-OutcomesOf [] [] t h = refl
  attempted-OutcomesOf [] (o ∷ os) t h = absurd h
  attempted-OutcomesOf ((id, group) ∷ d) [] t h = absurd h
  attempted-OutcomesOf ((id, group) ∷ d) (o ∷ os) t (good, kept, h) =
      rw (good.1, length-chunk_ids group, attempted-OutcomesOf d os t h) refl

  apart_from :
      (id : Text) (d : Dict Text (List EventChunk)) (os : List RetryGroupOutcome)
      (t : MockDomainStore)
      → lookup id d ≡ none
      → OutcomesOf d os t
      → All (λ o. (id == o.source_message_id) ≡ false) os
  apart_from id [] [] t absent h = tt
  apart_from id [] (o ∷ os) t absent h = absurd h
  apart_from id ((j, group) ∷ d) [] t absent h = absurd h
  apart_from id ((j, group) ∷ d) (o ∷ os) t absent (good, kept, h) = elim (Bool-cases (j == id)) [
    | inl same ↦ absurd (clash same)
    | inr other ↦ (
      rw (good.0) (ground (arith, text_eq.equals_iff j id, text_eq.equals_iff id j, other)),
      apart_from id d os t (rw other at absent) h,
    )
  ]
    where
      clash : (j == id) ≡ true → ⊥
      clash p = cc (rw p at absent)

  sources-AllApart :
      (d : Dict Text (List EventChunk)) (os : List RetryGroupOutcome) (t : MockDomainStore)
      → Distinct d
      → OutcomesOf d os t
      → AllApart (λ o. o.source_message_id) os
  sources-AllApart [] [] t distinct h = tt
  sources-AllApart [] (o ∷ os) t distinct h = absurd h
  sources-AllApart ((id, group) ∷ d) [] t distinct h = absurd h
  sources-AllApart ((id, group) ∷ d) (o ∷ os) t distinct (good, kept, h) =
      (rw (good.0) (apart_from id d os t distinct.0 h), sources-AllApart d os t distinct.1 h)

-- The outcome of the group of one source: for the listed chunks of the source, in their order; and
-- where it is a success, each of them is stored as ready, and has an embedding of the model.
pub record IsReported (client : EmbeddingClient) (chunks : List EventChunk) (t : MockDomainStore)
    (o : RetryGroupOutcome) : Type 0 where
  pub of_source : o.chunk_ids ≡ chunk_ids (chunks_of_source o.source_message_id chunks)
  pub consistent : IsConsistent o
  pub done :
      o.succeeded ≡ true
      → All
          (λ c. IsDone c.chunk_id client.model_name t)
          (chunks_of_source o.source_message_id chunks)

module _ (client : EmbeddingClient) (draws : RetryDraws) (community_id : Text)
    (chunks : List EventChunk) where
  outcomes-IsReported :
      (d : Dict Text (List EventChunk)) (os : List RetryGroupOutcome) (t : MockDomainStore)
      → All (λ e. e.1 ≡ chunks_of_source e.0 chunks) d
      → OutcomesOf client draws community_id d os t
      → All (IsReported client chunks t) os
  outcomes-IsReported [] [] t groups h = tt
  outcomes-IsReported [] (o ∷ os) t groups h = absurd h
  outcomes-IsReported ((id, group) ∷ d) [] t groups h = absurd h
  outcomes-IsReported ((id, group) ∷ d) (o ∷ os) t groups (good, kept, h) = (
    record {
      of_source = good.1 ∙ ap chunk_ids source_chunks;
      consistent = good.2;
      done = λ succeeded.
          subst (All (λ c. IsDone c.chunk_id client.model_name t)) source_chunks (kept succeeded);
    },
    outcomes-IsReported d os t groups.1 h,
  )
    where
      source_chunks : group ≡ chunks_of_source o.source_message_id chunks
      source_chunks = groups.0 ∙ ap (λ i. chunks_of_source i chunks) (sym good.0)

-- With a provider, a run over a store whose failed chunks can be listed returns a report, whatever
-- the provider and the store do: its groups are of different sources, each names the listed chunks of
-- its source, in their order, and together they count as many as are listed. A group either failed,
-- with the name of an error, or succeeded, with no error and no dead letter, and then each of its
-- chunks is stored as ready and has an embedding of the provider's model when the run ends.
pub retry_failed_chunks_total :
    (client : EmbeddingClient) (draws : RetryDraws) (community_id : Text) (limit : Option ℤ)
    (s : MockDomainStore) (chunks : List EventChunk)
    → list_failed_event_chunks community_id limit s ≡ (ok chunks, s)
    → let x = retry_failed_chunks (some client) draws community_id limit s in
      (report : RetryOutcomeReport) × (x.0 ≡ ok report)
      × (attempted_chunks report.groups ≡ length chunks)
      × AllApart (λ o. o.source_message_id) report.groups
      × All (IsReported client chunks x.1) report.groups
unfolding retry_failed_chunks
retry_failed_chunks_total client draws community_id limit s chunks listed = rw listed (
    go (retry_groups client draws community_id (group_chunks chunks []) s)
      (retry_groups-AreOutcomes client draws community_id (group_chunks chunks []) s))
  where
    after :
        Result (List RetryGroupOutcome) × MockDomainStore
        → Result RetryOutcomeReport × MockDomainStore
    after x =
        outcome_then x.0
          (λ outcomes. pure (record { community_id = community_id; groups = outcomes })) x.1

    go :
        (x : Result (List RetryGroupOutcome) × MockDomainStore)
        → AreOutcomes client draws community_id (group_chunks chunks []) x
        → (report : RetryOutcomeReport) × ((after x).0 ≡ ok report)
          × (attempted_chunks report.groups ≡ length chunks)
          × AllApart (λ o. o.source_message_id) report.groups
          × All (IsReported client chunks (after x).1) report.groups
    go (raised e, t) h = absurd h
    go (ok os, t) h = (
      record { community_id = community_id; groups = os },
      refl,
      omega (
        arith,
        attempted-OutcomesOf client draws community_id (group_chunks chunks []) os t h,
        grouped-group_chunks chunks [],
      ),
      sources-AllApart client draws community_id (group_chunks chunks []) os t
          (group_chunks-Distinct chunks [] tt) h,
      outcomes-IsReported client draws community_id chunks (group_chunks chunks []) os t
          (group_chunks-groups chunks) h,
    )
