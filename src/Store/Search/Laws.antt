-- ===== src/Store/Search/Laws.antt =====
-- The results of the two search legs, storage/mock/store.py.
use diary_memory_service.Base.{
  ℕ, suc, ◌≤◌, ◌≢◌, Bool, true, false, not, ◌&&◌, ◌||◌, ◌≡◌, refl, Option, none, List, [], ◌∷◌, All,
  All-take, take, length, length-take, nat_beq, text_pair_eq, inl, inr, Bool-cases, Option-cases,
  arith,
}
use diary_memory_service.Base.Text.{Text, is_empty}
use diary_memory_service.Base.Int.{ℤ, is_below_one, pos_part}
use diary_memory_service.Base.Dict.{lookup, values}
use diary_memory_service.Base.Sort.{sort_by, All-sort_by}
use diary_memory_service.Exec.{Result, ok, raised}
use diary_memory_service.Exec.Laws.{Returns}
use diary_memory_service.Models.{Float, DateRange, EventChunk, EmbeddingRecord, is_ready}
use diary_memory_service.Store.{MockDomainStore}
use diary_memory_service.Store.Search.{
  FloatOps, UnicodeTables, Ranked, is_in_scope, dense_entry, dense_ranked, dense_before,
  ranked_chunks, top_ranked, cosine_distance, dense_candidates, sparse_ranked, sparse_before,
  sparse_candidates, tokenize, overlap, has_no_token,
}

module _ {K : Type 0} (P : EventChunk → Type 0) where
  abbrev RankedAll : List (Ranked K) → Type 0
  RankedAll = All (λ r. P r.chunk)

  ranked_chunks-All : (rs : List (Ranked K)) → RankedAll rs → All P (ranked_chunks rs)
  ranked_chunks-All [] h = tt
  ranked_chunks-All (r ∷ rs) h = (h.0, ranked_chunks-All rs h.1)

length-ranked_chunks : {K : Type 0} (rs : List (Ranked K)) → length (ranked_chunks rs) ≡ length rs
length-ranked_chunks [] = refl
length-ranked_chunks (r ∷ rs) = omega (arith, length-ranked_chunks rs)

-- At most `limit` chunks, each with the property.
abbrev pub IsLeg : (EventChunk → Type 0) → ℤ → List EventChunk → Type 0
IsLeg P limit cs = All P cs × (length cs ≤ pos_part limit)

module _ {K : Type 0} (P : EventChunk → Type 0) (before : Ranked K → Ranked K → Bool) where
  top_ranked-Returns :
      (limit : ℤ) (ranked : Result (List (Ranked K)))
      → Returns (All (λ r. P r.chunk)) ranked
      → Returns (IsLeg P limit) (top_ranked before limit ranked)
  top_ranked-Returns limit (raised e) h = tt
  top_ranked-Returns limit (ok rs) h = (
    ranked_chunks-All P (take (pos_part limit) (sort_by before rs))
        (All-take _ (pos_part limit) (sort_by before rs) (All-sort_by before _ rs h)),
    omega (
      arith,
      length-ranked_chunks (take (pos_part limit) (sort_by before rs)),
      length-take (pos_part limit) (sort_by before rs),
    ),
  )

module _ (f : FloatOps) (passes : EventChunk → Bool)
    (embedding_of : EventChunk → Option EmbeddingRecord) (query : List Float) where
  -- In scope, with a vector at hand.
  abbrev pub DenseHit : EventChunk → Type 0
  DenseHit c = (passes c ≡ true) × (is_ready c.embedding_status ≡ true) × (embedding_of c ≢ none)

  dense_entry-Returns :
      (index : ℕ) (c : EventChunk) (d : Result Float) (rest : Result (List (Ranked Float)))
      → DenseHit c
      → Returns (All (λ r. DenseHit r.chunk)) rest
      → Returns (All (λ r. DenseHit r.chunk)) (dense_entry f index c d rest)
  unfolding dense_entry
  dense_entry-Returns index c (raised e) rest hit h = tt
  dense_entry-Returns index c (ok d) (raised e) hit h = tt
  dense_entry-Returns index c (ok d) (ok rest) hit h = elim (Bool-cases (f.at_least d f.half)) [
    | inl far ↦ rw far h
    | inr near ↦ rw near (hit, h)
  ]

  dense_ranked-Returns :
      (index : ℕ) (cs : List EventChunk)
      → Returns (All (λ r. DenseHit r.chunk)) (dense_ranked f passes embedding_of query index cs)
  unfolding dense_ranked
  dense_ranked-Returns index [] = tt
  dense_ranked-Returns index (c ∷ cs) =
      elim (Bool-cases (passes c && is_ready c.embedding_status)) [
        | inr no_hit ↦ rw no_hit (dense_ranked-Returns (suc index) cs)
        | inl good ↦ elim (Option-cases (embedding_of c)) [
          | inl no_vector ↦ rw (good, no_vector) (dense_ranked-Returns (suc index) cs)
          | inr (r, found) ↦
              rw (good, found)
                (dense_entry-Returns index c (cosine_distance f query r.embedding) _
                  (ground arith, ground arith, λ p. cc) (dense_ranked-Returns (suc index) cs))
        ]
      ]

module _ (u : UnicodeTables) (passes : EventChunk → Bool) (query_tokens : List Text) where
  abbrev pub SparseHit : EventChunk → Type 0
  SparseHit c =
      (passes c ≡ true) × (nat_beq (overlap query_tokens (tokenize u c.chunk_text)) 0 ≡ false)

  sparse_ranked-All :
      (index : ℕ) (cs : List EventChunk)
      → All (λ r. SparseHit r.chunk) (sparse_ranked u passes query_tokens index cs)
  unfolding sparse_ranked
  sparse_ranked-All index [] = tt
  sparse_ranked-All index (c ∷ cs) =
      elim (Bool-cases
        (passes c && not (nat_beq (overlap query_tokens (tokenize u c.chunk_text)) 0))) [
          | inr no_hit ↦ rw no_hit (sparse_ranked-All (suc index) cs)
          | inl good ↦ rw good ((ground arith, ground arith), sparse_ranked-All (suc index) cs)
        ]

-- The dense leg writes nothing; and what it returns is at most `limit` chunks, each of the
-- community, active, in the date range and the subject scope, and ready, with a vector of the model.
pub dense_candidates-IsLeg :
    (f : FloatOps) (community_id : Text) (query : List Float) (model_name : Text) (limit : ℤ)
    (date_range : Option DateRange) (subject_scope : Option Text) (s : MockDomainStore)
    → let r = dense_candidates f community_id query model_name limit date_range subject_scope s in
      (r.1 ≡ s)
      × Returns
          (IsLeg
            (DenseHit f
              (is_in_scope community_id date_range subject_scope)
              (λ c. lookup (c.chunk_id, model_name) s.embeddings)
              query)
            limit)
          r.0
unfolding dense_candidates
dense_candidates-IsLeg f community_id query model_name limit date_range subject_scope s =
    elim (Bool-cases (is_empty community_id)) [
      | inl e ↦ rw e (refl, tt)
      | inr e ↦ elim (Bool-cases (is_below_one limit)) [
        | inl low ↦ rw (e, low) (refl, (tt, omega arith))
        | inr good ↦
            rw (e, good)
              (
                refl,
                top_ranked-Returns _ (dense_before f) limit _ (
                    dense_ranked-Returns f (is_in_scope community_id date_range subject_scope)
                      (λ c. lookup (c.chunk_id, model_name) s.embeddings) query 0
                      (values s.chunks)),
              )
      ]
    ]

-- The sparse leg writes nothing; and what it returns is at most `limit` chunks, each of the
-- community, active, in the date range and the subject scope, and sharing a token with the query.
pub sparse_candidates-IsLeg :
    (u : UnicodeTables) (community_id query_text : Text) (limit : ℤ) (date_range : Option DateRange)
    (subject_scope : Option Text) (s : MockDomainStore)
    → let r = sparse_candidates u community_id query_text limit date_range subject_scope s in
      (r.1 ≡ s)
      × Returns
          (IsLeg
            (SparseHit u
              (is_in_scope community_id date_range subject_scope)
              (tokenize u query_text))
            limit)
          r.0
unfolding sparse_candidates
sparse_candidates-IsLeg u community_id query_text limit date_range subject_scope s =
    elim (Bool-cases (is_empty community_id)) [
      | inl e ↦ rw e (refl, tt)
      | inr e ↦ elim (Bool-cases (is_below_one limit || has_no_token (tokenize u query_text))) [
        | inl low ↦ rw (e, low) (refl, (tt, omega arith))
        | inr good ↦
            rw (e, good)
              (
                refl,
                top_ranked-Returns
                    (SparseHit u (is_in_scope community_id date_range subject_scope)
                      (tokenize u query_text))
                    sparse_before limit
                    (ok (
                      sparse_ranked u (is_in_scope community_id date_range subject_scope)
                        (tokenize u query_text) 0 (values s.chunks)))
                    (sparse_ranked-All u (is_in_scope community_id date_range subject_scope)
                      (tokenize u query_text) 0 (values s.chunks)),
              )
      ]
    ]
