-- ===== src/Retrieval/Fusion.antt =====
-- The results of rank fusion, services/retrieval.py.
use diary_memory_service.Base.{
  ℕ, suc, ◌≤◌, ◌≡◌, refl, Option, none, some, List, [], ◌∷◌, All, All-take, take, length,
  length-take, ◌==◌, text_eq, inl, inr, Bool-cases, arith,
}
use mathlib.Core.Option.{some-injective}
use mathlib.Core.Path.{subst}
use diary_memory_service.Base.Text.{Text}
use diary_memory_service.Base.Int.{ℤ, is_below_one, pos_part}
use diary_memory_service.Base.Dict.{Dict, lookup, insert, values}
use diary_memory_service.Base.Sort.{sort_by, All-sort_by}
use diary_memory_service.Exec.Laws.{Returns}
use diary_memory_service.Models.{EventChunk, Float}
use diary_memory_service.Retrieval.{
  Scores, Fused, fused_next, fuse_chunk, fuse_ranking, fuse_rankings, fused_before, hits_of,
  merged_chunks, reciprocal_rank_fusion,
}

module _ (P : EventChunk → Type 0) where
  abbrev FusedAll : Dict Text Fused → Type 0
  FusedAll [] = Unit
  FusedAll ((k, v) ∷ d) = P v.chunk × FusedAll d

  FusedAll-values : (d : Dict Text Fused) → FusedAll d → All (λ v. P v.chunk) (values d)
  FusedAll-values [] h = tt
  FusedAll-values ((k, v) ∷ d) h = (h.0, FusedAll-values d h.1)

  FusedAll-insert :
      (k : Text) (v : Fused) (d : Dict Text Fused)
      → P v.chunk
      → FusedAll d
      → FusedAll (insert k v d)
  FusedAll-insert k v [] p h = (p, tt)
  FusedAll-insert k v ((j, w) ∷ d) p h = elim (Bool-cases (j == k)) [
    | inl e ↦ rw e (p, h.1)
    | inr e ↦ rw e (h.0, FusedAll-insert k v d p h.1)
  ]

  FusedAll-lookup :
      (k : Text) (d : Dict Text Fused) (v : Fused) → FusedAll d → lookup k d ≡ some v → P v.chunk
  FusedAll-lookup k [] v h e = cc
  FusedAll-lookup k ((j, w) ∷ d) v h e = elim (Bool-cases (j == k)) [
    | inl same ↦ subst (λ x. P x.chunk) (some-injective w v (rw same at e)) h.0
    | inr other ↦ FusedAll-lookup k d v h.1 (rw other at e)
  ]

  module _ (f : Scores) (k : ℕ) where
    fused_next-All :
        (x : Float) (c : EventChunk) (n : ℕ) (old : Option Fused)
        → P c
        → ((v : Fused) → old ≡ some v → P v.chunk)
        → P (fused_next f x c n old).chunk
    fused_next-All x c n none p h = p
    fused_next-All x c n (some old) p h = h old refl

    fuse_chunk-All :
        (rank : ℕ) (c : EventChunk) (d : Dict Text Fused)
        → P c
        → FusedAll d
        → FusedAll (fuse_chunk f k rank c d)
    unfolding fuse_chunk
    fuse_chunk-All rank c d p h =
        FusedAll-insert c.chunk_id _ d
          (fused_next-All _ c (length d) (lookup c.chunk_id d) p
            (λ v e. FusedAll-lookup c.chunk_id d v h e))
          h

    fuse_ranking-All :
        (rank : ℕ) (cs : List EventChunk) (d : Dict Text Fused)
        → All P cs
        → FusedAll d
        → FusedAll (fuse_ranking f k rank cs d)
    unfolding fuse_ranking
    fuse_ranking-All rank [] d ps h = h
    fuse_ranking-All rank (c ∷ cs) d ps h =
        fuse_ranking-All (suc rank) cs (fuse_chunk f k rank c d) ps.1
          (fuse_chunk-All rank c d ps.0 h)

    fuse_rankings-All :
        (rankings : List (List EventChunk)) (d : Dict Text Fused)
        → All (All P) rankings
        → FusedAll d
        → FusedAll (fuse_rankings f k rankings d)
    unfolding fuse_rankings
    fuse_rankings-All [] d ps h = h
    fuse_rankings-All (r ∷ rs) d ps h =
        fuse_rankings-All rs (fuse_ranking f k 1 r d) ps.1 (fuse_ranking-All 1 r d ps.0 h)

  hits_of-All : (xs : List Fused) → All (λ v. P v.chunk) xs → All P (merged_chunks (hits_of xs))
  hits_of-All [] h = tt
  hits_of-All (x ∷ xs) h = (h.0, hits_of-All xs h.1)

length-hits_of : (xs : List Fused) → length (hits_of xs) ≡ length xs
length-hits_of [] = refl
length-hits_of (x ∷ xs) = omega (arith, length-hits_of xs)

-- A property of every ranked chunk is one of every merged chunk, and at most top_k are merged.
pub reciprocal_rank_fusion-All :
    (P : EventChunk → Type 0) (f : Scores) (rankings : List (List EventChunk)) (top_k k : ℤ)
    → All (All P) rankings
    → Returns
        (λ hits. All P (merged_chunks hits) × (length hits ≤ pos_part top_k))
        (reciprocal_rank_fusion f rankings top_k k)
unfolding reciprocal_rank_fusion
reciprocal_rank_fusion-All P f rankings top_k k ps = elim (Bool-cases (is_below_one top_k)) [
  | inl low ↦ rw low (tt, omega arith)
  | inr high ↦ elim (Bool-cases (is_below_one k)) [
    | inl bad ↦ rw (high, bad) tt
    | inr good ↦
        (let xs = sort_by (fused_before f) (values (fuse_rankings f (pos_part k) rankings [])) in
          rw (high, good)
            (
              hits_of-All P (take (pos_part top_k) xs) (
                  All-take _ (pos_part top_k) xs (
                    All-sort_by (fused_before f) _ _ (
                      FusedAll-values P (fuse_rankings f (pos_part k) rankings [])
                        (fuse_rankings-All P f (pos_part k) rankings [] ps tt)))),
              omega (
                arith,
                length-hits_of (take (pos_part top_k) xs),
                length-take (pos_part top_k) xs,
              ),
            ))
  ]
]
