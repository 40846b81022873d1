-- ===== src/Retrieval/Distinct.antt =====
-- Rank fusion merges no chunk twice, services/retrieval.py.
use diary_memory_service.Base.{
  ℕ, zero, suc, Bool, true, false, ◌≡◌, refl, Option, none, some, List, [], ◌∷◌, All, All-take,
  take, length, ◌==◌, text_eq, inl, inr, Bool-cases, arith,
}
use diary_memory_service.Base.Text.{Text}
use diary_memory_service.Base.Int.{ℤ, is_below_one, pos_part}
use diary_memory_service.Base.Dict.{Dict, lookup, values}
use diary_memory_service.Base.Sort.{sort_by, insert_sorted, All-insert_sorted, All-sort_by}
use diary_memory_service.Exec.Laws.{Returns}
use diary_memory_service.Models.{EventChunk, Float}
use diary_memory_service.Store.Removal.Erased.{Distinct, Keyed}
use diary_memory_service.Store.Removal.Keys.{insert-Distinct, insert-Keyed, lookup-Keyed}
use diary_memory_service.Retrieval.{
  Scores, Fused, fused_next, fuse_chunk, fuse_ranking, fuse_rankings, fused_before, hits_of,
  merged_chunks, reciprocal_rank_fusion,
}

module _ {A : Type 0} (id : A → Text) where
  -- No two elements have the same id.
  abbrev pub AllApart : List A → Type 0
  AllApart [] = Unit
  AllApart (x ∷ xs) = All (λ y. (id x == id y) ≡ false) xs × AllApart xs

  take-AllApart : (n : ℕ) (xs : List A) → AllApart xs → AllApart (take n xs)
  take-AllApart zero xs h = tt
  take-AllApart (suc n) [] h = tt
  take-AllApart (suc n) (x ∷ xs) h =
      (All-take (λ y. (id x == id y) ≡ false) n xs h.0, take-AllApart n xs h.1)

  apart_from : (x y : A) → (id x == id y) ≡ false → (id y == id x) ≡ false
  apart_from x y h =
      ground (arith, text_eq.equals_iff (id x) (id y), text_eq.equals_iff (id y) (id x))

  module _ (before : A → A → Bool) where
    insert_sorted-AllApart :
        (x : A) (ys : List A)
        → All (λ y. (id x == id y) ≡ false) ys
        → AllApart ys
        → AllApart (insert_sorted before x ys)
    unfolding insert_sorted
    insert_sorted-AllApart x [] h k = (tt, tt)
    insert_sorted-AllApart x (y ∷ ys) h k = elim (Bool-cases (before y x)) [
      | inl later ↦ rw later (
        All-insert_sorted before (λ z. (id y == id z) ≡ false) x ys (apart_from x y h.0) k.0,
        insert_sorted-AllApart x ys h.1 k.1,
      )
      | inr sooner ↦ rw sooner (h, k)
    ]

    sort_by-AllApart : (xs : List A) → AllApart xs → AllApart (sort_by before xs)
    unfolding sort_by
    sort_by-AllApart [] h = tt
    sort_by-AllApart (x ∷ xs) h =
        insert_sorted-AllApart x (sort_by before xs)
          (All-sort_by before (λ y. (id x == id y) ≡ false) xs h.0) (sort_by-AllApart xs h.1)

  values-apart :
      (v : A) (d : Dict Text A)
      → lookup (id v) d ≡ none
      → Keyed id d
      → All (λ y. (id v == id y) ≡ false) (values d)
  values-apart v [] h k = tt
  values-apart v ((j, w) ∷ d) h k = elim (Bool-cases (j == id v)) [
    | inl same ↦ absurd (clash same)
    | inr other ↦ (
      rw (k.0) (ground (arith, text_eq.equals_iff j (id v), text_eq.equals_iff (id v) j, other)),
      values-apart v d (rw other at h) k.1,
    )
  ]
    where
      clash : (j == id v) ≡ true → ⊥
      clash p = cc (rw p at h)

  values-AllApart : (d : Dict Text A) → Distinct d → Keyed id d → AllApart (values d)
  values-AllApart [] h k = tt
  values-AllApart ((j, v) ∷ d) h k =
      (values-apart v d (rw (k.0) (h.0)) k.1, values-AllApart d h.1 k.1)

-- Each chunk has one entry, under its id.
abbrev pub IsMerging : Dict Text Fused → Type 0
IsMerging d = Distinct d × Keyed (λ v. v.chunk.chunk_id) d

module _ (f : Scores) (k : ℕ) where
  fused_next-id :
      (x : Float) (c : EventChunk) (seen : ℕ) (old : Option Fused)
      → ((v : Fused) → old ≡ some v → v.chunk.chunk_id ≡ c.chunk_id)
      → (fused_next f x c seen old).chunk.chunk_id ≡ c.chunk_id
  fused_next-id x c seen none h = refl
  fused_next-id x c seen (some old) h = h old refl

  fuse_chunk-IsMerging :
      (rank : ℕ) (c : EventChunk) (d : Dict Text Fused)
      → IsMerging d
      → IsMerging (fuse_chunk f k rank c d)
  unfolding fuse_chunk
  fuse_chunk-IsMerging rank c d h =
      let v : Fused = fused_next f (f.contribution k rank) c (length d) (lookup c.chunk_id d) in
      (
        insert-Distinct c.chunk_id v d h.0,
        insert-Keyed (λ v. v.chunk.chunk_id) c.chunk_id v d
            (fused_next-id (f.contribution k rank) c (length d) (lookup c.chunk_id d)
              (λ v. lookup-Keyed (λ v. v.chunk.chunk_id) c.chunk_id v d h.1))
            h.1,
      )

  fuse_ranking-IsMerging :
      (rank : ℕ) (cs : List EventChunk) (d : Dict Text Fused)
      → IsMerging d
      → IsMerging (fuse_ranking f k rank cs d)
  unfolding fuse_ranking
  fuse_ranking-IsMerging rank [] d h = h
  fuse_ranking-IsMerging rank (c ∷ cs) d h =
      fuse_ranking-IsMerging (suc rank) cs (fuse_chunk f k rank c d)
        (fuse_chunk-IsMerging rank c d h)

  pub fuse_rankings-IsMerging :
      (rankings : List (List EventChunk)) (d : Dict Text Fused)
      → IsMerging d
      → IsMerging (fuse_rankings f k rankings d)
  unfolding fuse_rankings
  fuse_rankings-IsMerging [] d h = h
  fuse_rankings-IsMerging (r ∷ rs) d h =
      fuse_rankings-IsMerging rs (fuse_ranking f k 1 r d) (fuse_ranking-IsMerging 1 r d h)

hits_of-apart :
    (x : Fused) (xs : List Fused)
    → All (λ y. (x.chunk.chunk_id == y.chunk.chunk_id) ≡ false) xs
    → All (λ c. (x.chunk.chunk_id == c.chunk_id) ≡ false) (merged_chunks (hits_of xs))
hits_of-apart x [] h = tt
hits_of-apart x (y ∷ ys) h = (h.0, hits_of-apart x ys h.1)

hits_of-AllApart :
    (xs : List Fused)
    → AllApart (λ v. v.chunk.chunk_id) xs
    → AllApart (λ c. c.chunk_id) (merged_chunks (hits_of xs))
hits_of-AllApart [] h = tt
hits_of-AllApart (x ∷ xs) h = (hits_of-apart x xs h.0, hits_of-AllApart xs h.1)

-- A chunk that several rankings hold, or that one holds several times, is merged once: no two of the
-- merged chunks have the same id.
pub reciprocal_rank_fusion-AllApart :
    (f : Scores) (rankings : List (List EventChunk)) (top_k k : ℤ)
    → Returns
        (λ hits. AllApart (λ c. c.chunk_id) (merged_chunks hits))
        (reciprocal_rank_fusion f rankings top_k k)
unfolding reciprocal_rank_fusion
reciprocal_rank_fusion-AllApart f rankings top_k k = elim (Bool-cases (is_below_one top_k)) [
  | inl low ↦ rw low tt
  | inr high ↦ elim (Bool-cases (is_below_one k)) [
    | inl bad ↦ rw (high, bad) tt
    | inr good ↦
        (let d = fuse_rankings f (pos_part k) rankings [] in
          let merging = fuse_rankings-IsMerging f (pos_part k) rankings [] (tt, tt) in
          let xs = sort_by (fused_before f) (values d) in
          rw (high, good)
            (hits_of-AllApart (take (pos_part top_k) xs) (
              take-AllApart (λ v. v.chunk.chunk_id) (pos_part top_k) xs
                (sort_by-AllApart (λ v. v.chunk.chunk_id) (fused_before f) (values d)
                  (values-AllApart (λ v. v.chunk.chunk_id) d merging.0 merging.1)))))
  ]
]
