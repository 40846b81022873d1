-- ===== src/Retrieval/Ranked.antt =====
-- The scores and the order of rank fusion, services/retrieval.py.
use diary_memory_service.Base.{
  ℕ, zero, suc, Bool, true, false, ◌≡◌, refl, sym, ap, ◌∙◌, Option, none, some, List, [], ◌∷◌, All,
  All-map, All-take, take, length, ◌==◌, eq_of_beq, text_eq, inl, inr, Bool-cases, arith,
  if◌then◌else◌,
}
use diary_memory_service.Base.Text.{Text}
use diary_memory_service.Base.Int.{ℤ, is_below_one, pos_part}
use diary_memory_service.Base.Dict.{Dict, lookup, values, lookup-insert}
use diary_memory_service.Base.Sort.{sort_by, insert_sorted, All-sort_by}
use diary_memory_service.Exec.Laws.{Returns}
use diary_memory_service.Models.{EventChunk, Float}
use diary_memory_service.Store.Active.{lookups-Keyed}
use diary_memory_service.Retrieval.{
  Scores, Fused, FusedHit, fused_next, fuse_chunk, fuse_ranking, fuse_rankings, fused_before,
  hits_of, reciprocal_rank_fusion,
}
use diary_memory_service.Retrieval.Distinct.{fuse_rankings-IsMerging}

module _ (f : Scores) (k : ℕ) (id : Text) where
  -- The contributions of a chunk's ranks in one ranking, added to what there was.
  abbrev pub ranking_score : ℕ → List EventChunk → Float → Float
  ranking_score rank [] x = x
  ranking_score rank (c ∷ cs) x =
      ranking_score (suc rank) cs (if c.chunk_id == id then f.plus x (f.contribution k rank) else x)

  -- The same over all rankings, in their order.
  abbrev pub rankings_score : List (List EventChunk) → Float → Float
  rankings_score [] x = x
  rankings_score (r ∷ rs) x = rankings_score rs (ranking_score 1 r x)

  abbrev score_or_zero : Option Fused → Float
  score_or_zero none = f.zero_point
  score_or_zero (some v) = v.score

  score-fused_next :
      (x : Float) (c : EventChunk) (seen : ℕ) (old : Option Fused)
      → (fused_next f x c seen old).score ≡ f.plus (score_or_zero old) x
  score-fused_next x c seen none = refl
  score-fused_next x c seen (some old) = refl

  score-fuse_chunk :
      (rank : ℕ) (c : EventChunk) (d : Dict Text Fused)
      → score_or_zero (lookup id (fuse_chunk f k rank c d)) ≡ (
          if c.chunk_id == id
          then f.plus (score_or_zero (lookup id d)) (f.contribution k rank)
          else score_or_zero (lookup id d))
  unfolding fuse_chunk
  score-fuse_chunk rank c d =
      let v : Fused = fused_next f (f.contribution k rank) c (length d) (lookup c.chunk_id d) in
      elim (Bool-cases (c.chunk_id == id)) [
        | inl same ↦
            rw (lookup-insert c.chunk_id id v d, same)
              (score-fused_next (f.contribution k rank) c (length d) (lookup c.chunk_id d)
                ∙ ap (λ i. f.plus (score_or_zero (lookup i d)) (f.contribution k rank))
                    (eq_of_beq c.chunk_id id same))
        | inr other ↦ rw (lookup-insert c.chunk_id id v d, other) refl
      ]

  score-fuse_ranking :
      (rank : ℕ) (cs : List EventChunk) (d : Dict Text Fused)
      → score_or_zero (lookup id (fuse_ranking f k rank cs d))
        ≡ ranking_score rank cs (score_or_zero (lookup id d))
  unfolding fuse_ranking
  score-fuse_ranking rank [] d = refl
  score-fuse_ranking rank (c ∷ cs) d =
      score-fuse_ranking (suc rank) cs (fuse_chunk f k rank c d)
      ∙ ap (ranking_score (suc rank) cs) (score-fuse_chunk rank c d)

  score-fuse_rankings :
      (rs : List (List EventChunk)) (d : Dict Text Fused)
      → score_or_zero (lookup id (fuse_rankings f k rs d))
        ≡ rankings_score rs (score_or_zero (lookup id d))
  unfolding fuse_rankings
  score-fuse_rankings [] d = refl
  score-fuse_rankings (r ∷ rs) d =
      score-fuse_rankings rs (fuse_ranking f k 1 r d)
      ∙ ap (rankings_score rs) (score-fuse_ranking 1 r d)

-- No element of a list should precede the one before it.
module _ {A : Type 0} (before : A → A → Bool) where
  abbrev pub Follows : A → List A → Type 0
  Follows x [] = Unit
  Follows x (y ∷ ys) = before y x ≡ false

  abbrev pub IsDescending : List A → Type 0
  IsDescending [] = Unit
  IsDescending (x ∷ xs) = Follows x xs × IsDescending xs

  module _ (asym : (x y : A) → before x y ≡ true → before y x ≡ false) where
    Follows-insert_sorted :
        (y x : A) (ys : List A)
        → before y x ≡ true
        → Follows y ys
        → Follows y (insert_sorted before x ys)
    unfolding insert_sorted
    Follows-insert_sorted y x [] later h = asym y x later
    Follows-insert_sorted y x (z ∷ zs) later h = elim (Bool-cases (before z x)) [
      | inl e ↦ rw e h
      | inr e ↦ rw e (asym y x later)
    ]

    insert_sorted-IsDescending :
        (x : A) (ys : List A) → IsDescending ys → IsDescending (insert_sorted before x ys)
    unfolding insert_sorted
    insert_sorted-IsDescending x [] h = (tt, tt)
    insert_sorted-IsDescending x (y ∷ ys) h = elim (Bool-cases (before y x)) [
      | inl e ↦ rw e (Follows-insert_sorted y x ys e h.0, insert_sorted-IsDescending x ys h.1)
      | inr e ↦ rw e (e, h)
    ]

    sort_by-IsDescending : (xs : List A) → IsDescending (sort_by before xs)
    unfolding sort_by
    sort_by-IsDescending [] = tt
    sort_by-IsDescending (x ∷ xs) =
        insert_sorted-IsDescending x (sort_by before xs) (sort_by-IsDescending xs)

  Follows-take : (n : ℕ) (x : A) (xs : List A) → Follows x xs → Follows x (take n xs)
  Follows-take zero x xs h = tt
  Follows-take (suc n) x [] h = tt
  Follows-take (suc n) x (y ∷ ys) h = h

  take-IsDescending : (n : ℕ) (xs : List A) → IsDescending xs → IsDescending (take n xs)
  take-IsDescending zero xs h = tt
  take-IsDescending (suc n) [] h = tt
  take-IsDescending (suc n) (x ∷ xs) h = (Follows-take n x xs h.0, take-IsDescending n xs h.1)

-- What `==` and `>` of doubles keep to.
pub record Comparable (f : Scores) : Type 0 where
  pub same_symmetric : (a b : Float) → f.same a b ≡ f.same b a
  pub more_asymmetric : (a b : Float) → f.more a b ≡ true → f.more b a ≡ false
  pub same_not_more : (a b : Float) → f.same a b ≡ true → f.more a b ≡ false

abbrev pub scored_before : Scores → FusedHit → FusedHit → Bool
scored_before f x y = f.more x.score y.score

module _ (f : Scores) (laws : Comparable f) where
  fused_before-asymmetric : (a b : Fused) → fused_before f a b ≡ true → fused_before f b a ≡ false
  unfolding fused_before
  fused_before-asymmetric a b h =
      ground (arith, h, laws.same_symmetric a.score b.score, laws.more_asymmetric a.score b.score)

  not_before-more : (a b : Fused) → fused_before f a b ≡ false → f.more a.score b.score ≡ false
  unfolding fused_before
  not_before-more a b h = ground (arith, h, laws.same_not_more a.score b.score)

  hits_of-IsDescending :
      (xs : List Fused)
      → IsDescending (fused_before f) xs
      → IsDescending (scored_before f) (hits_of xs)
  hits_of-IsDescending [] h = tt
  hits_of-IsDescending (x ∷ []) h = (tt, tt)
  hits_of-IsDescending (x ∷ y ∷ ys) h = (not_before-more y x h.0, hits_of-IsDescending (y ∷ ys) h.1)

hits_of-scores :
    (P : Text → Float → Type 0) (xs : List Fused)
    → All (λ v. P v.chunk.chunk_id v.score) xs
    → All (λ h. P h.chunk.chunk_id h.score) (hits_of xs)
hits_of-scores P [] h = tt
hits_of-scores P (x ∷ xs) h = (h.0, hits_of-scores P xs h.1)

-- Over comparable scores, no merged chunk has a higher score than the one before it. Each chunk's score
-- is the sum of the contributions of its ranks, added in the order of the rankings.
pub reciprocal_rank_fusion-IsDescending :
    (f : Scores) (rankings : List (List EventChunk)) (top_k k : ℤ)
    → Comparable f
    → Returns
        (λ hits.
          IsDescending (scored_before f) hits
          × All
              (λ h. h.score ≡ rankings_score f (pos_part k) h.chunk.chunk_id rankings f.zero_point)
              hits)
        (reciprocal_rank_fusion f rankings top_k k)
unfolding reciprocal_rank_fusion
reciprocal_rank_fusion-IsDescending f rankings top_k k laws =
    elim (Bool-cases (is_below_one top_k)) [
      | inl low ↦ rw low (tt, tt)
      | inr high ↦ elim (Bool-cases (is_below_one k)) [
        | inl bad ↦ rw (high, bad) tt
        | inr good ↦
            (let P : Text → Float → Type 0 =
                λ id x. x ≡ rankings_score f (pos_part k) id rankings f.zero_point in
              let d = fuse_rankings f (pos_part k) rankings [] in
              let merging = fuse_rankings-IsMerging f (pos_part k) rankings [] (tt, tt) in
              let xs = sort_by (fused_before f) (values d) in
              rw (high, good)
                (
                  hits_of-IsDescending f laws (take (pos_part top_k) xs) (
                      take-IsDescending (fused_before f) (pos_part top_k) xs (
                        sort_by-IsDescending (fused_before f) (fused_before-asymmetric f laws)
                          (values d))),
                  hits_of-scores P (take (pos_part top_k) xs) (
                      All-take (λ v. P v.chunk.chunk_id v.score) (pos_part top_k) xs
                        (All-sort_by (fused_before f) (λ v. P v.chunk.chunk_id v.score) (values d)
                          (All-map (λ v. lookup v.chunk.chunk_id d ≡ some v)
                            (λ v. P v.chunk.chunk_id v.score) (values d)
                            (λ v found.
                              ap (score_or_zero f (pos_part k) v.chunk.chunk_id) (sym found)
                              ∙ score-fuse_rankings f (pos_part k) v.chunk.chunk_id rankings [])
                            (lookups-Keyed (λ v. v.chunk.chunk_id) d merging.0 merging.1)))),
                ))
      ]
    ]
