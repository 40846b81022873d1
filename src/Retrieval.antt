-- ===== src/Retrieval.antt =====
-- Reciprocal rank fusion and the retrieval trace: src/memory_rag/services/retrieval.py and
-- services/context_assembler.py.
pub mod Fusion
pub mod Distinct
pub mod Ranked
use diary_memory_service.Base.{
  ℕ, suc, ◌+◌, Bool, Option, none, some, List, [], ◌∷◌, ◌++◌, map, take, length, ltb, if◌then◌else◌,
  text_eq,
}
use diary_memory_service.Base.Text.{Text, codes}
use diary_memory_service.Base.Int.{ℤ, is_below_one, pos_part}
use diary_memory_service.Base.Dict.{Dict, lookup, insert, values}
use diary_memory_service.Base.Sort.{sort_by}
use diary_memory_service.Exec.{Result, ok, raised, value_error}
use diary_memory_service.Models.{
  DateTime, Float, EventChunk, RetrievalHit, RetrievalLeg, dense, sparse, merged, Query,
  AnswerContext,
}

-- Doubles: 0.0, `+`, the contribution 1.0 / (k + rank), and the tests of the sort key.
pub record Scores : Type 0 where
  pub zero_point : Float
  pub plus : Float → Float → Float
  pub contribution : ℕ → ℕ → Float
  pub more : Float → Float → Bool
  pub same : Float → Float → Bool

pub record FusedHit : Type 0 where
  pub chunk : EventChunk
  pub score : Float

-- What the three dicts of the loop hold for one chunk_id.
pub record Fused : Type 0 where
  pub chunk : EventChunk
  pub score : Float
  pub first_seen : ℕ

abbrev pub fused_next : Scores → Float → EventChunk → ℕ → Option Fused → Fused
fused_next f x chunk seen none = record {
  chunk = chunk;
  score = f.plus f.zero_point x;
  first_seen = seen;
}
fused_next f x chunk seen (some old) = record old { score = f.plus old.score x }

-- One round of the inner loop.
unfoldable pub fuse_chunk : Scores → ℕ → ℕ → EventChunk → Dict Text Fused → Dict Text Fused
fuse_chunk f k rank chunk d =
    insert chunk.chunk_id
      (fused_next f (f.contribution k rank) chunk (length d) (lookup chunk.chunk_id d)) d

unfoldable pub fuse_ranking : Scores → ℕ → ℕ → List EventChunk → Dict Text Fused → Dict Text Fused
fuse_ranking f k rank [] d = d
fuse_ranking f k rank (c ∷ cs) d = fuse_ranking f k (suc rank) cs (fuse_chunk f k rank c d)

unfoldable pub fuse_rankings :
    Scores → ℕ → List (List EventChunk) → Dict Text Fused → Dict Text Fused
fuse_rankings f k [] d = d
fuse_rankings f k (r ∷ rs) d = fuse_rankings f k rs (fuse_ranking f k 1 r d)

-- The order of the pairs (-score, first_seen).
unfoldable pub fused_before : Scores → Fused → Fused → Bool
fused_before f a b =
    if f.same a.score b.score then ltb a.first_seen b.first_seen else f.more a.score b.score

abbrev pub hits_of : List Fused → List FusedHit
hits_of [] = []
hits_of (x ∷ xs) = record { chunk = x.chunk; score = x.score } ∷ hits_of xs

unfoldable pub reciprocal_rank_fusion :
    Scores → List (List EventChunk) → ℤ → ℤ → Result (List FusedHit)
reciprocal_rank_fusion f leg_rankings top_k k =
    if is_below_one top_k
    then ok []
    else if is_below_one k
    then raised value_error
    else ok (
        hits_of (
          take (pos_part top_k)
            (sort_by (fused_before f) (values (fuse_rankings f (pos_part k) leg_rankings [])))))

pub record RetrievedCandidates : Type 0 where
  pub dense : List EventChunk
  pub sparse : List EventChunk
  pub merged : List FusedHit
  pub embedding_model_name : Text

abbrev pub sparse_model_name : Text
sparse_model_name = codes "simple"

abbrev pub default_rrf_k : ℕ
default_rrf_k = 60

unfoldable pub rrf_leg_score : Scores → ℕ → Float
rrf_leg_score f rank = f.contribution default_rrf_k rank

module _ (f : Scores) (hit_id : RetrievalLeg → ℕ → Text) (query_id : Text)
    (created_at : DateTime) where
  abbrev pub trace_hit : RetrievalLeg → ℕ → EventChunk → Float → Text → RetrievalHit
  trace_hit leg rank chunk score model_name = record {
    retrieval_hit_id = hit_id leg rank;
    query_id = query_id;
    chunk_id = chunk.chunk_id;
    leg = leg;
    rank = rank;
    score = score;
    model_name = model_name;
    created_at = created_at;
  }

  -- The rows of one leg, from this rank on.
  unfoldable pub leg_hits : RetrievalLeg → Text → ℕ → List EventChunk → List RetrievalHit
  leg_hits leg model_name rank [] = []
  leg_hits leg model_name rank (c ∷ cs) =
      trace_hit leg rank c (rrf_leg_score f rank) model_name ∷ leg_hits leg model_name (suc rank) cs

  unfoldable pub merged_hits : Text → ℕ → List FusedHit → List RetrievalHit
  merged_hits model_name rank [] = []
  merged_hits model_name rank (h ∷ hs) =
      trace_hit RetrievalLeg.merged rank h.chunk h.score model_name
      ∷ merged_hits model_name (suc rank) hs

  unfoldable pub build_retrieval_hits : Text → RetrievedCandidates → List RetrievalHit
  build_retrieval_hits model_name candidates =
      leg_hits RetrievalLeg.dense model_name 1 candidates.dense
      ++ (leg_hits RetrievalLeg.sparse sparse_model_name 1 candidates.sparse
          ++ merged_hits model_name 1 candidates.merged)

abbrev pub merged_chunks : List FusedHit → List EventChunk
merged_chunks [] = []
merged_chunks (h ∷ hs) = h.chunk ∷ merged_chunks hs

unfoldable pub assemble_answer_context : Query → List FusedHit → AnswerContext
assemble_answer_context query hits = record {
  query_id = query.query_id;
  query_text = query.query_text;
  ordered_chunks = merged_chunks hits;
  model_name = query.model_name;
  created_at = query.created_at;
}
