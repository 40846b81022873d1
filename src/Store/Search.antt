-- ===== src/Store/Search.antt =====
-- Hybrid retrieval legs: storage/mock/store.py, `dense_candidates` and `sparse_candidates` with the
-- helpers around them. The arithmetic of doubles, and Unicode's lower case and word characters,
-- are parameters.
pub mod Laws
use diary_memory_service.Base.{
  ℕ, zero, suc, ◌+◌, Bool, true, false, not, ◌&&◌, ◌||◌, Option, none, some, List, [], ◌∷◌, ◌++◌,
  keep, map, reverse, length, take, ltb, nat_beq, ◌==◌, text_eq, text_pair_eq, if◌then◌else◌,
}
use diary_memory_service.Base.Text.{Text, is_empty}
use diary_memory_service.Base.Int.{ℤ, is_below_one, pos_part}
use diary_memory_service.Base.Dict.{Dict, lookup, values}
use diary_memory_service.Base.Sort.{sort_by}
use diary_memory_service.Exec.{Exec, Result, ok, raised, value_error, outcome_then, ◌>>=◌, ◌>>◌}
use diary_memory_service.Models.{
  Float, Date, date_ltb, DateRange, EventChunk, EmbeddingRecord, is_active, is_ready,
}
use diary_memory_service.Store.{MockDomainStore, require_community}

-- IEEE doubles, with Python's operators and `math.sqrt`.
pub record FloatOps : Type 0 where
  pub zero_point : Float
  pub one : Float
  pub half : Float
  pub of_nat : ℕ → Float
  pub add : Float → Float → Float
  pub sub : Float → Float → Float
  pub mul : Float → Float → Float
  pub div : Float → Float → Float
  pub sqrt : Float → Float
  pub less : Float → Float → Bool
  pub at_least : Float → Float → Bool
  pub same : Float → Float → Bool

-- `str.lower`, and the characters that the pattern `\w` matches.
pub record UnicodeTables : Type 0 where
  pub lower : Text → Text
  pub is_word : ℕ → Bool

-- The maximal runs of word characters, from the left; `run` is the current one.
unfoldable pub word_runs : (ℕ → Bool) → Text → Text → List Text
word_runs is_word run [] = if is_empty run then [] else run ∷ []
word_runs is_word run (c ∷ s) =
    let longer = word_runs is_word (run ++ c ∷ []) s in
    let fresh = word_runs is_word [] s in
    if is_word c then longer else if is_empty run then fresh else run ∷ fresh

unfoldable pub tokenize : UnicodeTables → Text → List Text
tokenize u text = word_runs u.is_word [] (u.lower text)

-- `note_date < start` and `note_date > stop`, where a bound is set.
abbrev pub is_before_start : Date → Option Date → Bool
is_before_start d none = false
is_before_start d (some start) = date_ltb d start

abbrev pub is_after_stop : Date → Option Date → Bool
is_after_stop d none = false
is_after_stop d (some stop) = date_ltb stop d

unfoldable pub chunk_in_date_range : EventChunk → Option DateRange → Bool
chunk_in_date_range chunk none = true
chunk_in_date_range chunk (some r) =
    if is_before_start chunk.note_date r.start
    then false
    else not (is_after_stop chunk.note_date r.stop)

abbrev pub is_subject : Text → Option Text → Bool
is_subject scope none = false
is_subject scope (some subject) = subject == scope

unfoldable pub chunk_in_subject_scope : EventChunk → Option Text → Bool
chunk_in_subject_scope chunk none = true
chunk_in_subject_scope chunk (some scope) = is_subject scope chunk.subject_id

-- The filters that both legs apply first, in the order of the loop.
unfoldable pub is_in_scope : Text → Option DateRange → Option Text → EventChunk → Bool
is_in_scope community_id date_range subject_scope chunk =
    chunk.community_id == community_id
    && (is_active chunk.lifecycle_state
        && (chunk_in_date_range chunk date_range && chunk_in_subject_scope chunk subject_scope))

-- The three sums of the loop: dot product and the two squared norms.
unfoldable pub cosine_sums :
    FloatOps → List Float → List Float → Float × Float × Float → Float × Float × Float
cosine_sums f [] b sums = sums
cosine_sums f (x ∷ a) [] sums = sums
cosine_sums f (x ∷ a) (y ∷ b) (dot, na, nb) =
    cosine_sums f a b (f.add dot (f.mul x y), f.add na (f.mul x x), f.add nb (f.mul y y))

unfoldable pub cosine_distance : FloatOps → List Float → List Float → Result Float
cosine_distance f a b =
    let (dot, na, nb) = cosine_sums f a b (f.zero_point, f.zero_point, f.zero_point) in
    if nat_beq (length a) (length b)
    then (if f.same na f.zero_point || f.same nb f.zero_point
        then ok f.one
        else ok (f.sub f.one (f.div dot (f.mul (f.sqrt na) (f.sqrt nb)))))
    else raised value_error

-- A chunk, its place in the dict, and what it is ranked by.
pub record Ranked (K : Type 0) : Type 0 where
  pub key : K
  pub index : ℕ
  pub chunk : EventChunk

-- What one embedded chunk adds in front of the later ones.
unfoldable pub dense_entry :
    FloatOps
    → ℕ
    → EventChunk
    → Result Float
    → Result (List (Ranked Float))
    → Result (List (Ranked Float))
dense_entry f index chunk (raised e) rest = raised e
dense_entry f index chunk (ok distance) (raised e) = raised e
dense_entry f index chunk (ok distance) (ok rest) =
    if f.at_least distance f.half
    then ok rest
    else ok (record { key = distance; index = index; chunk = chunk } ∷ rest)

unfoldable pub dense_ranked :
    FloatOps
    → (EventChunk → Bool)
    → (EventChunk → Option EmbeddingRecord)
    → List Float
    → ℕ
    → List EventChunk
    → Result (List (Ranked Float))
dense_ranked f passes embedding_of query index [] = ok []
dense_ranked f passes embedding_of query index (c ∷ cs) =
    let rest = dense_ranked f passes embedding_of query (suc index) cs in
    if passes c && is_ready c.embedding_status
    then elim (embedding_of c) [
      | none ↦ rest
      | some r ↦ dense_entry f index c (cosine_distance f query r.embedding) rest
    ]
    else rest

unfoldable pub dense_before : FloatOps → Ranked Float → Ranked Float → Bool
dense_before f a b = if f.same a.key b.key then ltb a.index b.index else f.less a.key b.key

abbrev pub ranked_chunks : {K : Type 0} → List (Ranked K) → List EventChunk
ranked_chunks [] = []
ranked_chunks (r ∷ rs) = r.chunk ∷ ranked_chunks rs

abbrev pub top_ranked :
    {K : Type 0}
    → (Ranked K → Ranked K → Bool)
    → ℤ
    → Result (List (Ranked K))
    → Result (List EventChunk)
top_ranked before limit (raised e) = raised e
top_ranked before limit (ok ranked) =
    ok (ranked_chunks (take (pos_part limit) (sort_by before ranked)))

unfoldable pub dense_candidates :
    FloatOps
    → Text
    → List Float
    → Text
    → ℤ
    → Option DateRange
    → Option Text
    → Exec MockDomainStore (List EventChunk)
dense_candidates f community_id query model_name limit date_range subject_scope = do
  require_community community_id
  λ s. (
    if is_below_one limit
        then ok []
        else top_ranked (dense_before f) limit (
            dense_ranked f (is_in_scope community_id date_range subject_scope)
              (λ c. lookup (c.chunk_id, model_name) s.embeddings) query 0 (values s.chunks)),
    s,
  )

-- `token in tokens`
unfoldable pub has_token : Text → List Text → Bool
has_token t [] = false
has_token t (u ∷ ts) = u == t || has_token t ts

-- `len(set(query_tokens) & set(chunk_tokens))`: each distinct token counts once.
unfoldable pub overlap : List Text → List Text → ℕ
overlap [] chunk_tokens = 0
overlap (t ∷ ts) chunk_tokens =
    let rest = overlap ts chunk_tokens in
    if not (has_token t ts) && has_token t chunk_tokens then suc rest else rest

unfoldable pub sparse_ranked :
    UnicodeTables → (EventChunk → Bool) → List Text → ℕ → List EventChunk → List (Ranked ℕ)
sparse_ranked u passes query_tokens index [] = []
sparse_ranked u passes query_tokens index (c ∷ cs) =
    let rest = sparse_ranked u passes query_tokens (suc index) cs in
    let n = overlap query_tokens (tokenize u c.chunk_text) in
    if passes c && not (nat_beq n 0)
    then record { key = n; index = index; chunk = c } ∷ rest
    else rest

-- The source sorts by (-overlap, index).
unfoldable pub sparse_before : Ranked ℕ → Ranked ℕ → Bool
sparse_before a b = if nat_beq a.key b.key then ltb a.index b.index else ltb b.key a.key

abbrev pub has_no_token : List Text → Bool
has_no_token [] = true
has_no_token (t ∷ ts) = false

unfoldable pub sparse_candidates :
    UnicodeTables
    → Text
    → Text
    → ℤ
    → Option DateRange
    → Option Text
    → Exec MockDomainStore (List EventChunk)
sparse_candidates u community_id query_text limit date_range subject_scope = do
  require_community community_id
  λ s. (
    if is_below_one limit || has_no_token (tokenize u query_text)
        then ok []
        else top_ranked sparse_before limit (
            ok (
              sparse_ranked u (is_in_scope community_id date_range subject_scope)
                (tokenize u query_text) 0 (values s.chunks))),
    s,
  )
