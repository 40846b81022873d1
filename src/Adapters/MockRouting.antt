-- ===== src/Adapters/MockRouting.antt =====
-- The other deterministic providers: adapters/embeddings/mock.py, adapters/chat_routing/mock.py,
-- rewrite_mock.py and outward_mock.py, and adapters/knowledge/mock.py. SHA-256, the draws of a seeded
-- generator and the lower case of a text are parameters.
use diary_memory_service.Base.{
  ℕ, suc, zero, ◌+◌, ◌*◌, Bool, true, false, ◌&&◌, ◌||◌, Option, none, some, List, [], ◌∷◌, ◌++◌,
  take, nat_beq, text_eq, if◌then◌else◌,
}
use diary_memory_service.Base.Text.{Text, codes, is_empty}
use diary_memory_service.Exec.{Result, ok, raised, value_error}
use diary_memory_service.Models.{
  Date, DateRange, Float, ChatRoute, notes_lookup, notes_plus_model, notes_plus_knowledge,
  model_only, chat_route_value, RouteClassification, date_isoformat,
}
use diary_memory_service.Export.Json.{
  encode_utf8, quoted, Value, Values, text, array, object, end_values, value,
}
use diary_memory_service.RoutedChat.Providers.{
  Call, returned, ChatRouteClassifier, QueryRewrite, QueryRewriter, OutwardRewrite,
  OutwardQueryRewriter, KnowledgeExcerpt, KnowledgeResult, KnowledgeSource,
}
use diary_memory_service.DomainService.{EmbeddingClient}
use diary_memory_service.Adapters.Mock.{dumps_line, ascii_quoted, member_list}

-- `route.value in lowered`, one text in another.
abbrev starts_with : Text → Text → Bool
starts_with [] s = true
starts_with (p ∷ ps) [] = false
starts_with (p ∷ ps) (c ∷ s) = nat_beq p c && starts_with ps s

unfoldable pub is_substring : Text → Text → Bool
is_substring p [] = is_empty p
is_substring p (c ∷ s) = starts_with p (c ∷ s) || is_substring p s

-- The first route, in the order of the enumeration, that the text names.
abbrev first_named : Text → ChatRoute → List ChatRoute → ChatRoute
first_named lowered default_route [] = default_route
first_named lowered default_route (r ∷ rs) =
    let later = first_named lowered default_route rs in
    if is_substring (chat_route_value r) lowered then r else later

unfoldable pub selected_route : Text → ChatRoute → ChatRoute
unfolding chat_route_value
selected_route lowered default_route =
    first_named lowered default_route
      (notes_lookup ∷ notes_plus_model ∷ notes_plus_knowledge ∷ model_only ∷ [])

unfoldable pub mock_classify : (Text → Text) → Text → ChatRoute → Text → Call RouteClassification
mock_classify lower model_name default_route question =
    let selected = selected_route (lower question) default_route in
    returned (record {
      route = selected;
      raw_output =
          dumps_line ascii_quoted
            (object (member_list ((codes "route", text (chat_route_value selected)) ∷ [])));
      model_name = model_name;
      latency_ms = 0;
    })

abbrev pub mock_route_classifier : (Text → Text) → Text → ChatRoute → ChatRouteClassifier
mock_route_classifier lower model_name default_route = record {
  model_name = model_name;
  classify = mock_classify lower model_name default_route;
}

-- `rewrite_to if rewrite_to is not None else question`
abbrev steered : Option Text → Text → Text
steered none question = question
steered (some t) question = t

abbrev date_member : Text → Option Date → List (Text × Value)
date_member key none = []
date_member key (some d) = (key, text (date_isoformat d)) ∷ []

abbrev range_members : Option DateRange → List (Text × Value)
range_members none = []
range_members (some r) =
    date_member (codes "date_from") r.start ++ date_member (codes "date_to") r.stop

unfoldable pub mock_rewrite :
    Text → Option Text → Option DateRange → Text → Date → Call QueryRewrite
mock_rewrite model_name rewrite_to range question today = returned (record {
  retrieval_query = steered rewrite_to question;
  date_range = range;
  subject_scope = none;
  raw_output = dumps_line ascii_quoted (
      object (
        member_list (
          range_members range
          ++ (codes "retrieval_query", text (steered rewrite_to question)) ∷ [])));
  model_name = model_name;
  latency_ms = 0;
})

abbrev pub mock_query_rewriter : Text → Option Text → Option DateRange → QueryRewriter
mock_query_rewriter model_name rewrite_to range = record {
  model_name = model_name;
  rewrite = mock_rewrite model_name rewrite_to range;
}

-- The attribute `last_notes_context` is for tests, and left out.
unfoldable pub mock_rewrite_outward : Text → Option Text → Text → List Text → Call OutwardRewrite
mock_rewrite_outward model_name rewrite_to question notes_context = returned (record {
  search_query = steered rewrite_to question;
  raw_output =
      dumps_line ascii_quoted
        (object (member_list ((codes "search_query", text (steered rewrite_to question)) ∷ [])));
  model_name = model_name;
  latency_ms = 0;
})

abbrev pub mock_outward_rewriter : Text → Option Text → OutwardQueryRewriter
mock_outward_rewriter model_name rewrite_to = record {
  model_name = model_name;
  rewrite_outward = mock_rewrite_outward model_name rewrite_to;
}

abbrev excerpt_value : KnowledgeExcerpt → Value
excerpt_value e = object (
    member_list (
      (codes "content", text e.excerpt_text)
      ∷ (codes "title", text e.title)
      ∷ (codes "url", text e.ref)
      ∷ []))

abbrev excerpt_values : List KnowledgeExcerpt → Values
excerpt_values [] = end_values
excerpt_values (e ∷ es) = value (excerpt_value e) (excerpt_values es)

unfoldable pub mock_search : List KnowledgeExcerpt → Text → Call KnowledgeResult
mock_search excerpts query = returned (record {
  excerpts = excerpts;
  raw_output = dumps_line quoted (
      object (
        member_list
          ((codes "query", text query) ∷ (codes "results", array (excerpt_values excerpts)) ∷ [])));
  latency_ms = 0;
})

abbrev pub mock_knowledge_source : Text → List KnowledgeExcerpt → KnowledgeSource
mock_knowledge_source provider_name excerpts = record {
  provider_name = provider_name;
  search = mock_search excerpts;
}

-- `random.Random(seed).uniform(-1.0, 1.0)`, by the number of the draw, and SHA-256.
pub record Seeded : Type 0 where
  pub sha256 : List ℕ → List ℕ
  pub uniform : ℕ → ℕ → Float

-- `int.from_bytes(bytes, "big")`
abbrev from_bytes : ℕ → List ℕ → ℕ
from_bytes n [] = n
from_bytes n (b ∷ bs) = from_bytes (n * 256 + b) bs

abbrev draws_from : (ℕ → Float) → ℕ → ℕ → List Float
draws_from uniform drawn zero = []
draws_from uniform drawn (suc left) = uniform drawn ∷ draws_from uniform (suc drawn) left

unfoldable pub embed_one : Seeded → ℕ → List ℕ → List Float
embed_one seeded dimension bytes =
    draws_from (seeded.uniform (from_bytes 0 (take 8 (seeded.sha256 bytes)))) 0 dimension

abbrev with_vector :
    Seeded → ℕ → Result (List ℕ) → Result (List (List Float)) → Result (List (List Float))
with_vector seeded dimension (raised e) rest = raised e
with_vector seeded dimension (ok bytes) (raised e) = raised e
with_vector seeded dimension (ok bytes) (ok vs) = ok (embed_one seeded dimension bytes ∷ vs)

unfoldable pub mock_embed : Seeded → ℕ → List Text → Result (List (List Float))
mock_embed seeded dimension [] = ok []
mock_embed seeded dimension (t ∷ ts) =
    with_vector seeded dimension (encode_utf8 t) (mock_embed seeded dimension ts)

-- `MockEmbeddingClient(dimension=...)`
unfoldable pub mock_embedding_client : Seeded → ℕ → Result EmbeddingClient
mock_embedding_client seeded dimension =
    if nat_beq dimension 0
    then raised value_error
    else ok (record {
      embed = mock_embed seeded dimension;
      model_name = codes "mock";
      dimension = dimension;
    })
