-- ===== src/RoutedChat/Rewriting.antt =====
-- services/routed_chat.py: the service's collaborators, `_rewrite`, `_rewrite_outward` and the
-- knowledge search.
use diary_memory_service.Base.{ℕ, Option, none, some, List, [], length, if◌then◌else◌}
use diary_memory_service.Base.Text.{Text, is_empty, strip}
use diary_memory_service.Exec.{Result, ok, raised}
use diary_memory_service.Models.{DateTime, DateRange, datetime_date}
use diary_memory_service.QueryService.{QueryService, ChatClient, AskDraws, normalize_query}
use diary_memory_service.RoutedChat.Providers.{
  Call, returned, output_error, unavailable, failed, ChatRouteClassifier, QueryRewrite,
  QueryRewriter, OutwardRewrite, OutwardQueryRewriter, KnowledgeResult, KnowledgeSource,
}

pub record RoutedChatService : Type 0 where
  pub classifier : ChatRouteClassifier
  pub query : QueryService
  pub chat_client : ChatClient
  pub rewriter : Option QueryRewriter
  pub knowledge_source : Option KnowledgeSource
  pub outward_rewriter : Option OutwardQueryRewriter

-- What one call draws from the clock and from `uuid4`: `ask_draws` are those of the answer's rows.
pub record ChatDraws : Type 0 where
  pub ask_draws : AskDraws
  pub today : DateTime
  pub decision_id : Text
  pub decided_at : DateTime
  pub rewrite_id : Text
  pub rewrite_at : DateTime
  pub search_id : Text
  pub search_at : DateTime

pub record RewriteCapture : Type 0 where
  pub rewritten_query : Option Text
  pub date_range : Option DateRange
  pub subject_scope : Option Text
  pub model_name : Text
  pub raw_output : Text
  pub latency_ms : ℕ

-- No usable rewrite.
abbrev no_rewrite : Text → Text → ℕ → RewriteCapture
no_rewrite model_name raw_output latency_ms = record {
  rewritten_query = none;
  date_range = none;
  subject_scope = none;
  model_name = model_name;
  raw_output = raw_output;
  latency_ms = latency_ms;
}

abbrev usable_rewrite : QueryRewrite → RewriteCapture
usable_rewrite r = record {
  rewritten_query = some (normalize_query r.retrieval_query);
  date_range = r.date_range;
  subject_scope = r.subject_scope;
  model_name = r.model_name;
  raw_output = r.raw_output;
  latency_ms = r.latency_ms;
}

abbrev pub rewritten : Text → Call QueryRewrite → Result RewriteCapture
rewritten model_name (returned r) = ok (
    if is_empty (normalize_query r.retrieval_query)
    then no_rewrite r.model_name r.raw_output r.latency_ms
    else usable_rewrite r)
rewritten model_name (output_error raw) = ok (no_rewrite model_name raw 0)
rewritten model_name unavailable = ok (no_rewrite model_name [] 0)
rewritten model_name (failed e) = raised e

unfoldable pub rewrite : Option QueryRewriter → DateTime → Text → Result RewriteCapture
rewrite none today question = ok (no_rewrite [] [] 0)
rewrite (some r) today question = rewritten r.model_name (r.rewrite question (datetime_date today))

-- The rewrite, or the normalised question.
unfoldable pub retrieval_query : Text → RewriteCapture → Text
retrieval_query question c = elim c.rewritten_query [ none ↦ normalize_query question | some q ↦ q ]

pub record OutwardCapture : Type 0 where
  pub search_query : Option Text
  pub model_name : Text
  pub raw_output : Text
  pub latency_ms : ℕ

abbrev no_outward : Text → Text → ℕ → OutwardCapture
no_outward model_name raw_output latency_ms = record {
  search_query = none;
  model_name = model_name;
  raw_output = raw_output;
  latency_ms = latency_ms;
}

abbrev outward_rewritten : Text → Call OutwardRewrite → Result OutwardCapture
outward_rewritten model_name (returned r) = ok (
    if is_empty (strip r.search_query)
    then no_outward r.model_name r.raw_output r.latency_ms
    else record {
      search_query = some (strip r.search_query);
      model_name = r.model_name;
      raw_output = r.raw_output;
      latency_ms = r.latency_ms;
    })
outward_rewritten model_name (output_error raw) = ok (no_outward model_name raw 0)
outward_rewritten model_name unavailable = ok (no_outward model_name [] 0)
outward_rewritten model_name (failed e) = raised e

unfoldable pub rewrite_outward :
    Option OutwardQueryRewriter → Text → List Text → Result OutwardCapture
rewrite_outward none question notes_context = ok (no_outward [] [] 0)
rewrite_outward (some r) question notes_context =
    outward_rewritten r.model_name (r.rewrite_outward question notes_context)

unfoldable pub searched_query : Text → OutwardCapture → Text
searched_query question c = elim c.search_query [ none ↦ question | some q ↦ q ]

-- A failed search leaves an empty knowledge plane.
unfoldable pub searched : Call KnowledgeResult → Result KnowledgeResult
searched (returned r) = ok r
searched (output_error raw) = ok (record { excerpts = []; raw_output = raw; latency_ms = 0 })
searched unavailable = ok (record { excerpts = []; raw_output = []; latency_ms = 0 })
searched (failed e) = raised e

pub record KnowledgeCapture : Type 0 where
  pub outward_query : Text
  pub outward_model_name : Text
  pub outward_raw_output : Text
  pub outward_latency_ms : ℕ
  pub result_count : ℕ
  pub raw_output : Text
  pub latency_ms : ℕ

abbrev pub capture_of : Text → OutwardCapture → KnowledgeResult → KnowledgeCapture
capture_of question c r = record {
  outward_query = searched_query question c;
  outward_model_name = c.model_name;
  outward_raw_output = c.raw_output;
  outward_latency_ms = c.latency_ms;
  result_count = length r.excerpts;
  raw_output = r.raw_output;
  latency_ms = r.latency_ms;
}
