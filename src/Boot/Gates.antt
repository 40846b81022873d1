-- ===== src/Boot/Gates.antt =====
-- The gates of app.py and `create_app`. The registration of the routes and the log line are left out.
use diary_memory_service.Base.{
  ℕ, Bool, true, false, not, ◌&&◌, Option, none, some, List, [], ◌∷◌, nat_beq, ◌==◌, text_eq,
  if◌then◌else◌,
}
use diary_memory_service.Base.Text.{Text, codes, is_empty}
use diary_memory_service.Exec.{
  Exception, Result, ok, raised, provider_error, value_error, class_name,
}
use diary_memory_service.Boot.{
  Outside, Settings, StorageBackend, memory, sqlite, postgres, ProviderBackend, mock, openai,
  KnowledgeBackend, tavily, mock_knowledge, build_embedding_client, build_chat_client,
  build_route_classifier, build_query_rewriter, build_outward_rewriter, build_knowledge_source,
}

abbrev pub boot_health_error : Exception
boot_health_error = provider_error (codes "BootHealthError")

-- A gate raises, or lets the boot go on.
abbrev pub Gate : Type 0
Gate = Result (Unit {0})

abbrev pub gate_then {ℓ} : {A : Type ℓ} → Gate → Result A → Result A
gate_then (raised e) later = raised e
gate_then (ok u) later = later

-- `if c: raise BootHealthError(...)`
abbrev pub refuse_if : Bool → Gate
refuse_if true = raised boot_health_error
refuse_if false = ok tt

-- `try: client = build(...)`, `except ValueError as exc: raise BootHealthError(...) from exc`
abbrev pub built {ℓ} : {A : Type ℓ} → Result A → (A → Gate) → Gate
built (raised e) k =
    raised (if class_name e == class_name value_error then boot_health_error else e)
built (ok client) k = k client

abbrev pub canonical_dimension : ℕ
canonical_dimension = 3072

abbrev pub canonical_openai_model : Text
canonical_openai_model = codes "text-embedding-3-large"

abbrev pub canonical_openai_chat_model : Text
canonical_openai_chat_model = codes "gpt-4.1"

abbrev pub canonical_openai_classifier_model : Text
canonical_openai_classifier_model = codes "gpt-4.1-mini"

abbrev pub is_openai : ProviderBackend → Bool
is_openai openai = true
is_openai mock = false

abbrev pub is_tavily : KnowledgeBackend → Bool
is_tavily tavily = true
is_tavily mock_knowledge = false

abbrev pub extension_gate : StorageBackend → Result (Option ℕ) → Gate
extension_gate memory probe = ok tt
extension_gate sqlite probe = ok tt
extension_gate postgres (raised e) = raised boot_health_error
extension_gate postgres (ok none) = raised boot_health_error
extension_gate postgres (ok (some one)) = ok tt

module _ (o : Outside) (s : Settings o.seconds) where
  unfoldable pub verify_embedding_contour : Gate
  verify_embedding_contour =
      gate_then (refuse_if (not (nat_beq s.embedding_dimension canonical_dimension))) (
        gate_then
          (refuse_if
            (is_openai s.embedding_backend && not (s.embedding_model == canonical_openai_model)))
          (built (build_embedding_client o s)
            (λ client. refuse_if (not (nat_beq client.dimension s.embedding_dimension)))))

  unfoldable pub verify_chat_contour : Gate
  verify_chat_contour =
      gate_then
        (refuse_if (is_openai s.chat_backend && not (s.chat_model == canonical_openai_chat_model)))
        (built (build_chat_client o s) (λ client. refuse_if (is_empty client.model_name)))

  unfoldable pub verify_classifier_contour : Gate
  verify_classifier_contour =
      gate_then
        (refuse_if (
          is_openai s.classifier_backend
          && not (s.classifier_model == canonical_openai_classifier_model)))
        (gate_then
          (built (build_route_classifier o s) (λ client. refuse_if (is_empty client.model_name)))
          (gate_then
            (built (build_query_rewriter o s) (λ client. refuse_if (is_empty client.model_name)))
            (built (build_outward_rewriter o s)
              (λ client. refuse_if (is_empty client.model_name)))))

  unfoldable pub verify_knowledge_contour : Gate
  verify_knowledge_contour =
      gate_then (refuse_if (is_tavily s.knowledge_backend && is_empty s.tavily_api_key))
        (built (build_knowledge_source o s) (λ source. refuse_if (is_empty source.provider_name)))

  unfoldable pub verify_pgvector : Gate
  verify_pgvector = extension_gate s.storage_backend o.vector_extension

  -- The gates in their order, and what `/health` answers from then on.
  unfoldable pub create_app : Text → Result (List (Text × Text))
  create_app version = gate_then verify_embedding_contour (
      gate_then verify_chat_contour (
        gate_then verify_classifier_contour (
          gate_then verify_knowledge_contour (
            gate_then verify_pgvector (
              ok (
                (codes "status", codes "ok")
                ∷ (codes "version", version)
                ∷ (codes "env", s.app_env)
                ∷ []))))))
