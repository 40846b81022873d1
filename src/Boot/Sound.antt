-- ===== src/Boot/Sound.antt =====
-- What a boot that succeeds has checked: app.py.
use diary_memory_service.Base.{
  Bool, true, false, not, ◌&&◌, ◌≡◌, refl, Option, none, some, ℕ, List, nat_beq, ◌==◌, text_eq,
  eq_of_beq, nat_eq, ◌∙◌, inl, inr, Bool-cases,
}
use diary_memory_service.Base.Text.{Text, is_empty}
use diary_memory_service.Exec.{Result, ok, raised}
use diary_memory_service.Boot.{
  Outside, Settings, StorageBackend, memory, sqlite, postgres, ProviderBackend, mock, openai,
  KnowledgeBackend, tavily, mock_knowledge, build_embedding_client, build_chat_client,
  build_route_classifier, build_query_rewriter, build_outward_rewriter, build_knowledge_source,
}
use diary_memory_service.Boot.Gates.{
  Gate, gate_then, refuse_if, built, canonical_dimension, canonical_openai_model,
  canonical_openai_chat_model, canonical_openai_classifier_model, is_openai, is_tavily,
  extension_gate, verify_embedding_contour, verify_chat_contour, verify_classifier_contour,
  verify_knowledge_contour, verify_pgvector, create_app,
}

gate_then-passed :
    {A : Type 0} (g : Gate) (later : Result A) (a : A)
    → gate_then g later ≡ ok a
    → (g ≡ ok tt) × (later ≡ ok a)
gate_then-passed (raised e) later a h = cc
gate_then-passed (ok u) later a h = (refl, h)

refuse_if-passed : (c : Bool) → refuse_if c ≡ ok tt → c ≡ false
refuse_if-passed true h = cc
refuse_if-passed false h = refl

built-passed :
    {A : Type 0} (r : Result A) (c : A → Bool)
    → built r (λ client. refuse_if (c client)) ≡ ok tt
    → (a : A) × (r ≡ ok a) × (c a ≡ false)
built-passed (raised e) c h = cc
built-passed (ok a) c h = (a, refl, refuse_if-passed (c a) h)

pinned :
    (backend : ProviderBackend) (model canonical : Text)
    → is_openai backend && not (model == canonical) ≡ false
    → backend ≡ openai
    → model ≡ canonical
pinned openai model canonical h e = elim (Bool-cases (model == canonical)) [
  | inl same ↦ eq_of_beq model canonical same
  | inr other ↦ absurd (clash (model == canonical) other h)
]
  where
    clash : (b : Bool) → b ≡ false → not b ≡ false → ⊥
    clash true p q = cc
    clash false p q = cc
pinned mock model canonical h e = cc

keyed :
    (backend : KnowledgeBackend) (key : Text)
    → is_tavily backend && is_empty key ≡ false
    → backend ≡ tavily
    → is_empty key ≡ false
keyed tavily key h e = h
keyed mock_knowledge key h e = cc

holds_of : (b : Bool) → not b ≡ false → b ≡ true
holds_of true h = refl
holds_of false h = cc

installed :
    (backend : StorageBackend) (probe : Result (Option ℕ))
    → extension_gate backend probe ≡ ok tt
    → backend ≡ postgres
    → (row : ℕ) × (probe ≡ ok (some row))
installed memory probe h e = cc
installed sqlite probe h e = cc
installed postgres (raised x) h e = cc
installed postgres (ok none) h e = cc
installed postgres (ok (some row)) h e = (row, refl)

-- A client that its factory builds and that the test lets pass.
abbrev pub Built : {A : Type 0} → Result A → (A → Type 0) → Type 0
Built {A} r P = (client : A) × (r ≡ ok client) × P client

module _ (o : Outside) (s : Settings o.seconds) where
  -- The clients that the request path builds from the same settings exist; the vectors fit the column;
  -- the models of OpenAI are the pinned ones; a search has its key; and Postgres has its extension.
  pub record IsBooted : Type 0 where
    pub embedding : Built (build_embedding_client o s) (λ c. c.dimension ≡ canonical_dimension)
    pub chat : Built (build_chat_client o s) (λ c. is_empty c.model_name ≡ false)
    pub classifier : Built (build_route_classifier o s) (λ c. is_empty c.model_name ≡ false)
    pub rewriter : Built (build_query_rewriter o s) (λ c. is_empty c.model_name ≡ false)
    pub outward : Built (build_outward_rewriter o s) (λ c. is_empty c.model_name ≡ false)
    pub source : Built (build_knowledge_source o s) (λ c. is_empty c.provider_name ≡ false)
    pub embedding_model : s.embedding_backend ≡ openai → s.embedding_model ≡ canonical_openai_model
    pub chat_model : s.chat_backend ≡ openai → s.chat_model ≡ canonical_openai_chat_model
    pub classifier_model :
        s.classifier_backend ≡ openai → s.classifier_model ≡ canonical_openai_classifier_model
    pub search_key : s.knowledge_backend ≡ tavily → is_empty s.tavily_api_key ≡ false
    pub extension : s.storage_backend ≡ postgres → (row : ℕ) × (o.vector_extension ≡ ok (some row))

  embedding_passed :
      verify_embedding_contour o s ≡ ok tt
      → Built (build_embedding_client o s) (λ c. c.dimension ≡ canonical_dimension)
        × (s.embedding_backend ≡ openai → s.embedding_model ≡ canonical_openai_model)
  unfolding verify_embedding_contour
  embedding_passed h =
      let dimensioned = gate_then-passed (refuse_if _) _ tt h in
      let modelled = gate_then-passed (refuse_if _) _ tt dimensioned.1 in
      let (client, found, fits) = built-passed (build_embedding_client o s) _ modelled.1 in
      let declared =
        holds_of (nat_beq s.embedding_dimension canonical_dimension)
          (refuse_if-passed _ dimensioned.0) in
      let measured = holds_of (nat_beq client.dimension s.embedding_dimension) fits in
      (
        (
          client,
          found,
          eq_of_beq client.dimension s.embedding_dimension measured
              ∙ eq_of_beq s.embedding_dimension canonical_dimension declared,
        ),
        pinned s.embedding_backend s.embedding_model canonical_openai_model
            (refuse_if-passed _ modelled.0),
      )

  chat_passed :
      verify_chat_contour o s ≡ ok tt
      → Built (build_chat_client o s) (λ c. is_empty c.model_name ≡ false)
        × (s.chat_backend ≡ openai → s.chat_model ≡ canonical_openai_chat_model)
  unfolding verify_chat_contour
  chat_passed h =
      let (modelled, named) = gate_then-passed (refuse_if _) _ tt h in
      (
        built-passed (build_chat_client o s) (λ c. is_empty c.model_name) named,
        pinned s.chat_backend s.chat_model canonical_openai_chat_model
            (refuse_if-passed _ modelled),
      )

  classifier_passed :
      verify_classifier_contour o s ≡ ok tt
      → (s.classifier_backend ≡ openai → s.classifier_model ≡ canonical_openai_classifier_model)
        × Built (build_route_classifier o s) (λ c. is_empty c.model_name ≡ false)
        × Built (build_query_rewriter o s) (λ c. is_empty c.model_name ≡ false)
        × Built (build_outward_rewriter o s) (λ c. is_empty c.model_name ≡ false)
  unfolding verify_classifier_contour
  classifier_passed h =
      let (modelled, clients) = gate_then-passed (refuse_if _) _ tt h in
      let (classifier, rewriters) =
        gate_then-passed (built (build_route_classifier o s) _) _ tt clients in
      let (rewriter, outward) =
        gate_then-passed (built (build_query_rewriter o s) _) _ tt rewriters in
      (
        pinned s.classifier_backend s.classifier_model canonical_openai_classifier_model
            (refuse_if-passed _ modelled),
        built-passed (build_route_classifier o s) (λ c. is_empty c.model_name) classifier,
        built-passed (build_query_rewriter o s) (λ c. is_empty c.model_name) rewriter,
        built-passed (build_outward_rewriter o s) (λ c. is_empty c.model_name) outward,
      )

  knowledge_passed :
      verify_knowledge_contour o s ≡ ok tt
      → (s.knowledge_backend ≡ tavily → is_empty s.tavily_api_key ≡ false)
        × Built (build_knowledge_source o s) (λ c. is_empty c.provider_name ≡ false)
  unfolding verify_knowledge_contour
  knowledge_passed h =
      let (paid, found) = gate_then-passed (refuse_if _) _ tt h in
      (
        keyed s.knowledge_backend s.tavily_api_key (refuse_if-passed _ paid),
        built-passed (build_knowledge_source o s) (λ c. is_empty c.provider_name) found,
      )

  -- Where `create_app` returns, the factories that the request path calls with the same settings
  -- build their clients: the embedding client has the dimension of the vector column; the chat
  -- client, the classifier, the two rewriters and the knowledge source have names that are not empty;
  -- the models of the openai backends are the pinned ones, a Tavily search has a key, and Postgres
  -- storage has the vector extension.
  pub create_app-IsBooted :
      (version : Text) (health : List (Text × Text)) → create_app o s version ≡ ok health → IsBooted
  unfolding create_app verify_pgvector
  create_app-IsBooted version health h =
      let (embeds, h1) = gate_then-passed (verify_embedding_contour o s) _ health h in
      let (chats, h2) = gate_then-passed (verify_chat_contour o s) _ health h1 in
      let (classifies, h3) = gate_then-passed (verify_classifier_contour o s) _ health h2 in
      let (knows, h4) = gate_then-passed (verify_knowledge_contour o s) _ health h3 in
      let (extends, h5) =
        gate_then-passed (extension_gate s.storage_backend o.vector_extension) _ health h4 in
      let (model, classifier, rewriter, outward) = classifier_passed classifies in
      record {
        embedding = (embedding_passed embeds).0;
        chat = (chat_passed chats).0;
        classifier = classifier;
        rewriter = rewriter;
        outward = outward;
        source = (knowledge_passed knows).1;
        embedding_model = (embedding_passed embeds).1;
        chat_model = (chat_passed chats).1;
        classifier_model = model;
        search_key = (knowledge_passed knows).0;
        extension = installed s.storage_backend o.vector_extension extends;
      }
