-- ===== src/Adapters/Usable.antt =====
-- What the provider adapters let through: adapters/chat_routing/rewrite_openai.py and
-- adapters/knowledge/tavily.py.
use diary_memory_service.Base.{false, ◌≡◌, ap, subst, Option, none, some, inl, inr, Bool-cases}
use diary_memory_service.Base.Text.{Text, is_empty}
use diary_memory_service.Models.{DateRange, is_reversed}
use diary_memory_service.Resilience.{Ended, value, reraised, no_attempt}
use diary_memory_service.RoutedChat.Providers.{
  Call, returned, output_error, unavailable, failed, QueryRewrite,
}
use diary_memory_service.Adapters.{SdkError, is_translated, answered_by, call_then}
use diary_memory_service.Adapters.Knowledge.{
  HttpError, timeout_error, timeout_exception, transport_error, http_status_error, other_http_error,
  foreign_error, answered_over,
}

-- What a call that returns has.
module _ {A : Type 0} (P : A → Type 0) where
  abbrev pub Gives : Call A → Type 0
  Gives (returned a) = P a
  Gives (output_error raw) = Unit
  Gives unavailable = Unit
  Gives (failed e) = Unit

  pub Gives-returned : (c : Call A) (a : A) → Gives c → c ≡ returned a → P a
  Gives-returned (returned b) a h e = subst P (returned-injective b a e) h
    where
      value_of : A → Call A → A
      value_of d (returned x) = x
      value_of d (output_error raw) = d
      value_of d unavailable = d
      value_of d (failed x) = d

      returned-injective : (b a : A) → returned b ≡ returned a → b ≡ a
      returned-injective b a e = ap (value_of b) e
  Gives-returned (output_error raw) a h e = cc
  Gives-returned unavailable a h e = cc
  Gives-returned (failed x) a h e = cc

  pub answered_by-Gives :
      {R : Type 0} (e : Ended R SdkError) (k : R → Call A)
      → ((r : R) → Gives (k r))
      → Gives (answered_by e k)
  answered_by-Gives (value r) k h = h r
  answered_by-Gives (reraised e) k h = elim (Bool-cases (is_translated e)) [
    | inl translated ↦ rw translated tt
    | inr foreign ↦ rw foreign tt
  ]
  answered_by-Gives no_attempt k h = tt

  pub answered_over-Gives :
      (e : Ended Text HttpError) (k : Text → Call A)
      → ((body : Text) → Gives (k body))
      → Gives (answered_over e k)
  answered_over-Gives (value body) k h = h body
  answered_over-Gives (reraised timeout_error) k h = tt
  answered_over-Gives (reraised timeout_exception) k h = tt
  answered_over-Gives (reraised transport_error) k h = tt
  answered_over-Gives (reraised (http_status_error status headers)) k h = tt
  answered_over-Gives (reraised other_http_error) k h = tt
  answered_over-Gives (reraised (foreign_error e)) k h = tt
  answered_over-Gives no_attempt k h = tt

module _ {A B : Type 0} (Q : A → Type 0) (P : B → Type 0) where
  pub call_then-Gives :
      (c : Call A) (k : A → Call B)
      → Gives Q c
      → ((a : A) → Q a → Gives P (k a))
      → Gives P (call_then c k)
  call_then-Gives (returned a) k q h = h a q
  call_then-Gives (output_error raw) k q h = tt
  call_then-Gives unavailable k q h = tt
  call_then-Gives (failed e) k q h = tt

pub Gives-any : {A : Type 0} (c : Call A) → Gives (λ a. Unit {0}) c
Gives-any (returned a) = tt
Gives-any (output_error raw) = tt
Gives-any unavailable = tt
Gives-any (failed e) = tt

-- The range has its bounds in order, and at least one.
abbrev pub IsBounding : Option DateRange → Type 0
IsBounding none = Unit
IsBounding (some r) = (is_reversed r ≡ false) × ((r.start ≡ none) × (r.stop ≡ none) → ⊥)

abbrev IsNamed : Text → Type 0
IsNamed t = is_empty t ≡ false

-- A rewrite that the routed chat can search with.
pub record IsUsable (model_name : Text) (q : QueryRewrite) : Type 0 where
  pub named : is_empty q.retrieval_query ≡ false
  pub bounding : IsBounding q.date_range
  pub unscoped : q.subject_scope ≡ none
  pub model : q.model_name ≡ model_name
