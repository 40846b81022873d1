-- ===== src/Exec.antt =====
-- Python code that may raise, and that may also change a store. What was written before a raise
-- stays written, so the store comes back beside the exception too.
pub mod Laws
pub mod Invariants
use diary_memory_service.Base.{Bool, true, false, List, [], ◌∷◌}
use diary_memory_service.Base.Text.{Text, codes}

-- The exception classes that the modelled code raises or meets. `provider_error` is any other
-- class, with its `__class__.__name__`: what a provider's client raises, and `HTTPException`.
pub data Exception : Type 0 where
  value_error key_error runtime_error assertion_error type_error index_error : Exception
  malformed_answer_json answer_schema_mismatch fabricated_citation : Exception
  cross_community_context chat_provider_unavailable : Exception
  provider_error : Text → Exception

-- `exc.__class__.__name__`
unfoldable pub class_name : Exception → Text
class_name value_error = codes "ValueError"
class_name key_error = codes "KeyError"
class_name runtime_error = codes "RuntimeError"
class_name assertion_error = codes "AssertionError"
class_name type_error = codes "TypeError"
class_name index_error = codes "IndexError"
class_name malformed_answer_json = codes "MalformedAnswerJSONError"
class_name answer_schema_mismatch = codes "AnswerSchemaMismatchError"
class_name fabricated_citation = codes "FabricatedCitationError"
class_name cross_community_context = codes "CrossCommunityContextError"
class_name chat_provider_unavailable = codes "ChatProviderUnavailableError"
class_name (provider_error name) = name

pub data Result {ℓ} (A : Type ℓ) : Type ℓ where
  ok : A → Result A
  raised : Exception → Result A

abbrev pub Exec {ℓ} : Type ℓ → Type ℓ → Type ℓ
Exec S A = S → Result A × S

abbrev pub outcome_then {ℓ} : {S A B : Type ℓ} → Result A → (A → Exec S B) → Exec S B
outcome_then (ok a) f s = f a s
outcome_then (raised e) f s = (raised e, s)

infixl 5 ◌>>=◌ ◌>>◌
abbrev pub ◌>>=◌ {ℓ} : {S A B : Type ℓ} → Exec S A → (A → Exec S B) → Exec S B
◌>>=◌ m f s = let r = m s in outcome_then r.0 f r.1

abbrev pub ◌>>◌ {ℓ} : {S B : Type ℓ} → Exec S (Unit {ℓ}) → Exec S B → Exec S B
m >> k = m >>= λ _. k

module _ {ℓ} {S A : Type ℓ} where
  abbrev pub pure : A → Exec S A
  pure a s = (ok a, s)

  abbrev pub raise : Exception → Exec S A
  raise e s = (raised e, s)

  abbrev pub lift : Result A → Exec S A
  lift r s = (r, s)

  -- A read that raises nothing.
  abbrev pub gets : (S → A) → Exec S A
  gets f s = (ok (f s), s)

  -- `try: body except Exception as exc: handler(exc)`
  abbrev pub caught : Result A → (Exception → Exec S A) → Exec S A
  caught (ok a) handler s = (ok a, s)
  caught (raised e) handler s = handler e s

  abbrev pub try_except : Exec S A → (Exception → Exec S A) → Exec S A
  try_except body handler s = let r = body s in caught r.0 handler r.1

-- A write that raises nothing.
abbrev pub modify {ℓ} : {S : Type ℓ} → (S → S) → Exec S (Unit {ℓ})
modify f s = (ok tt, f s)

-- `if c: raise e`
abbrev pub raise_if {ℓ} : {S : Type ℓ} → Bool → Exception → Exec S (Unit {ℓ})
raise_if true e s = (raised e, s)
raise_if false e s = (ok tt, s)

-- `for x in xs: body(x)`
abbrev pub for_each {ℓ} : {S A : Type ℓ} → (A → Exec S (Unit {ℓ})) → List A → Exec S (Unit {ℓ})
for_each body [] s = (ok tt, s)
for_each body (x ∷ xs) s =
    let r = body x s in
    let rest = for_each body xs r.1 in elim r.0 [ ok u ↦ rest | raised e ↦ (raised e, r.1) ]
