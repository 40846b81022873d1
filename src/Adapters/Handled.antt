-- ===== src/Adapters/Handled.antt =====
-- Provider failures do not escape the route classifier: adapters/chat_routing/openai_client.py under
-- adapters/resilience.py, as services/routed_chat.py calls it.
use diary_memory_service.Base.{true, ◌≡◌, List, [], ◌∷◌}
use diary_memory_service.Base.Text.{Text}
use diary_memory_service.Exec.{raised}
use diary_memory_service.Resilience.{Attempt, Ended, value, reraised, no_attempt}
use diary_memory_service.RoutedChat.Providers.{Call, returned, output_error, unavailable, failed}
use diary_memory_service.Adapters.{SdkError, is_translated, Message, Completion}

-- The completion has a choice.
abbrev pub HasChoice : List Message → Type 0
HasChoice [] = ⊥
HasChoice (m ∷ ms) = Unit

-- An attempt gives a completion with a choice, or raises what `except` names.
abbrev pub Meets : Attempt Completion SdkError → Type 0
Meets (Attempt.returned r) = HasChoice r.choices
Meets (Attempt.raised e) = is_translated e ≡ true

abbrev Ends : Ended Completion SdkError → Type 0
Ends (value r) = HasChoice r.choices
Ends (reraised e) = is_translated e ≡ true
Ends no_attempt = ⊥

-- A call that raises nothing but the errors of its interface.
abbrev IsHandled : {A : Type 0} → Call A → Type 0
IsHandled (returned a) = Unit
IsHandled (output_error raw) = Unit
IsHandled unavailable = Unit
IsHandled (failed e) = ⊥
