-- ===== src/Adapters/Bounded.antt =====
-- What a search lets through: adapters/knowledge/tavily.py.
use diary_memory_service.Base.{
  ℕ, zero, suc, ◌≤◌, false, ◌≡◌, refl, sym, ap, subst, Option, none, some, List, [], ◌∷◌, length,
  take, All, inl, inr, Bool-cases, arith,
}
use diary_memory_service.Base.Text.{Text, codes, is_empty}
use diary_memory_service.Answers.{JsonLoads, Json, null, number, boolean, string, array, object}
use diary_memory_service.RoutedChat.Providers.{returned, KnowledgeExcerpt, KnowledgeResult}
use diary_memory_service.Adapters.{loaded, get_of}
use diary_memory_service.Adapters.Knowledge.{
  HttpClient, post_call, dict_results, string_in, typed_excerpt, excerpt_of, excerpts_of, found_in,
  tavily_search,
}
use diary_memory_service.Adapters.Usable.{
  Gives, Gives-returned, Gives-any, call_then-Gives, answered_over-Gives,
}

abbrev IsCited : KnowledgeExcerpt → Type 0
IsCited e = is_empty e.ref ≡ false

typed_excerpt-Gives :
    (body : Text) (url title content : Option Text)
    → Gives IsCited (typed_excerpt body url title content)
typed_excerpt-Gives body none title content = tt
typed_excerpt-Gives body (some url) none content = tt
typed_excerpt-Gives body (some url) (some title) none = tt
typed_excerpt-Gives body (some url) (some title) (some content) = elim (Bool-cases (is_empty url)) [
  | inl blank ↦ rw blank tt
  | inr named ↦ rw named named
]

excerpt_of-Gives : (body : Text) (entry : Json) → Gives IsCited (excerpt_of body entry)
excerpt_of-Gives body null = tt
excerpt_of-Gives body number = tt
excerpt_of-Gives body (boolean b) = tt
excerpt_of-Gives body (string t) = tt
excerpt_of-Gives body (array xs) = tt
excerpt_of-Gives body (object fs) =
    typed_excerpt-Gives body (string_in (get_of (codes "url") (object fs)))
      (string_in (get_of (codes "title") (object fs)))
      (string_in (get_of (codes "content") (object fs)))

-- As many excerpts as entries, each with a ref.
abbrev pub IsFound : ℕ → List KnowledgeExcerpt → Type 0
IsFound n es = (length es ≡ n) × All (λ e. is_empty e.ref ≡ false) es

excerpts_of-Gives :
    (body : Text) (entries : List Json)
    → Gives (IsFound (length entries)) (excerpts_of body entries)
unfolding excerpts_of
excerpts_of-Gives body [] = (refl, tt)
excerpts_of-Gives body (entry ∷ entries) =
    call_then-Gives IsCited (IsFound (length (entry ∷ entries))) (excerpt_of body entry) _
      (excerpt_of-Gives body entry)
      (λ e cited.
        call_then-Gives (IsFound (length entries)) (IsFound (length (entry ∷ entries)))
          (excerpts_of body entries) _ (excerpts_of-Gives body entries)
          (λ es found. (ap suc found.0, (cited, found.1))))

length-take-le : {A : Type 0} (n : ℕ) (xs : List A) → length (take n xs) ≤ n
length-take-le zero xs = omega arith
length-take-le (suc n) [] = omega arith
length-take-le (suc n) (x ∷ xs) = omega (arith, length-take-le n xs)

-- What the result of a search keeps to.
pub record IsBounded (max_results : ℕ) (r : KnowledgeResult) : Type 0 where
  pub few : length r.excerpts ≤ max_results
  pub cited : All (λ e. is_empty e.ref ≡ false) r.excerpts

found_in-Gives :
    (loads : JsonLoads) (max_results latency_ms : ℕ) (body : Text)
    → Gives (IsBounded max_results) (found_in loads max_results latency_ms body)
unfolding found_in
found_in-Gives loads max_results latency_ms body =
    let P = IsBounded max_results in
    call_then-Gives (λ j. Unit {0}) P (loaded body (loads body)) _
      (Gives-any (loaded body (loads body)))
      (λ payload u.
        call_then-Gives (λ js. Unit {0}) P (dict_results body payload) _
          (Gives-any (dict_results body payload))
          (λ entries u.
            let shown = take max_results entries in
            call_then-Gives (IsFound (length shown)) P (excerpts_of body shown) _
              (excerpts_of-Gives body shown)
              (λ es found. record {
                few =
                    subst (λ n. n ≤ max_results) (sym found.0) (length-take-le max_results entries);
                cited = found.1;
              })))

-- Whatever the HTTP client answers, a search that returns has at most `max_results` excerpts, and
-- each of them has a ref.
pub tavily_search-IsBounded :
    (client : HttpClient) (loads : JsonLoads) (max_results : ℕ) (query : Text) (r : KnowledgeResult)
    → tavily_search client loads max_results query ≡ returned r
    → IsBounded max_results r
unfolding tavily_search
tavily_search-IsBounded client loads max_results query r =
    Gives-returned (IsBounded max_results) (tavily_search client loads max_results query) r (
      answered_over-Gives (IsBounded max_results)
        (post_call client (record { query = query; max_results = max_results })) _
        (found_in-Gives loads max_results client.latency_ms))
