-- ===== src/Exec/Laws.antt =====
-- How an action that only reads, and then another, can end.
use diary_memory_service.Base.{◌≡◌, refl, ap, ◌∙◌, ◌⊎◌, inl, inr, subst}
use diary_memory_service.Exec.{Exception, Result, ok, raised, Exec, outcome_then, ◌>>=◌}

module _ {S A : Type 0} where
  -- `m` has raised, or has returned, and left the state as it was.
  abbrev pub Reads : S → Result A × S → Type 0
  Reads s r = r.1 ≡ s

  pub read-bind :
      {B : Type 0} (m : Exec S A) (f : A → Exec S B) (s : S)
      → (m s).1 ≡ s
      → ((e : Exception) × (m s ≡ (raised e, s)) × ((m >>= f) s ≡ (raised e, s)))
        ⊎ ((a : A) × (m s ≡ (ok a, s)) × ((m >>= f) s ≡ f a s))
  read-bind {B} m f s same = go (m s) refl same
    where
      go :
          (x : Result A × S)
          → m s ≡ x
          → x.1 ≡ s
          → ((e : Exception) × (m s ≡ (raised e, s)) × ((m >>= f) s ≡ (raised e, s)))
            ⊎ ((a : A) × (m s ≡ (ok a, s)) × ((m >>= f) s ≡ f a s))
      go (raised e, t) p h = inl (
        e,
        p ∙ ap (λ u. (raised e, u)) h,
        ap (λ x. outcome_then x.0 f x.1) p ∙ ap (λ u. (raised e, u)) h,
      )
      go (ok a, t) p h =
          inr (a, p ∙ ap (λ u. (ok a, u)) h, ap (λ x. outcome_then x.0 f x.1) p ∙ ap (f a) h)

module _ {ℓ κ} {A : Type ℓ} (P : A → Type κ) where
  -- If it returns a value, the value has the property.
  abbrev pub Returns : Result A → Type κ
  Returns (raised e) = Unit
  Returns (ok a) = P a

  pub Returns-ok : (r : Result A) (a : A) → Returns r → r ≡ ok a → P a
  Returns-ok r a h e = subst Returns e h

module _ {ℓ κ μ} {S A B : Type ℓ} (P : A → Type κ) (Q : B → Type μ) where
  pub Returns-bind :
      (m : Exec S A) (f : A → Exec S B) (s : S)
      → Returns P (m s).0
      → ((a : A) (t : S) → P a → Returns Q (f a t).0)
      → Returns Q ((m >>= f) s).0
  Returns-bind m f s h k = go (m s) h
    where
      go : (x : Result A × S) → Returns P x.0 → Returns Q (outcome_then x.0 f x.1).0
      go (raised e, t) p = tt
      go (ok a, t) p = k a t p

module _ {ℓ κ μ} {A : Type ℓ} (P : A → Type κ) (Q : A → Type μ) where
  pub Returns-map : (r : Result A) → ((a : A) → P a → Q a) → Returns P r → Returns Q r
  Returns-map (raised e) f h = tt
  Returns-map (ok a) f h = f a h

-- Whatever is returned.
pub Returns-any {ℓ} : {A : Type ℓ} (r : Result A) → Returns (λ a. Unit {0}) r
Returns-any (raised e) = tt
Returns-any (ok a) = tt

pub Result-cases {ℓ} :
    {A : Type ℓ} (r : Result A) → ((a : A) × (r ≡ ok a)) ⊎ ((e : Exception) × (r ≡ raised e))
Result-cases (ok a) = inl (a, refl)
Result-cases (raised e) = inr (e, refl)

pub ok-injective {ℓ} : {A : Type ℓ} (a b : A) → ok a ≡ ok b → a ≡ b
ok-injective a b h = cc
