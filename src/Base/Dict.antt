-- ===== src/Base/Dict.antt =====
-- A Python dict, in insertion order: a write to a present key keeps its place, a new key goes last.
use mathlib.Core.Path.{◌≡◌, refl, sym, ap, ◌∙◌}
use mathlib.Core.Logic.{inl, inr}
use mathlib.Core.Bool.{Bool, true, false}
use mathlib.Core.Option.{Option, none, some}
use mathlib.Core.List.{List, [], ◌∷◌, ◌++◌, map}
use mathlib.Core.Option.{some-injective}
use native.Mathlib.Omega.{arith}
use diary_memory_service.Base.Tests.{
  KeyEquality, ◌==◌, ==-refl, eq_of_beq, Bool-cases, if◌then◌else◌,
}

abbrev pub Dict {ℓ} : Type ℓ → Type ℓ → Type ℓ
Dict K V = List (K × V)

module _ {ℓ} {K V : Type ℓ} ⦃e : KeyEquality K⦄ where
  -- `d.get(k)`
  abbrev pub lookup : K → Dict K V → Option V
  lookup k [] = none
  lookup k ((j, v) ∷ d) = if j == k then some v else lookup k d

  -- `d[k] = v`
  abbrev pub insert : K → V → Dict K V → Dict K V
  insert k v [] = (k, v) ∷ []
  insert k v ((j, w) ∷ d) = if j == k then (j, v) ∷ d else (j, w) ∷ insert k v d

  -- `del d[k]`: the keys of a dict are distinct, so no other entry goes.
  abbrev pub erase : K → Dict K V → Dict K V
  erase k [] = []
  erase k ((j, w) ∷ d) = let rest = erase k d in if j == k then rest else (j, w) ∷ rest

  -- `k in d`
  abbrev pub contains : K → Dict K V → Bool
  contains k d = elim (lookup k d) [ none ↦ false | some v ↦ true ]

  pub lookup-insert :
      (k j : K) (v : V) (d : Dict K V)
      → lookup j (insert k v d) ≡ (if k == j then some v else lookup j d)
  lookup-insert k j v [] = refl
  lookup-insert k j v ((i, w) ∷ d) =
      ground (arith, e.equals_iff k j, e.equals_iff i k, e.equals_iff i j, lookup-insert k j v d)

  pub lookup-erase :
      (k j : K) (d : Dict K V) → lookup j (erase k d) ≡ (if k == j then none else lookup j d)
  lookup-erase k j [] = ground arith
  lookup-erase k j ((i, w) ∷ d) =
      ground (arith, e.equals_iff k j, e.equals_iff i k, e.equals_iff i j, lookup-erase k j d)

  pub lookup-insert_self : (k : K) (v : V) (d : Dict K V) → lookup k (insert k v d) ≡ some v
  lookup-insert_self k v d = rw (lookup-insert, ==-refl k)

  -- A new key hides no present one.
  pub lookup-insert_fresh :
      (k j : K) (v w : V) (d : Dict K V)
      → lookup k d ≡ none
      → lookup j d ≡ some w
      → lookup j (insert k v d) ≡ some w
  lookup-insert_fresh k j v w d fresh h = elim (Bool-cases (k == j)) [
    | inl same ↦ absurd (clash (ap (λ i. lookup i d) (eq_of_beq k j same)))
    | inr other ↦ rw (lookup-insert, other) h
  ]
    where
      clash : lookup k d ≡ lookup j d → ⊥
      clash p = cc

-- `d.values()`
abbrev pub values {ℓ} : {K V : Type ℓ} → Dict K V → List V
values [] = []
values ((k, v) ∷ d) = v ∷ values d

module _ {ℓ} {K V : Type ℓ} ⦃e : KeyEquality K⦄ where
  -- A new key goes last.
  pub values-insert_new :
      (k : K) (v : V) (d : Dict K V)
      → lookup k d ≡ none
      → values (insert k v d) ≡ values d ++ v ∷ []
  values-insert_new k v [] h = refl
  values-insert_new k v ((j, w) ∷ d) h = ground (arith, values-insert_new k v d)

  -- A write to a present key that keeps what `f` reads.
  pub map-values-insert_same :
      {X : Type ℓ} (f : V → X) (k : K) (v w : V) (d : Dict K V)
      → lookup k d ≡ some v
      → f w ≡ f v
      → map f (values (insert k w d)) ≡ map f (values d)
  map-values-insert_same f k v w [] h p = cc
  map-values-insert_same f k v w ((j, u) ∷ d) h p = elim (Bool-cases (j == k)) [
    | inl same ↦
        rw same
          (ap (λ x. x ∷ map f (values d)) (p ∙ ap f (sym (some-injective u v (rw same at h)))))
    | inr other ↦
        rw other (ap (λ xs. f u ∷ xs) (map-values-insert_same f k v w d (rw other at h) p))
  ]
