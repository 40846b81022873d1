-- ===== src/Exec/Invariants.antt =====
-- Invariants of actions, by the way an action is put together.
use diary_memory_service.Base.{All, Bool, true, false, List, [], ◌∷◌, ◌≡◌, sym, subst}
use diary_memory_service.Exec.{
  Exception, Result, ok, raised, Exec, outcome_then, pure, raise_if, caught, try_except, for_each,
  ◌>>=◌,
}
use diary_memory_service.Exec.Laws.{Returns, Returns-any}

module _ {S : Type 0} (P : S → Type 0) where
  -- The state has the property after the action, also where it raises, if it had it before.
  abbrev pub Preserves : {A : Type 0} → Exec S A → Type 0
  Preserves m = (s : S) → P s → P (m s).1

  pub pure-Preserves : {A : Type 0} (a : A) → Preserves (pure a)
  pure-Preserves a s h = h

  pub raise_if-Preserves : (c : Bool) (e : Exception) → Preserves (raise_if c e)
  raise_if-Preserves true e s h = h
  raise_if-Preserves false e s h = h

  module _ {A B : Type 0} where
    -- The second action may use what the first one's value has.
    pub bind_value-Preserves :
        (R : A → Type 0) (m : Exec S A) (f : A → Exec S B)
        → ((s : S) → Returns R (m s).0)
        → Preserves m
        → ((a : A) → R a → Preserves (f a))
        → Preserves (m >>= f)
    bind_value-Preserves R m f r h k s p = go (m s) (r s) (h s p)
      where
        go : (x : Result A × S) → Returns R x.0 → P x.1 → P (outcome_then x.0 f x.1).1
        go (raised e, t) a q = q
        go (ok a, t) ra q = k a ra t q

    pub bind-Preserves :
        (m : Exec S A) (f : A → Exec S B)
        → Preserves m
        → ((a : A) → Preserves (f a))
        → Preserves (m >>= f)
    bind-Preserves m f h k =
        bind_value-Preserves (λ a. Unit) m f (λ s. Returns-any (m s).0) h (λ a u. k a)

  pub try_except-Preserves :
      {A : Type 0} (m : Exec S A) (handler : Exception → Exec S A)
      → Preserves m
      → ((e : Exception) → Preserves (handler e))
      → Preserves (try_except m handler)
  try_except-Preserves {A} m handler h k s p = go (m s) (h s p)
    where
      go : (x : Result A × S) → P x.1 → P (caught x.0 handler x.1).1
      go (raised e, t) q = k e t q
      go (ok a, t) q = q

  pub for_each-Preserves :
      {A : Type 0} (body : A → Exec S (Unit {0})) (xs : List A)
      → ((x : A) → Preserves (body x))
      → Preserves (for_each body xs)
  for_each-Preserves body [] h s p = p
  for_each-Preserves {A} body (x ∷ xs) h s p =
      go (body x s) (h x s p) (for_each-Preserves body xs h (body x s).1 (h x s p))
    where
      go :
          (r : Result (Unit {0}) × S)
          → P r.1
          → P (for_each body xs r.1).1
          → P
              (elim r.0 as (λ _. Result (Unit {0}) × S) [
                | ok u ↦ for_each body xs r.1
                | raised e ↦ (raised e, r.1)
              ]).1
      go (ok u, t) q rest = rest
      go (raised e, t) q rest = q

  -- After a call that is known to return `a`.
  pub returned-then :
      {A B : Type 0} (m : Exec S A) (f : A → Exec S B) (s : S) (a : A) (t : S)
      → m s ≡ (ok a, t)
      → P (f a t).1
      → P ((m >>= f) s).1
  returned-then m f s a t h p = subst (λ x. P (outcome_then x.0 f x.1).1) (sym h) p

  -- An action that only reads.
  pub reads-Preserves : {A : Type 0} (m : Exec S A) → ((s : S) → (m s).1 ≡ s) → Preserves m
  reads-Preserves m h s p = subst P (sym (h s)) p

-- What the value and the state of an action have, where it returns.
abbrev pub Leaves : {S A : Type 0} → (A → S → Type 0) → Result A × S → Type 0
Leaves R (raised e, s) = Unit
Leaves R (ok a, s) = R a s

module _ {S A B : Type 0} (Q : A → S → Type 0) (R : B → S → Type 0) where
  pub bind-Leaves :
      (m : Exec S A) (f : A → Exec S B) (s : S)
      → Leaves Q (m s)
      → ((a : A) (t : S) → Q a t → Leaves R (f a t))
      → Leaves R ((m >>= f) s)
  bind-Leaves m f s h k = go (m s) h
    where
      go : (x : Result A × S) → Leaves Q x → Leaves R (outcome_then x.0 f x.1)
      go (raised e, t) h = tt
      go (ok a, t) h = k a t h

pub Preserves-Leaves :
    {S A : Type 0} (P : S → Type 0) (m : Exec S A)
    → Preserves P m
    → (s : S) → P s
    → Leaves (λ a t. P t) (m s)
Preserves-Leaves {S} {A} P m h s p = go (m s) (h s p)
  where
    go : (x : Result A × S) → P x.1 → Leaves (λ a t. P t) x
    go (raised e, t) q = tt
    go (ok a, t) q = q

pub Leaves-any : {S A : Type 0} (x : Result A × S) → Leaves (λ a t. Unit {0}) x
Leaves-any (raised e, s) = tt
Leaves-any (ok a, s) = tt

module _ {S A : Type 0} (Q : A → S → Type 0) (body : A → Exec S (Unit {0})) where
  -- What each round leaves for its element, and no round takes away, a loop leaves for all.
  pub for_each-All :
      (xs : List A) (s : S)
      → ((x : A) (t : S) → Leaves (λ u. Q x) (body x t))
      → ((x y : A) → Preserves (Q x) (body y))
      → Leaves (λ u t. All (λ x. Q x t) xs) (for_each body xs s)
  for_each-All [] s h keeps = tt
  for_each-All (x ∷ xs) s h keeps =
      go (body x s) (h x s) (for_each-All xs (body x s).1 h keeps)
        (λ q. for_each-Preserves (Q x) body xs (keeps x) (body x s).1 q)
    where
      both :
          (y : Result (Unit {0}) × S)
          → Leaves (λ u t. All (λ x. Q x t) xs) y
          → Q x y.1
          → Leaves (λ u t. All (λ x. Q x t) (x ∷ xs)) y
      both (raised e, t) rest q = tt
      both (ok u, t) rest q = (q, rest)

      go :
          (r : Result (Unit {0}) × S)
          → Leaves (λ u. Q x) r
          → Leaves (λ u t. All (λ x. Q x t) xs) (for_each body xs r.1)
          → (Q x r.1 → Q x (for_each body xs r.1).1)
          → Leaves
              (λ u t. All (λ x. Q x t) (x ∷ xs))
              (elim r.0 as (λ _. Result (Unit {0}) × S) [
                | ok u ↦ for_each body xs r.1
                | raised e ↦ (raised e, r.1)
              ])
      go (raised e, t) q rest keep = tt
      go (ok u, t) q rest keep = both (for_each body xs t) rest (keep q)
