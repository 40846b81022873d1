-- ===== src/Store/Removal/Erased.antt =====
-- What the loops of `del` in storage/mock/store.py leave of a dictionary.
use diary_memory_service.Base.{
  Bool, true, false, ◌≤◌, length, ◌≡◌, refl, none, List, [], ◌∷◌, map, keep, All, inl, inr,
  KeyEquality, ◌==◌, ==-refl, Bool-cases, text_eq, if◌then◌else◌, arith,
}
use diary_memory_service.Base.Text.{Text}
use diary_memory_service.Base.Dict.{Dict, lookup, erase, contains, values}
use diary_memory_service.Exec.{ok, raised, key_error}
use diary_memory_service.Store.Removal.{del_each, keys_where, is_member, distinct}

module _ {K V : Type 0} ⦃e : KeyEquality K⦄ where
  -- No key stands twice, as in every Python dict.
  abbrev pub Distinct : Dict K V → Type 0
  Distinct [] = Unit
  Distinct ((k, v) ∷ d) = (lookup k d ≡ none) × Distinct d

  -- `{k: v for k, v in d.items() if not p(v)}`
  abbrev pub discard : (V → Bool) → Dict K V → Dict K V
  discard p [] = []
  discard p ((k, v) ∷ d) = if p v then discard p d else (k, v) ∷ discard p d

  erase-absent : (k : K) (d : Dict K V) → lookup k d ≡ none → erase k d ≡ d
  erase-absent k [] h = refl
  erase-absent k ((j, v) ∷ d) h = ground (arith, erase-absent k d)

  keys_where-Fresh :
      (p : V → Bool) (k : K) (d : Dict K V)
      → lookup k d ≡ none
      → All (λ j. (k == j) ≡ false) (keys_where p d)
  keys_where-Fresh p k [] h = tt
  keys_where-Fresh p k ((j, v) ∷ d) h =
      ground (arith, e.equals_iff j k, e.equals_iff k j, keys_where-Fresh p k d)

  del_each-found :
      (j : K) (ks : List K) (d : Dict K V)
      → contains j d ≡ true
      → del_each (j ∷ ks) d ≡ del_each ks (erase j d)
  del_each-found j ks d h = ground arith

  del_each-missing :
      (j : K) (ks : List K) (d : Dict K V)
      → contains j d ≡ false
      → del_each (j ∷ ks) d ≡ (raised key_error, d)
  del_each-missing j ks d h = ground arith

  -- Deletions of other keys pass over an entry.
  del_each-cons :
      (ks : List K) (k : K) (v : V) (d : Dict K V)
      → All (λ j. (k == j) ≡ false) ks
      → del_each ks ((k, v) ∷ d) ≡ ((del_each ks d).0, (k, v) ∷ (del_each ks d).1)
  del_each-cons [] k v d h = refl
  del_each-cons (j ∷ ks) k v d h = elim (Bool-cases (contains j d)) [
    | inl found ↦ rw (
      del_each-found j ks ((k, v) ∷ d) (rw (contains, h.0) found),
      h.0,
      del_each-found j ks d found,
      del_each-cons ks k v (erase j d) h.1,
    )
    | inr missing ↦ rw (
      del_each-missing j ks ((k, v) ∷ d) (rw (contains, h.0) missing),
      del_each-missing j ks d missing,
    )
  ]

  -- The loop over the keys whose values pass a test raises nothing, and leaves the others.
  pub del_each-discard :
      (p : V → Bool) (d : Dict K V)
      → Distinct d
      → del_each (keys_where p d) d ≡ (ok tt, discard p d)
  del_each-discard p [] h = refl
  del_each-discard p ((k, v) ∷ d) h = elim (Bool-cases (p v)) [
    | inl gone ↦
        rw
          (
            gone,
            del_each-found k (keys_where p d) ((k, v) ∷ d) (rw (contains, ==-refl k)),
            ==-refl k,
            erase-absent k d h.0,
          )
          (del_each-discard p d h.1)
    | inr stays ↦ rw (
      stays,
      del_each-cons (keys_where p d) k v d (keys_where-Fresh p k d h.0),
      del_each-discard p d h.1,
    )
  ]

  -- Every value knows its key.
  abbrev pub Keyed : (V → K) → Dict K V → Type 0
  Keyed id d = All (λ e. id e.1 ≡ e.0) d

  pub keys_where-ids :
      (id : V → K) (p : V → Bool) (d : Dict K V)
      → Keyed id d
      → map id (keep p (values d)) ≡ keys_where p d
  keys_where-ids id p [] h = refl
  keys_where-ids id p ((k, v) ∷ d) h = ground (arith, h.0, keys_where-ids id p d h.1)

is_member-fresh :
    (k : Text) (ks : List Text) → All (λ j. (k == j) ≡ false) ks → is_member k ks ≡ false
is_member-fresh k [] h = refl
is_member-fresh k (j ∷ ks) h =
    ground (arith, text_eq.equals_iff j k, text_eq.equals_iff k j, h.0, is_member-fresh k ks h.1)

pub distinct-keys_where :
    {V : Type 0} (p : V → Bool) (d : Dict Text V)
    → Distinct d
    → distinct (keys_where p d) ≡ keys_where p d
distinct-keys_where p [] h = refl
distinct-keys_where p ((k, v) ∷ d) h = elim (Bool-cases (p v)) [
  | inl taken ↦ rw (
    taken,
    is_member-fresh k (keys_where p d) (keys_where-Fresh p k d h.0),
    distinct-keys_where p d h.1,
  )
  | inr left ↦ rw left (distinct-keys_where p d h.1)
]

-- What is left of a dictionary in which the rows stand under their own ids, each once, stands so.
module _ {K V : Type 0} ⦃e : KeyEquality K⦄ (p : V → Bool) where
  lookup-discard_absent : (k : K) (d : Dict K V) → lookup k d ≡ none → lookup k (discard p d) ≡ none
  lookup-discard_absent k [] h = refl
  lookup-discard_absent k ((j, v) ∷ d) h = ground (arith, lookup-discard_absent k d)

  pub discard-Distinct : (d : Dict K V) → Distinct d → Distinct (discard p d)
  discard-Distinct [] h = tt
  discard-Distinct ((k, v) ∷ d) h = elim (Bool-cases (p v)) [
    | inl gone ↦ rw gone (discard-Distinct d h.1)
    | inr left ↦ rw left (lookup-discard_absent k d h.0, discard-Distinct d h.1)
  ]

  pub discard-Keyed : (id : V → K) (d : Dict K V) → Keyed id d → Keyed id (discard p d)
  discard-Keyed id [] h = tt
  discard-Keyed id ((k, v) ∷ d) h = elim (Bool-cases (p v)) [
    | inl gone ↦ rw gone (discard-Keyed id d h.1)
    | inr left ↦ rw left (h.0, discard-Keyed id d h.1)
  ]

  -- Of what is left, a stricter test keeps no more.
  pub length-keep-discard :
      (stricter test : V → Bool) (d : Dict K V)
      → ((v : V) → stricter v ≡ true → test v ≡ true)
      → length (keep stricter (values (discard p d))) ≤ length (keep test (values d))
  length-keep-discard stricter test [] h = omega arith
  length-keep-discard stricter test ((k, v) ∷ d) h =
      ground (arith, h v, length-keep-discard stricter test d h)
