-- ===== src/Base/Tests.antt =====
-- Boolean tests, the conditional, and equality as an interface (Python's `==` on the key types).
use Prim.Native.Nat.{ℕ, compare, Ordering}
use mathlib.Core.Path.{◌≡◌, refl}
use mathlib.Core.Logic.{◌↔◌, ◌⊎◌, inl, inr}
use mathlib.Core.Bool.{Bool, true, false, ◌&&◌}
use mathlib.Core.Option.{Option, none, some}
use mathlib.Core.List.{List, [], ◌∷◌}
use native.Mathlib.Omega.{arith}

abbrev pub ltb : ℕ → ℕ → Bool
ltb a b = elim (compare a b) [ Ordering.lt ↦ true | _ ↦ false ]

abbrev pub leb : ℕ → ℕ → Bool
leb a b = elim (compare a b) [ Ordering.gt ↦ false | _ ↦ true ]

abbrev pub nat_beq : ℕ → ℕ → Bool
nat_beq a b = elim (compare a b) [ Ordering.eq ↦ true | _ ↦ false ]

infix 1 if◌then◌else◌
abbrev pub if◌then◌else◌ {ℓ} : {A : Type ℓ} → Bool → A → A → A
if true then x else y = x
if false then x else y = y

pub Bool-cases : (b : Bool) → (b ≡ true) ⊎ (b ≡ false)
Bool-cases true = inl refl
Bool-cases false = inr refl

pub Option-cases {ℓ} : {A : Type ℓ} (o : Option A) → (o ≡ none) ⊎ ((a : A) × (o ≡ some a))
Option-cases none = inl refl
Option-cases (some a) = inr (a, refl)

-- What a dictionary needs of its keys: a test, and that the test is equality.
pub record KeyEquality {ℓ} (K : Type ℓ) : Type ℓ where
  pub equals : K → K → Bool
  pub equals_iff : (i j : K) → (equals i j ≡ true) ↔ (i ≡ j)

infix 50 ◌==◌
abbrev pub ◌==◌ {ℓ} : {K : Type ℓ} ⦃e : KeyEquality K⦄ (i j : K) → Bool
◌==◌ ⦃e⦄ i j = e.equals i j

pub ==-refl {ℓ} : {A : Type ℓ} ⦃e : KeyEquality A⦄ (a : A) → (a == a) ≡ true
==-refl ⦃e⦄ a = (e.equals_iff a a).1 refl

pub eq_of_beq {ℓ} : {A : Type ℓ} ⦃e : KeyEquality A⦄ (a b : A) → (a == b) ≡ true → a ≡ b
eq_of_beq ⦃e⦄ a b h = (e.equals_iff a b).0 h

pub nat_beq_iff : (a b : ℕ) → (nat_beq a b ≡ true) ↔ (a ≡ b)
nat_beq_iff a b = ground arith

instance abbrev pub nat_eq : KeyEquality ℕ
nat_eq = record { equals = nat_beq; equals_iff = nat_beq_iff }

-- Texts are lists of code points, and compare as such.
abbrev pub text_beq : List ℕ → List ℕ → Bool
text_beq [] [] = true
text_beq [] (d ∷ t) = false
text_beq (c ∷ s) [] = false
text_beq (c ∷ s) (d ∷ t) = nat_beq c d && text_beq s t

pub text_beq_iff : (s t : List ℕ) → (text_beq s t ≡ true) ↔ (s ≡ t)
text_beq_iff [] [] = (λ _. refl, λ _. refl)
text_beq_iff [] (d ∷ t) = ground arith
text_beq_iff (c ∷ s) [] = ground arith
text_beq_iff (c ∷ s) (d ∷ t) = ground (arith, text_beq_iff s t)

instance abbrev pub text_eq : KeyEquality (List ℕ)
text_eq = record { equals = text_beq; equals_iff = text_beq_iff }

-- Python compares texts by their code points, from the left.
abbrev pub text_ltb : List ℕ → List ℕ → Bool
text_ltb [] [] = false
text_ltb [] (d ∷ t) = true
text_ltb (c ∷ s) [] = false
text_ltb (c ∷ s) (d ∷ t) = if nat_beq c d then text_ltb s t else ltb c d

-- The keys of the store: (chunk_id, model_name), and (chat, message, edit_seq).
abbrev pub text_pair_beq : List ℕ × List ℕ → List ℕ × List ℕ → Bool
text_pair_beq p q = text_beq p.0 q.0 && text_beq p.1 q.1

pub text_pair_beq_iff : (p q : List ℕ × List ℕ) → (text_pair_beq p q ≡ true) ↔ (p ≡ q)
text_pair_beq_iff (a, b) (c, d) = ground (arith, text_beq_iff a c, text_beq_iff b d)

instance abbrev pub text_pair_eq : KeyEquality (List ℕ × List ℕ)
text_pair_eq = record { equals = text_pair_beq; equals_iff = text_pair_beq_iff }

abbrev pub message_key_beq : List ℕ × List ℕ × ℕ → List ℕ × List ℕ × ℕ → Bool
message_key_beq p q = text_beq p.0 q.0 && text_beq p.1 q.1 && nat_beq p.2 q.2

pub message_key_beq_iff : (p q : List ℕ × List ℕ × ℕ) → (message_key_beq p q ≡ true) ↔ (p ≡ q)
message_key_beq_iff (a, b, m) (c, d, n) = ground (arith, text_beq_iff a c, text_beq_iff b d)

instance abbrev pub message_key_eq : KeyEquality (List ℕ × List ℕ × ℕ)
message_key_eq = record { equals = message_key_beq; equals_iff = message_key_beq_iff }
