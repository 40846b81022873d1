-- ===== src/Packing/Split.antt =====
-- The split of an oversized block, `_split_oversized` of adapters/telegram/drafts_packing.py.
use mathlib.Core.List.{flatten}
use native.Mathlib.Nat.{add-zero}
use diary_memory_service.Base.{
  ℕ, zero, suc, ◌+◌, ◌-◌, ◌*◌, ◌≤◌, ◌<◌, ◌≡◌, ap, sym, ◌∙◌, ◌⊎◌, inl, inr, true, false, some, List,
  [], ◌∷◌, ◌++◌, All, length, length-append, length-take, take, drop, take-append-drop, drop-all,
  drop-drop, subst, ltb, leb, arith, Bool-cases,
}
use diary_memory_service.Base.Text.{Text, codes}
use diary_memory_service.Base.Decimal.{decimal, length-decimal_mono}
use diary_memory_service.Exec.{Exception, Result, ok, raised, value_error}
use diary_memory_service.Packing.{
  part_footer, footer_overhead, part_count, parts_from, split_oversized,
}

length-part_footer :
    (separator : Text) (k n : ℕ)
    → length (part_footer separator k n)
      ≡ length separator + length (decimal k) + length (decimal n) + 8
unfolding part_footer
length-part_footer separator k n = omega (
  arith,
  length-append separator
      (codes "(part " ++ (decimal k ++ (codes "/" ++ (decimal n ++ codes ")")))),
  length-append (decimal k) (codes "/" ++ (decimal n ++ codes ")")),
  length-append (decimal n) (codes ")"),
)

pub footer_overhead_lem :
    (separator : Text) (n : ℕ)
    → footer_overhead separator n ≡ length separator + length (decimal n) + length (decimal n) + 8
unfolding footer_overhead
footer_overhead_lem separator n = length-part_footer separator n n

-- No footer is wider than the one that the sizes were computed with.
pub part_footer-le :
    (separator : Text) (k n : ℕ)
    → k ≤ n
    → length (part_footer separator k n) ≤ footer_overhead separator n
part_footer-le separator k n h = omega (
  arith,
  length-part_footer separator k n,
  footer_overhead_lem separator n,
  length-decimal_mono k n h,
)

le-mul_pos : (b n : ℕ) → 1 ≤ b → n ≤ b * n
le-mul_pos b n h = grind arith

ltb-false→le : (a b : ℕ) → ltb a b ≡ false → b ≤ a
ltb-false→le a b h = ground arith

leb-false→lt : (a b : ℕ) → leb a b ≡ false → b < a
leb-false→lt a b h = ground arith

-- From a positive number of parts on, with some fuel, and more than the block's size exceeds that
-- number, the loop ends: it returns a number of parts or raises.
pub part_count_total :
    (fuel cap : ℕ) (separator : Text) (size n : ℕ)
    → 0 < n
    → size < n + fuel
    → 0 < fuel
    → (r : Result ℕ) × (part_count fuel cap separator size n ≡ some r)
unfolding part_count
part_count_total zero cap separator size n pos enough h = absurd (omega arith)
part_count_total (suc fuel) cap separator size n pos enough h =
    elim (Bool-cases (ltb (cap - footer_overhead separator n) 1)) [
      | inl narrow ↦ (raised value_error, rw narrow)
      | inr wide ↦ elim (Bool-cases (leb size ((cap - footer_overhead separator n) * n))) [
        | inl covered ↦ (ok n, rw (wide, covered))
        | inr short ↦
            (let more : n < size =
                omega (arith, le-mul_pos _ n (ltb-false→le _ _ wide), leb-false→lt _ _ short) in
              rw (wide, short)
                (part_count_total fuel cap separator size (suc n) (omega arith) (omega arith)
                  (omega arith)))
      ]
    ]

part_count_raises :
    (fuel cap : ℕ) (separator : Text) (size n : ℕ) (e : Exception)
    → part_count fuel cap separator size n ≡ some (raised e)
    → e ≡ value_error
unfolding part_count
part_count_raises zero cap separator size n e h = absurd (cc)
part_count_raises (suc fuel) cap separator size n e h =
    ground (arith, part_count_raises fuel cap separator size (suc n) e)

pub part_count_covers :
    (fuel cap : ℕ) (separator : Text) (size n m : ℕ)
    → part_count fuel cap separator size n ≡ some (ok m)
    → (0 < cap - footer_overhead separator m)
      × (size ≤ (cap - footer_overhead separator m) * m)
      × (n ≤ m)
unfolding part_count
part_count_covers zero cap separator size n m h = absurd (cc)
part_count_covers (suc fuel) cap separator size n m h =
    ground (arith, part_count_covers fuel cap separator size (suc n) m)

footer_overhead_mono :
    (separator : Text) (m n : ℕ) → m ≤ n → footer_overhead separator m ≤ footer_overhead separator n
footer_overhead_mono separator m n h = omega (
  arith,
  footer_overhead_lem separator m,
  footer_overhead_lem separator n,
  length-decimal_mono m n h,
)

-- Where the footer of as many parts as characters leaves room, the loop finds a number.
part_count_ok :
    (fuel cap : ℕ) (separator : Text) (size n : ℕ)
    → 0 < n
    → n ≤ size
    → size < n + fuel
    → footer_overhead separator size < cap
    → (m : ℕ) × (part_count fuel cap separator size n ≡ some (ok m))
unfolding part_count
part_count_ok zero cap separator size n pos le enough room = absurd (omega arith)
part_count_ok (suc fuel) cap separator size n pos le enough room =
    elim (Bool-cases (ltb (cap - footer_overhead separator n) 1)) [
      | inl narrow ↦ absurd (ground (arith, footer_overhead_mono separator n size le))
      | inr wide ↦ elim (Bool-cases (leb size ((cap - footer_overhead separator n) * n))) [
        | inl covered ↦ (n, rw (wide, covered))
        | inr short ↦
            (let more : n < size =
                omega (arith, le-mul_pos _ n (ltb-false→le _ _ wide), leb-false→lt _ _ short) in
              rw (wide, short)
                (part_count_ok fuel cap separator size (suc n) (omega arith) (omega arith)
                  (omega arith) room))
      ]
    ]

-- The part bodies, one after the other.
abbrev pub bodies_from : Text → ℕ → ℕ → ℕ → List Text
bodies_from block body_cap zero k = []
bodies_from block body_cap (suc left) k =
    take body_cap (drop (k * body_cap) block) ∷ bodies_from block body_cap left (suc k)

-- The bodies of all the parts make up the block.
pub flatten-bodies_from :
    (block : Text) (body_cap left k : ℕ)
    → length block ≤ (k + left) * body_cap
    → flatten (bodies_from block body_cap left k) ≡ drop (k * body_cap) block
unfolding flatten
flatten-bodies_from block body_cap zero k h =
    sym (drop-all (k * body_cap) block (omega (arith, ap (λ (j : ℕ). j * body_cap) (add-zero k))))
flatten-bodies_from block body_cap (suc left) k h =
    ap (λ rest. take body_cap (drop (k * body_cap) block) ++ rest)
      (flatten-bodies_from block body_cap left (suc k)
        (subst (λ j. length block ≤ j * body_cap) (omega arith) h))
    ∙ ap (λ j. take body_cap (drop (k * body_cap) block) ++ drop j block) (omega arith)
    ∙ ap (λ rest. take body_cap (drop (k * body_cap) block) ++ rest)
        (sym (drop-drop body_cap (k * body_cap) block))
    ∙ take-append-drop body_cap (drop (k * body_cap) block)

-- The splitter never runs out of fuel: it raises for want of room, or returns the parts.
pub split_oversized_cases :
    (block : Text) (cap : ℕ) (separator : Text)
    → cap < length block
    → (split_oversized block cap separator ≡ raised value_error)
      ⊎ ((n : ℕ) × (split_oversized block cap separator
            ≡ ok (parts_from separator block (cap - footer_overhead separator n) n n 0))
          × (0 < cap - footer_overhead separator n)
          × (length block ≤ (cap - footer_overhead separator n) * n))
unfolding split_oversized
split_oversized_cases block cap separator h =
    let (r, counted) =
      part_count_total (length block) cap separator (length block) 1 (omega arith) (omega arith)
        (omega arith) in
    go r counted
  where
    large : ltb cap (length block) ≡ true
    large = ground arith

    go :
        (r : Result ℕ)
        → part_count (length block) cap separator (length block) 1 ≡ some r
        → (split_oversized block cap separator ≡ raised value_error)
          ⊎ ((n : ℕ) × (split_oversized block cap separator
                ≡ ok (parts_from separator block (cap - footer_overhead separator n) n n 0))
              × (0 < cap - footer_overhead separator n)
              × (length block ≤ (cap - footer_overhead separator n) * n))
    go (raised e) counted = inl (
        rw (split_oversized, large, counted)
          (ap raised (part_count_raises (length block) cap separator (length block) 1 e counted)))
    go (ok n) counted =
        let facts = part_count_covers (length block) cap separator (length block) 1 n counted in
        inr (n, rw (split_oversized, large, counted), facts.0, facts.1)

-- Every part of a split fits the cap.
pub parts_from-fit :
    (cap : ℕ) (separator block : Text) (n left k : ℕ)
    → footer_overhead separator n < cap
    → k + left ≤ n
    → All
        (λ part. length part ≤ cap)
        (parts_from separator block (cap - footer_overhead separator n) n left k)
unfolding parts_from
parts_from-fit cap separator block n zero k room h = tt
parts_from-fit cap separator block n (suc left) k room h = (
  omega (
    arith,
    length-append
        (take (cap - footer_overhead separator n)
          (drop (k * (cap - footer_overhead separator n)) block))
        (part_footer separator (suc k) n),
    length-take (cap - footer_overhead separator n)
        (drop (k * (cap - footer_overhead separator n)) block),
    part_footer-le separator (suc k) n (omega arith),
  ),
  parts_from-fit cap separator block n left (suc k) room (omega arith),
)

-- With room for the footer the split succeeds, and every part fits.
pub split_oversized_ok :
    (block : Text) (cap : ℕ) (separator : Text)
    → cap < length block
    → footer_overhead separator (length block) < cap
    → (parts : List Text) × (split_oversized block cap separator ≡ ok parts)
      × All (λ part. length part ≤ cap) parts
unfolding split_oversized
split_oversized_ok block cap separator pos room =
    let (n, counted) =
      part_count_ok (length block) cap separator (length block) 1 (omega arith) (omega arith)
        (omega arith) room in
    let large : ltb cap (length block) ≡ true = ground arith in
    let facts = part_count_covers (length block) cap separator (length block) 1 n counted in
    (
      parts_from separator block (cap - footer_overhead separator n) n n 0,
      rw (large, counted),
      parts_from-fit cap separator block n n 0 (omega (arith, facts.0)) (omega arith),
    )

-- Whatever the split returns fits.
pub split_oversized-fit :
    (block : Text) (cap : ℕ) (separator : Text) (parts : List Text)
    → cap < length block
    → split_oversized block cap separator ≡ ok parts
    → All (λ part. length part ≤ cap) parts
split_oversized-fit block cap separator parts pos h =
    elim (split_oversized_cases block cap separator pos) [
      | inl bad ↦ cc (bad, h)
      | inr (n, good, room, covers) ↦
          subst (All (λ part. length part ≤ cap)) (ok-injective (sym good ∙ h))
            (parts_from-fit cap separator block n n 0 (omega arith) (omega arith))
    ]
  where
    ok-injective : {xs ys : List Text} → ok xs ≡ ok ys → xs ≡ ys
    ok-injective e = cc
