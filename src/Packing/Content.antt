-- ===== src/Packing/Content.antt =====
-- The content of the messages, adapters/telegram/drafts_packing.py.
use mathlib.Core.List.{append_assoc, flatten}
use diary_memory_service.Base.{
  ℕ, zero, suc, ◌+◌, ◌-◌, ◌*◌, ◌≤◌, ◌<◌, ◌≡◌, ◌≢◌, refl, ap, ◌∙◌, ◌⊎◌, inl, inr, true, false, List,
  [], ◌∷◌, ◌++◌, All, length, length-append, take, drop, ltb, leb, arith, Bool-cases,
}
use diary_memory_service.Base.Text.{Text, is_empty, join}
use diary_memory_service.Exec.{ok, raised, value_error}
use diary_memory_service.Packing.{
  part_footer, footer_overhead, parts_from, split_oversized, pack_blocks, or_header,
  pack_drafts_into_messages,
}
use diary_memory_service.Packing.Split.{split_oversized_cases, bodies_from, flatten-bodies_from}

lt-ltb-false : (cap : ℕ) → 0 < cap → ltb cap 1 ≡ false
lt-ltb-false cap h = ground arith

-- A block that is sent whole.
abbrev IsWhole : ℕ → Text → Type 0
IsWhole cap block = (0 < length block) × (length block ≤ cap)

join-join :
    (separator a b : Text) (rest : List Text)
    → join separator ((a ++ (separator ++ b)) ∷ rest) ≡ join separator (a ∷ b ∷ rest)
unfolding join
join-join separator a b [] = refl
join-join separator a b (c ∷ rest) = simp append_assoc

join-cons :
    (separator a : Text) (xs ys : List Text)
    → xs ≢ []
    → ys ≢ []
    → join separator xs ≡ join separator ys
    → join separator (a ∷ xs) ≡ join separator (a ∷ ys)
unfolding join
join-cons separator a [] ys h k e = absurd (h refl)
join-cons separator a (x ∷ xs) [] h k e = absurd (k refl)
join-cons separator a (x ∷ xs) (y ∷ ys) h k e = ap (λ t. a ++ (separator ++ t)) e

-- Joined again, the messages are the joined blocks.
pack_blocks-content :
    (cap : ℕ) (separator current : Text) (blocks : List Text)
    → 0 < length current
    → All (IsWhole cap) blocks
    → (messages : List Text) × (pack_blocks cap separator current blocks ≡ ok messages)
      × (messages ≢ [])
      × (join separator messages ≡ join separator (current ∷ blocks))
unfolding pack_blocks
pack_blocks-content cap separator [] blocks pos whole = absurd (omega arith)
pack_blocks-content cap separator (c ∷ current) [] pos whole =
    ((c ∷ current) ∷ [], refl, (λ e. cc), refl)
pack_blocks-content cap separator (c ∷ current) (block ∷ blocks) pos whole =
    elim (Bool-cases (leb (length (c ∷ current) + length separator + length block) cap)) [
      | inl fits ↦
          (let (ms, packed, some_message, content) =
              pack_blocks-content cap separator ((c ∷ current) ++ (separator ++ block)) blocks
                (omega arith) whole.1 in
            rw (small, fits)
              (ms, packed, some_message, content ∙ join-join separator (c ∷ current) block blocks))
      | inr over ↦
          (let (ms, packed, some_message, content) =
              pack_blocks-content cap separator block blocks whole.0.0 whole.1 in
            rw (small, over, packed)
              (
                (c ∷ current) ∷ ms,
                refl,
                (λ e. cc),
                join-cons separator (c ∷ current) ms (block ∷ blocks) some_message (λ e. cc)
                    content,
              ))
    ]
  where
    small : ltb cap (length block) ≡ false
    small = ground arith

-- With a positive cap and a separator, where the header and every block are non-empty and every
-- block fits the cap, packing succeeds, and
-- the messages joined by the separator are the header and the blocks joined by it, in their order.
pub pack_content :
    (header : Text) (blocks : List Text) (cap : ℕ) (separator : Text)
    → is_empty separator ≡ false
    → 0 < cap
    → 0 < length header
    → All (λ block. (0 < length block) × (length block ≤ cap)) blocks
    → (messages : List Text) × (pack_drafts_into_messages header blocks cap separator ≡ ok messages)
      × (join separator messages ≡ join separator (header ∷ blocks))
unfolding pack_drafts_into_messages
pack_content header blocks cap separator sep pos named whole =
    let (ms, packed, some_message, content) =
      pack_blocks-content cap separator header blocks named whole in
    rw (lt-ltb-false cap pos, sep, packed) (keep_messages ms some_message content)
  where
    keep_messages :
        (ms : List Text)
        → ms ≢ []
        → join separator ms ≡ join separator (header ∷ blocks)
        → (messages : List Text) × (or_header header (ok ms) ≡ ok messages)
          × (join separator messages ≡ join separator (header ∷ blocks))
    keep_messages [] h e = absurd (h refl)
    keep_messages (m ∷ ms) h e = (m ∷ ms, refl, e)

length-join-cons :
    (separator a b : Text) (rest : List Text)
    → (length a + length separator + length b ≤ length (join separator (a ∷ b ∷ rest)))
      × (length b ≤ length (join separator (a ∷ b ∷ rest)))
unfolding join
length-join-cons separator a b [] =
    omega (arith, length-append a (separator ++ b), length-append separator b)
length-join-cons separator a b (c ∷ rest) = omega (
  arith,
  length-append a (separator ++ (b ++ (separator ++ join separator (c ∷ rest)))),
  length-append separator (b ++ (separator ++ join separator (c ∷ rest))),
  length-append b (separator ++ join separator (c ∷ rest)),
)

-- While all fits, the loop only grows the current message.
pack_blocks_single :
    (cap : ℕ) (separator current : Text) (blocks : List Text)
    → 0 < length current
    → length (join separator (current ∷ blocks)) ≤ cap
    → pack_blocks cap separator current blocks ≡ ok (join separator (current ∷ blocks) ∷ [])
unfolding pack_blocks
pack_blocks_single cap separator [] blocks pos fits = absurd (omega arith)
pack_blocks_single cap separator (c ∷ current) [] pos fits = unfold join in refl
pack_blocks_single cap separator (c ∷ current) (block ∷ blocks) pos fits =
    rw (small, joins)
      (pack_blocks_single cap separator ((c ∷ current) ++ (separator ++ block)) blocks (omega arith)
          (rw (join-join separator (c ∷ current) block blocks) fits)
        ∙ ap (λ t. ok (t ∷ [])) (join-join separator (c ∷ current) block blocks))
  where
    small : ltb cap (length block) ≡ false
    small = ground (arith, length-join-cons separator (c ∷ current) block blocks)

    joins : leb (length (c ∷ current) + length separator + length block) cap ≡ true
    joins = ground (arith, length-join-cons separator (c ∷ current) block blocks)

-- With a positive cap and a separator, where the header is non-empty and the whole joined text fits
-- the cap, it is sent as one message.
pack_single :
    (header : Text) (blocks : List Text) (cap : ℕ) (separator : Text)
    → is_empty separator ≡ false
    → 0 < length header
    → length (join separator (header ∷ blocks)) ≤ cap
    → 0 < cap
    → pack_drafts_into_messages header blocks cap separator
      ≡ ok (join separator (header ∷ blocks) ∷ [])
unfolding pack_drafts_into_messages
pack_single header blocks cap separator sep named fits pos =
    rw (lt-ltb-false cap pos, sep, pack_blocks_single cap separator header blocks named fits)

-- The bodies with their footers, numbered from k + 1.
abbrev pub with_footers : Text → ℕ → ℕ → List Text → List Text
with_footers separator n k [] = []
with_footers separator n k (body ∷ bodies) =
    (body ++ part_footer separator (suc k) n) ∷ with_footers separator n (suc k) bodies

parts_from-with_footers :
    (separator block : Text) (body_cap n left k : ℕ)
    → parts_from separator block body_cap n left k
      ≡ with_footers separator n k (bodies_from block body_cap left k)
unfolding parts_from
parts_from-with_footers separator block body_cap n zero k = refl
parts_from-with_footers separator block body_cap n (suc left) k =
    ap
      (λ rest.
        (take body_cap (drop (k * body_cap) block) ++ part_footer separator (suc k) n) ∷ rest)
      (parts_from-with_footers separator block body_cap n left (suc k))

length-bodies_from :
    (block : Text) (body_cap left k : ℕ) → length (bodies_from block body_cap left k) ≡ left
length-bodies_from block body_cap zero k = refl
length-bodies_from block body_cap (suc left) k =
    ap suc (length-bodies_from block body_cap left (suc k))

-- The split of a block longer than the cap raises ValueError, or gives n parts numbered 1 to n, each with the
-- footer "(part k/n)", whose bodies in that order make up the block.
pub split_oversized_content :
    (block : Text) (cap : ℕ) (separator : Text)
    → cap < length block
    → (split_oversized block cap separator ≡ raised value_error)
      ⊎ ((n : ℕ) × (bodies : List Text) × (split_oversized block cap separator
            ≡ ok (with_footers separator n 0 bodies))
          × (length bodies ≡ n)
          × (flatten bodies ≡ block))
split_oversized_content block cap separator pos =
    elim (split_oversized_cases block cap separator pos) [
      | inl bad ↦ inl bad
      | inr (n, good, room, covers) ↦
          (let no_offset : 0 * (cap - footer_overhead separator n) ≡ 0 = omega arith in
            inr (
              n,
              bodies_from block (cap - footer_overhead separator n) n 0,
              good ∙ ap ok (parts_from-with_footers separator block _ n n 0),
              length-bodies_from block _ n 0,
              flatten-bodies_from block (cap - footer_overhead separator n) n 0
                    (omega (arith, covers))
                  ∙ ap (λ j. drop j block) no_offset,
            ))
    ]
