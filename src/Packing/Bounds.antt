-- ===== src/Packing/Bounds.antt =====
-- The lengths of the messages, adapters/telegram/drafts_packing.py.
use diary_memory_service.Base.{
  ℕ, ◌+◌, ◌≤◌, ◌<◌, ◌≡◌, ◌≢◌, refl, subst, inl, inr, false, List, [], ◌∷◌, ◌++◌, All, All-append,
  length, length-append, ltb, leb, arith, Bool-cases,
}
use diary_memory_service.Base.Text.{Text, is_empty}
use diary_memory_service.Exec.{Result, ok, raised}
use diary_memory_service.Packing.{
  footer_overhead, split_oversized, flush, after_parts, after_message, or_header, pack_blocks,
  pack_drafts_into_messages,
}
use diary_memory_service.Packing.Split.{split_oversized_ok, split_oversized-fit}

abbrev Fits : ℕ → Text → Type 0
Fits cap message = length message ≤ cap

-- A result whose messages all fit.
abbrev AllFit : ℕ → Result (List Text) → Type 0
AllFit cap (ok messages) = All (Fits cap) messages
AllFit cap (raised e) = Unit

flush-fit :
    (cap : ℕ) (current : Text) (later : List Text)
    → Fits cap current
    → All (Fits cap) later
    → All (Fits cap) (flush current later)
flush-fit cap [] later h k = k
flush-fit cap (c ∷ current) later h k = (h, k)

after_message-fit :
    (cap : ℕ) (current : Text) (r : Result (List Text))
    → Fits cap current
    → AllFit cap r
    → AllFit cap (after_message current r)
after_message-fit cap current (ok later) h k = (h, k)
after_message-fit cap current (raised e) h k = tt

after_parts-fit :
    (cap : ℕ) (current : Text) (parts later : Result (List Text))
    → Fits cap current
    → AllFit cap parts
    → AllFit cap later
    → AllFit cap (after_parts current parts later)
after_parts-fit cap current (raised e) later h k l = tt
after_parts-fit cap current (ok parts) (raised e) h k l = tt
after_parts-fit cap current (ok parts) (ok later) h k l =
    flush-fit cap current (parts ++ later) h (All-append (Fits cap) parts later k l)

split-AllFit :
    (cap : ℕ) (separator block : Text) (r : Result (List Text))
    → cap < length block
    → split_oversized block cap separator ≡ r
    → AllFit cap r
split-AllFit cap separator block (raised e) pos h = tt
split-AllFit cap separator block (ok parts) pos h =
    split_oversized-fit block cap separator parts pos h

joined-length :
    (current separator block : Text)
    → length (current ++ (separator ++ block)) ≡ length current + length separator + length block
joined-length current separator block =
    omega (arith, length-append current (separator ++ block), length-append separator block)

pack_blocks-fit :
    (cap : ℕ) (separator current : Text) (blocks : List Text)
    → Fits cap current
    → AllFit cap (pack_blocks cap separator current blocks)
unfolding pack_blocks
pack_blocks-fit cap separator current [] h = flush-fit cap current [] h tt
pack_blocks-fit cap separator current (block ∷ blocks) h =
    elim (Bool-cases (ltb cap (length block))) [
      | inl large ↦ rw large (
          after_parts-fit cap current (split_oversized block cap separator)
            (pack_blocks cap separator [] blocks) h
            (split-AllFit cap separator block _ (ground arith) refl)
            (pack_blocks-fit cap separator [] blocks (omega arith)))
      | inr small ↦ elim (Bool-cases (is_empty current)) [
        | inl empty ↦ rw (small, empty) (pack_blocks-fit cap separator block blocks (ground arith))
        | inr full ↦
            elim (Bool-cases (leb (length current + length separator + length block) cap)) [
              | inl fits ↦
                  rw (small, full, fits)
                    (pack_blocks-fit cap separator (current ++ (separator ++ block)) blocks
                      (ground (arith, joined-length current separator block)))
              | inr over ↦
                  rw (small, full, over)
                    (after_message-fit cap current _ h
                      (pack_blocks-fit cap separator block blocks (ground arith)))
            ]
      ]
    ]

lt-ltb-false : (cap : ℕ) → 0 < cap → ltb cap 1 ≡ false
lt-ltb-false cap h = ground arith

-- The loop raises only where a split does.
pack_blocks_ok :
    (cap : ℕ) (separator current : Text) (blocks : List Text)
    → All (λ block. footer_overhead separator (length block) < cap) blocks
    → (messages : List Text) × (pack_blocks cap separator current blocks ≡ ok messages)
unfolding pack_blocks
pack_blocks_ok cap separator current [] room = (flush current [], refl)
pack_blocks_ok cap separator current (block ∷ blocks) room =
    elim (Bool-cases (ltb cap (length block))) [
      | inl large ↦
          (let (parts, split, _) = split_oversized_ok block cap separator (ground arith) room.0 in
            let (rest, packed) = pack_blocks_ok cap separator [] blocks room.1 in
            (flush current (parts ++ rest), rw (large, split, packed)))
      | inr small ↦ elim (Bool-cases (is_empty current)) [
        | inl empty ↦ rw (small, empty) (pack_blocks_ok cap separator block blocks room.1)
        | inr full ↦
            elim (Bool-cases (leb (length current + length separator + length block) cap)) [
              | inl fits ↦
                  rw (small, full, fits)
                    (pack_blocks_ok cap separator (current ++ (separator ++ block)) blocks room.1)
              | inr over ↦
                  (let (rest, packed) = pack_blocks_ok cap separator block blocks room.1 in
                    (current ∷ rest, rw (small, full, over, packed)))
            ]
      ]
    ]

or_header-fit :
    (cap : ℕ) (header : Text) (ms : List Text)
    → Fits cap header
    → All (Fits cap) ms
    → (messages : List Text) × (or_header header (ok ms) ≡ ok messages)
      × (messages ≢ [])
      × All (Fits cap) messages
or_header-fit cap header [] h k = (header ∷ [], refl, (λ e. cc), (h, tt))
or_header-fit cap header (m ∷ ms) h k = (m ∷ ms, refl, (λ e. cc), k)

-- With a positive cap that the header fits, a separator, and for each block room beside the footer
-- that as many parts as it has characters would get, packing returns a non-empty list of messages,
-- and none of them is longer than the cap.
pub pack_within_cap :
    (header : Text) (blocks : List Text) (cap : ℕ) (separator : Text)
    → is_empty separator ≡ false
    → 0 < cap
    → length header ≤ cap
    → All (λ block. footer_overhead separator (length block) < cap) blocks
    → (messages : List Text) × (pack_drafts_into_messages header blocks cap separator ≡ ok messages)
      × (messages ≢ [])
      × All (λ message. length message ≤ cap) messages
unfolding pack_drafts_into_messages
pack_within_cap header blocks cap separator sep pos fits room =
    let (ms, packed) = pack_blocks_ok cap separator header blocks room in
    let all_fit : All (Fits cap) ms =
      subst (AllFit cap) packed (pack_blocks-fit cap separator header blocks fits) in
    rw (lt-ltb-false cap pos, sep, packed) (or_header-fit cap header ms fits all_fit)
