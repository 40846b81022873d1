-- ===== src/Packing.antt =====
-- The message packer, src/memory_rag/adapters/telegram/drafts_packing.py.
pub mod Split
pub mod Bounds
pub mod Content
use diary_memory_service.Base.{
  ℕ, zero, suc, ◌+◌, ◌-◌, ◌*◌, Bool, true, false, Option, none, some, List, [], ◌∷◌, ◌++◌, length,
  take, drop, ltb, leb, if◌then◌else◌,
}
use diary_memory_service.Base.Text.{Text, codes, is_empty}
use diary_memory_service.Base.Decimal.{decimal}
use diary_memory_service.Exec.{Result, ok, raised, value_error, assertion_error}

-- f"{separator}(part {k}/{n})"
unfoldable pub part_footer : Text → ℕ → ℕ → Text
part_footer separator k n =
    separator ++ (codes "(part " ++ (decimal k ++ (codes "/" ++ (decimal n ++ codes ")"))))

-- The widest footer, of part n of n.
unfoldable pub footer_overhead : Text → ℕ → ℕ
footer_overhead separator n = length (part_footer separator n n)

-- The `while True` loop, on fuel: `none` means that the fuel ran out. A cap that leaves no room for
-- a body raises; `cap - overhead < 1` holds exactly where the difference stops at 0.
unfoldable pub part_count : ℕ → ℕ → Text → ℕ → ℕ → Option (Result ℕ)
part_count zero cap separator size n = none
part_count (suc fuel) cap separator size n =
    let body_cap = cap - footer_overhead separator n in
    let rest = part_count fuel cap separator size (suc n) in
    if ltb body_cap 1
    then some (raised value_error)
    else if leb size (body_cap * n)
    then some (ok n)
    else rest

-- block[k * body_cap : (k + 1) * body_cap] and its footer, for the `left` parts from k on.
unfoldable pub parts_from : Text → Text → ℕ → ℕ → ℕ → ℕ → List Text
parts_from separator block body_cap n zero k = []
parts_from separator block body_cap n (suc left) k =
    (take body_cap (drop (k * body_cap) block) ++ part_footer separator (suc k) n)
    ∷ parts_from separator block body_cap n left (suc k)

-- As many rounds as the block has characters are enough for the loop.
abbrev split_parts : Text → ℕ → Text → Option (Result ℕ) → Result (List Text)
split_parts block cap separator none = raised value_error
split_parts block cap separator (some (raised e)) = raised e
split_parts block cap separator (some (ok n)) =
    ok (parts_from separator block (cap - footer_overhead separator n) n n 0)

-- `assert len(block) > cap`
unfoldable pub split_oversized : Text → ℕ → Text → Result (List Text)
split_oversized block cap separator =
    if ltb cap (length block)
    then split_parts block cap separator (part_count (length block) cap separator (length block) 1)
    else raised assertion_error

-- `if current: messages.append(current)`
abbrev pub flush : Text → List Text → List Text
flush current later = if is_empty current then later else current ∷ later

abbrev pub after_parts : Text → Result (List Text) → Result (List Text) → Result (List Text)
after_parts current (raised e) later = raised e
after_parts current (ok parts) (raised e) = raised e
after_parts current (ok parts) (ok later) = ok (flush current (parts ++ later))

abbrev pub after_message : Text → Result (List Text) → Result (List Text)
after_message current (raised e) = raised e
after_message current (ok later) = ok (current ∷ later)

-- The messages that the loop appends from here on.
unfoldable pub pack_blocks : ℕ → Text → Text → List Text → Result (List Text)
pack_blocks cap separator current [] = ok (flush current [])
pack_blocks cap separator current (block ∷ blocks) =
    let alone = pack_blocks cap separator [] blocks in
    let first = pack_blocks cap separator block blocks in
    let joined = pack_blocks cap separator (current ++ (separator ++ block)) blocks in
    if ltb cap (length block)
    then after_parts current (split_oversized block cap separator) alone
    else if is_empty current
    then first
    else if leb (length current + length separator + length block) cap
    then joined
    else after_message current first

-- `messages or [header]`
abbrev pub or_header : Text → Result (List Text) → Result (List Text)
or_header header (raised e) = raised e
or_header header (ok []) = ok (header ∷ [])
or_header header (ok (m ∷ ms)) = ok (m ∷ ms)

unfoldable pub pack_drafts_into_messages : Text → List Text → ℕ → Text → Result (List Text)
pack_drafts_into_messages header blocks cap separator =
    if ltb cap 1
    then raised value_error
    else if is_empty separator
    then raised value_error
    else or_header header (pack_blocks cap separator header blocks)
