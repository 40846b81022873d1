-- ===== src/Commands.antt =====
-- Routing of a message's text: src/memory_rag/adapters/telegram/commands.py and
-- core/routing/classifier.py.
pub mod Recognised
use diary_memory_service.Base.{
  ℕ, Option, none, some, List, [], ◌∷◌, ◌++◌, nat_beq, text_eq, if◌then◌else◌,
}
use diary_memory_service.Base.Text.{Text, codes, is_empty, is_space, lstrip_by, strip}
use diary_memory_service.Base.Dict.{Dict, lookup}
use diary_memory_service.Models.{RouteKind}

abbrev pub command_tokens : Dict Text RouteKind
command_tokens =
    (codes "/start", RouteKind.start)
    ∷ (codes "/help", RouteKind.help)
    ∷ (codes "/note", RouteKind.note)
    ∷ (codes "/ask", RouteKind.ask)
    ∷ (codes "/chat", RouteKind.chat)
    ∷ (codes "/drafts", RouteKind.drafts)
    ∷ (codes "/export", RouteKind.export)
    ∷ (codes "/sources", RouteKind.sources)
    ∷ (codes "/delete", RouteKind.delete)
    ∷ []

-- `text.partition(c)` without the separator: the text before the first `c`, and that after it.
abbrev pub partition : ℕ → Text → Text × Text
partition c [] = ([], [])
partition c (d ∷ s) = let r = partition c s in if nat_beq d c then ([], s) else (d ∷ r.0, r.1)

-- `(" " + rest) if rest else ""`
abbrev pub spaced : Text → Text
spaced rest = if is_empty rest then [] else codes " " ++ rest

-- The head of the message and the rest, where a newline may end the head before the first space.
abbrev pub head_and_rest : Text × Text → Text × Text → Text × Text
head_and_rest (head, rest) (head_no_newline, rest_after_newline) =
    if is_empty rest_after_newline
    then (head, rest)
    else (head_no_newline, rest_after_newline ++ spaced rest)

abbrev pub split_head : Text → Text × Text
split_head text = head_and_rest (partition b' ' text) (partition b'\n' (partition b' ' text).0)

abbrev pub routed : Text → Text → Option RouteKind → RouteKind × Text
routed text rest none = (RouteKind.unknown, text)
routed text rest (some route) = (route, lstrip_by is_space rest)

unfoldable pub parse_command : Option Text → RouteKind × Text
parse_command none = (RouteKind.unknown, [])
parse_command (some []) = (RouteKind.unknown, [])
parse_command (some (c ∷ s)) =
    let (head, rest) = split_head (c ∷ s) in
    routed (c ∷ s) rest (lookup (partition b'@' head).0 command_tokens)

pub data Confidence : Type 0 where
  high low : Confidence

pub record ClassifiedRoute : Type 0 where
  pub route : RouteKind
  pub payload : Text
  pub confidence : Confidence
  pub reason : Text

-- `text or ""` is the text: an empty text is "" too.
unfoldable pub classify_plain_text : Text → ClassifiedRoute
classify_plain_text text =
    if is_empty (strip text)
    then record {
      route = RouteKind.clarify;
      payload = text;
      confidence = low;
      reason = codes "empty_after_strip";
    }
    else record {
      route = RouteKind.draft;
      payload = text;
      confidence = low;
      reason = codes "draft_floor_no_signal";
    }
