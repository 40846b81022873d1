-- ===== src/Base/Text.antt =====
-- Python's `str` as a list of code points, and the methods that the service uses of it.
use Prim.Native.Char.{code}
use Prim.Native.Nat.{ℕ}
use diary_memory_service.Base.Tests.{leb, nat_beq, if◌then◌else◌}
use Prim.Native.String.{String}
use mathlib.Core.Bool.{Bool, true, false, ◌&&◌, ◌||◌}
use mathlib.Core.List.{List, [], ◌∷◌, ◌++◌, map}

abbrev pub Text : Type 0
Text = List ℕ

-- A literal of the source.
abbrev pub codes : String → Text
codes String.[] = []
codes (String.◌∷◌ c s) = code c ∷ codes s

-- `if not text`
abbrev pub is_empty : Text → Bool
is_empty [] = true
is_empty (c ∷ s) = false

-- `str.isspace` on one character: the white space that `str.strip` removes.
unfoldable pub is_space : ℕ → Bool
is_space c =
    leb 9 c && leb c 13
    || leb 28 c && leb c 32
    || nat_beq c 0x85
    || nat_beq c 0xa0
    || nat_beq c 0x1680
    || leb 0x2000 c && leb c 0x200a
    || nat_beq c 0x2028
    || nat_beq c 0x2029
    || nat_beq c 0x202f
    || nat_beq c 0x205f
    || nat_beq c 0x3000

-- The line boundaries of `str.splitlines`, apart from "\r\n", which counts as one.
unfoldable pub is_line_break : ℕ → Bool
is_line_break c =
    leb 10 c && leb c 13
    || leb 28 c && leb c 30
    || nat_beq c 0x85
    || nat_beq c 0x2028
    || nat_beq c 0x2029

-- `text.lstrip()`, with the characters to remove as a test.
unfoldable pub lstrip_by : (ℕ → Bool) → Text → Text
lstrip_by p [] = []
lstrip_by p (c ∷ s) = if p c then lstrip_by p s else c ∷ s

unfoldable pub rstrip_by : (ℕ → Bool) → Text → Text
rstrip_by p [] = []
rstrip_by p (c ∷ s) = let rest = rstrip_by p s in if is_empty rest && p c then [] else c ∷ rest

unfoldable pub strip : Text → Text
unfolding lstrip_by rstrip_by is_space
strip s = rstrip_by is_space (lstrip_by is_space s)

-- `text.splitlines(keepends=True)`; `line` is the current line so far.
unfoldable pub lines_kept : Text → Text → List Text
lines_kept line [] = if is_empty line then [] else line ∷ []
lines_kept line (c ∷ []) = (line ++ c ∷ []) ∷ []
lines_kept line (c ∷ d ∷ s) =
    let crlf = (line ++ c ∷ d ∷ []) ∷ lines_kept [] s in
    let broken = (line ++ c ∷ []) ∷ lines_kept [] (d ∷ s) in
    let longer = lines_kept (line ++ c ∷ []) (d ∷ s) in
    if nat_beq c 13 && nat_beq d 10 then crlf else if is_line_break c then broken else longer

-- A line without its break.
unfoldable pub chomp : Text → Text
unfolding rstrip_by is_line_break
chomp line = rstrip_by is_line_break line

unfoldable pub splitlines : Text → List Text
unfolding lines_kept chomp is_line_break
splitlines s = map chomp (lines_kept [] s)

-- `separator.join(parts)`
unfoldable pub join : Text → List Text → Text
join separator [] = []
join separator (part ∷ []) = part
join separator (part ∷ next ∷ rest) = part ++ (separator ++ join separator (next ∷ rest))
