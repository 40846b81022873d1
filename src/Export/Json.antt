-- ===== src/Export/Json.antt =====
-- core/export/serializers.py, `serialize_json`: the document, `json.dumps(document, indent=2,
-- ensure_ascii=False)` of it, and its UTF-8 bytes.
use diary_memory_service.Base.{
  ℕ, suc, zero, ◌+◌, ◌-◌, ◌/◌, ◌%◌, Bool, ◌&&◌, List, [], ◌∷◌, ◌++◌, map, length, ltb, leb, nat_beq,
  if◌then◌else◌,
}
use diary_memory_service.Base.Text.{Text, codes}
use diary_memory_service.Base.Decimal.{decimal}
use diary_memory_service.Exec.{Result, ok, raised, value_error}
use diary_memory_service.Models.{DateTime, SourceMessage, route_value, datetime_isoformat}

-- `text.encode("utf-8")`, one character. A surrogate raises UnicodeEncodeError, a ValueError.
abbrev pub utf8_bytes : ℕ → List ℕ
utf8_bytes c =
    if ltb c 0x80
    then c ∷ []
    else if ltb c 0x800
    then (0xc0 + c / 64) ∷ (0x80 + c % 64) ∷ []
    else if ltb c 0x10000
    then (0xe0 + c / 4096) ∷ (0x80 + c / 64 % 64) ∷ (0x80 + c % 64) ∷ []
    else (0xf0 + c / 262144) ∷ (0x80 + c / 4096 % 64) ∷ (0x80 + c / 64 % 64) ∷ (0x80 + c % 64) ∷ []

abbrev pub is_surrogate : ℕ → Bool
is_surrogate c = leb 0xd800 c && leb c 0xdfff

abbrev prepend : List ℕ → Result (List ℕ) → Result (List ℕ)
prepend bytes (raised e) = raised e
prepend bytes (ok rest) = ok (bytes ++ rest)

unfoldable pub encode_utf8 : Text → Result (List ℕ)
encode_utf8 [] = ok []
encode_utf8 (c ∷ s) =
    let rest = encode_utf8 s in
    if is_surrogate c then raised value_error else prepend (utf8_bytes c) rest

abbrev pub hex_digit : ℕ → ℕ
hex_digit n = if ltb n 10 then b'0' + n else b'a' + (n - 10)

-- One character of a JSON string, as `json.dumps(..., ensure_ascii=False)` writes it.
unfoldable pub escaped : ℕ → Text
escaped c =
    if nat_beq c b'"'
    then b'\\' ∷ b'"' ∷ []
    else if nat_beq c b'\\'
    then b'\\' ∷ b'\\' ∷ []
    else if leb 0x20 c
    then c ∷ []
    else if nat_beq c 10
    then b'\\' ∷ b'n' ∷ []
    else if nat_beq c 13
    then b'\\' ∷ b'r' ∷ []
    else if nat_beq c 9
    then b'\\' ∷ b't' ∷ []
    else if nat_beq c 12
    then b'\\' ∷ b'f' ∷ []
    else if nat_beq c 8
    then b'\\' ∷ b'b' ∷ []
    else b'\\' ∷ b'u' ∷ b'0' ∷ b'0' ∷ hex_digit (c / 16) ∷ hex_digit (c % 16) ∷ []

unfoldable pub escape_all : Text → Text
escape_all [] = []
escape_all (c ∷ s) = escaped c ++ escape_all s

unfoldable pub quoted : Text → Text
quoted s = b'"' ∷ (escape_all s ++ b'"' ∷ [])

-- The values of the document.
mutual
  pub data Value : Type 0 where
    text : Text → Value
    int : ℕ → Value
    array : Values → Value
    object : Members → Value

  pub data Values : Type 0 where
    end_values : Values
    value : Value → Values → Values

  pub data Members : Type 0 where
    end_members : Members
    member : Text → Value → Members → Members

abbrev break_line : ℕ → Text
break_line zero = b'\n' ∷ []
break_line (suc depth) = break_line depth ++ codes "  "

-- `indent=2`: each element on its own line, `depth` levels deep.
unfoldable mutual
  pub dumps : ℕ → Value → Text
  dumps depth (text s) = quoted s
  dumps depth (int n) = decimal n
  dumps depth (array end_values) = codes "[]"
  dumps depth (array (value v vs)) =
      codes "["
      ++ (break_line (suc depth)
          ++ (dumps (suc depth) v
              ++ (dumps_values (suc depth) vs ++ (break_line depth ++ codes "]"))))
  dumps depth (object end_members) = codes "{}"
  dumps depth (object (member k v ms)) =
      codes "{"
      ++ (break_line (suc depth)
          ++ (quoted k
              ++ (codes ": "
                  ++ (dumps (suc depth) v
                      ++ (dumps_members (suc depth) ms ++ (break_line depth ++ codes "}"))))))

  pub dumps_values : ℕ → Values → Text
  dumps_values depth end_values = []
  dumps_values depth (value v vs) =
      codes "," ++ (break_line depth ++ (dumps depth v ++ dumps_values depth vs))

  pub dumps_members : ℕ → Members → Text
  dumps_members depth end_members = []
  dumps_members depth (member k v ms) =
      codes ","
      ++ (break_line depth
          ++ (quoted k ++ (codes ": " ++ (dumps depth v ++ dumps_members depth ms))))

abbrev members_of : List (Text × Value) → Members
members_of [] = end_members
members_of ((k, v) ∷ ms) = member k v (members_of ms)

abbrev values_of : List Value → Values
values_of [] = end_values
values_of (v ∷ vs) = value v (values_of vs)

abbrev pub schema_version : ℕ
schema_version = 1

unfoldable pub record_dict : SourceMessage → Value
record_dict m = object (
    members_of (
      (codes "source_message_id", text m.source_message_id)
      ∷ (codes "community_id", text m.community_id)
      ∷ (codes "author_user_id", text m.author_user_id)
      ∷ (codes "external_chat_id", text m.external_chat_id)
      ∷ (codes "external_user_id", text m.external_user_id)
      ∷ (codes "external_message_id", text m.external_message_id)
      ∷ (codes "edit_seq", int m.edit_seq)
      ∷ (codes "raw_text", text m.raw_text)
      ∷ (codes "detected_route", text (route_value m.detected_route))
      ∷ (codes "created_at", text (datetime_isoformat m.created_at))
      ∷ []))

unfoldable pub envelope_dict : Text → Text → Text → DateTime → ℕ → Value
envelope_dict format_name community_id requester_user_id generated_at record_count = object (
    members_of (
      (codes "format", text format_name)
      ∷ (codes "schema_version", int schema_version)
      ∷ (
        codes "scope",
        object (
            members_of (
              (codes "community_id", text community_id)
              ∷ (codes "requester_user_id", text requester_user_id)
              ∷ [])),
      )
      ∷ (codes "generated_at", text (datetime_isoformat generated_at))
      ∷ (codes "record_count", int record_count)
      ∷ []))

unfoldable pub json_document : List SourceMessage → Text → Text → DateTime → Value
json_document messages community_id requester generated_at = object (
    members_of (
      (
        codes "export",
        envelope_dict (codes "json") community_id requester generated_at (length messages),
      )
      ∷ (codes "records", array (values_of (map record_dict messages)))
      ∷ []))

unfoldable pub serialize_json : List SourceMessage → Text → Text → DateTime → Result (List ℕ)
serialize_json messages community_id requester generated_at =
    encode_utf8 (dumps 0 (json_document messages community_id requester generated_at))
