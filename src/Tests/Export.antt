-- ===== src/Tests/Export.antt =====
-- The texts of the export.
use diary_memory_service.Base.{◌≡◌, refl, [], ◌∷◌}
use diary_memory_service.Base.Text.{codes}
use diary_memory_service.Base.Decimal.{decimal, decimal_rounds}
use diary_memory_service.Models.{
  padded, date_isoformat, date_of_days, datetime_date, datetime_isoformat, datetime_stamp,
}
use diary_memory_service.Export.Json.{
  escaped, escape_all, quoted, dumps, encode_utf8, text, array, object, member, end_members, value,
  end_values,
}
use diary_memory_service.Exec.{ok}

noon : datetime_isoformat 1778327999500000 ≡ codes "2026-05-09T11:59:59.500000+00:00"
unfolding decimal decimal_rounds padded date_isoformat date_of_days datetime_date datetime_isoformat
noon = refl

stamp : datetime_stamp 951782400000000 ≡ codes "20000229T000000Z"
unfolding decimal decimal_rounds padded date_of_days datetime_date datetime_stamp
stamp = refl

dumped :
    dumps 0 (object (member (codes "a") (array (value (text (codes "x")) end_values)) end_members))
    ≡ codes "{\n  \"a\": [\n    \"x\"\n  ]\n}"
unfolding dumps quoted escape_all escaped
dumped = refl

euro : encode_utf8 (0x20ac ∷ []) ≡ ok (0xe2 ∷ 0x82 ∷ 0xac ∷ [])
unfolding encode_utf8
euro = refl
