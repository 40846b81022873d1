-- ===== src/Tests/Packing.antt =====
-- The packer on short texts, with the separator "\n\n".
use diary_memory_service.Base.{
  ◌≡◌, ◌≢◌, ◌≤◌, ◌<◌, ◌⊎◌, ℕ, refl, [], ◌∷◌, List, length, All, some, arith,
}
use diary_memory_service.Base.Text.{Text, codes, join}
use mathlib.Core.List.{flatten}
use diary_memory_service.Exec.{Result, ok, raised, value_error}
use diary_memory_service.Base.Decimal.{decimal, decimal_rounds}
use diary_memory_service.Packing.{
  part_footer, footer_overhead, part_count, pack_drafts_into_messages, split_oversized,
}
use diary_memory_service.Packing.Split.{part_count_total}
use diary_memory_service.Packing.Bounds.{pack_within_cap}
use diary_memory_service.Packing.Content.{pack_content, split_oversized_content, with_footers}

abbrev separator : Text
separator = codes "\n\n"

abbrev header : Text
header = codes "Drafts"

abbrev short_blocks : List Text
short_blocks = codes "first draft" ∷ codes "second draft" ∷ []

abbrev long_block : Text
long_block = codes "a long draft that has to be split into several parts"

part_count_total_example :
    (r : Result ℕ) × (part_count 53 30 separator (length long_block) 1 ≡ some r)
part_count_total_example =
    part_count_total 53 30 separator (length long_block) 1 (omega arith) (omega arith) (omega arith)

rooms : All (λ block. footer_overhead separator (length block) < 40) (long_block ∷ short_blocks)
unfolding footer_overhead part_footer decimal decimal_rounds
rooms = (omega arith, (omega arith, (omega arith, tt)))

pack_within_cap_example :
    (messages : List Text) × (pack_drafts_into_messages header
        (long_block ∷ short_blocks)
        40
        separator
      ≡ ok messages)
    × (messages ≢ [])
    × All (λ message. length message ≤ 40) messages
pack_within_cap_example =
    pack_within_cap header (long_block ∷ short_blocks) 40 separator refl (omega arith) (omega arith)
      rooms

pack_content_example :
    (messages : List Text) × (pack_drafts_into_messages header short_blocks 20 separator
      ≡ ok messages)
    × (join separator messages ≡ join separator (header ∷ short_blocks))
pack_content_example =
    pack_content header short_blocks 20 separator refl (omega arith) (omega arith)
      ((omega arith, omega arith), ((omega arith, omega arith), tt))

split_oversized_content_example :
    (split_oversized long_block 30 separator ≡ raised value_error)
    ⊎ ((n : ℕ) × (bodies : List Text) × (split_oversized long_block 30 separator
          ≡ ok (with_footers separator n 0 bodies))
        × (length bodies ≡ n)
        × (flatten bodies ≡ long_block))
split_oversized_content_example = split_oversized_content long_block 30 separator (omega arith)
