-- ===== src/Tests/Commands.antt =====
-- The command parser.
use diary_memory_service.Base.{◌≡◌, ◌++◌, some, All}
use diary_memory_service.Base.Text.{codes}
use diary_memory_service.Models.{RouteKind}
use diary_memory_service.Commands.{command_tokens, parse_command}
use diary_memory_service.Commands.Recognised.{parse_command_newline_space}

parse_command_newline_space_example :
    All
      (λ e.
        parse_command (some (e.0 ++ (codes "\n " ++ codes "2026-05-09")))
        ≡ (RouteKind.unknown, e.0 ++ (codes "\n " ++ codes "2026-05-09")))
      command_tokens
parse_command_newline_space_example = parse_command_newline_space (codes "2026-05-09")
