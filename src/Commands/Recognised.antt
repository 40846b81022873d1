-- ===== src/Commands/Recognised.antt =====
-- The texts of commands, adapters/telegram/commands.py.
use diary_memory_service.Base.{◌≡◌, refl, some, ◌++◌, All, text_eq}
use diary_memory_service.Base.Text.{Text, codes, is_space, lstrip_by}
use diary_memory_service.Models.{RouteKind}
use diary_memory_service.Commands.{command_tokens, parse_command}

-- Each command with a space behind it gives its route and the rest without leading white space.
parse_command_space :
    (rest : Text)
    → All
        (λ e. parse_command (some (e.0 ++ (codes " " ++ rest))) ≡ (e.1, lstrip_by is_space rest))
        command_tokens
unfolding parse_command
parse_command_space rest =
    (refl, (refl, (refl, (refl, (refl, (refl, (refl, (refl, (refl, tt)))))))))

-- Each command with a newline and a space behind it is not recognised.
pub parse_command_newline_space :
    (rest : Text)
    → All
        (λ e.
          parse_command (some (e.0 ++ (codes "\n " ++ rest)))
          ≡ (RouteKind.unknown, e.0 ++ (codes "\n " ++ rest)))
        command_tokens
unfolding parse_command
parse_command_newline_space rest =
    (refl, (refl, (refl, (refl, (refl, (refl, (refl, (refl, (refl, tt)))))))))
