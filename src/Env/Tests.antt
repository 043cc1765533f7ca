-- ===== src/Env/Tests.antt =====
-- A value with a blank, quotes, a dollar and a line feed; and one that ends in a carriage return, which
-- is written without quotes and is read back without it.
use orbit_cli.Prelude.{◌≡◌, true, [], ◌∷◌, ◌++◌, inl, refl}
use orbit_cli.Prelude.Words.{is_space, trim_left, trim_right, Text, text, trim_space}
use orbit_cli.Env.{needs_quotes, format_value, unquote_env_value}
use orbit_cli.Env.Quoting.{unquote_env_value-format_value}
use orbit_cli.Env.{strip_quotes}
use orbit_cli.Env.{strip_last}
use orbit_cli.Env.{unquote_plain}
use orbit_cli.Env.{before_comment}
use orbit_cli.Prelude.Words.{trim_left}
use orbit_cli.Prelude.Words.{trim_right}

abbrev mixed : Text
mixed = text "a $b" ++ 10 ∷ 34 ∷ []

mixed_quoted : needs_quotes mixed ≡ true
unfolding needs_quotes
mixed_quoted = refl

unquote_env_value-format_value_example : unquote_env_value (format_value mixed) ≡ mixed
unquote_env_value-format_value_example = unquote_env_value-format_value mixed (inl mixed_quoted)

carriage_return_lost : unquote_env_value (format_value (text "a" ++ 13 ∷ [])) ≡ text "a"
unfolding unquote_env_value format_value needs_quotes strip_quotes strip_last unquote_plain
    before_comment trim_space trim_left trim_right is_space
carriage_return_lost = refl
