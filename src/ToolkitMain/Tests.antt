-- ===== src/ToolkitMain/Tests.antt =====
-- The toolkit's program with concrete arguments.
use plat.Base.{◌≡◌, refl, false, List, [], ◌∷◌}
use plat.Base.Text.{
  Text, codes, same_text, strtol, skip_spaces, is_space, starts_digit, is_digit, digits_value,
  after_space, signed_value, to_int, word_to_int,
}
use plat.ToolkitMain.{max_loops, rounds_below}
use plat.ToolkitMain.Arguments.{
  Options, default_options, parse_arguments, one_argument, two_arguments, with_duration, atoi,
  duration_of,
}

-- The last argument wants a value that is not there.
abbrev arguments : List Text
arguments = codes "--no-sump" ∷ codes "--duration" ∷ codes " 3s" ∷ codes "--iface" ∷ []

abbrev chosen : Options
chosen = record default_options {
  cfg = record default_options.cfg { enable_sump_server = false };
  duration_sec = 3;
}

arguments-parsed : parse_arguments false default_options arguments ≡ chosen
unfolding parse_arguments default_options one_argument two_arguments with_duration atoi duration_of
    same_text strtol skip_spaces is_space after_space signed_value starts_digit is_digit
    digits_value to_int word_to_int
arguments-parsed = refl

-- 2 ^ 30 seconds are no rounds at all.
too_long : max_loops 1073741824 ≡ 0
unfolding max_loops rounds_below to_int word_to_int
too_long = refl
