-- ===== src/Examples/Arguments.antt =====
-- Command lines.
use kiwibes.Prelude.{◌≡◌, refl, List, [], ◌∷◌, true, arith}
use kiwibes.Errors.{no_error}
use kiwibes.CStdlib.{strtol}
use kiwibes.CmdLine.{
  Options, number, parse_and_validate_command_line, parse_command_line, parse_options, set_option,
  validate_command_line, with_defaults,
}
use kiwibes.CmdLine.Acceptance.{
  Setting, log_level, data_store_size, render, apply_all, Accepted, parse_and_validate-Accepted,
  parse_and_validate-accepts,
}

abbrev unset : Options
unset = record { home = ""; log_level = 7; log_max_size = 7; https_port = 7; data_store_size = 7 }

abbrev settings : List Setting
settings = data_store_size "100" ∷ log_level "9" ∷ log_level "2" ∷ []

parse_and_validate-Accepted_example :
    let argv = "kiwibes" ∷ "/home/kiwibes/" ∷ render settings in
    Accepted (λ path. true) argv unset (parse_and_validate_command_line (λ path. true) argv unset).1
unfolding parse_and_validate_command_line parse_command_line parse_options set_option number
    validate_command_line strtol
parse_and_validate-Accepted_example =
    parse_and_validate-Accepted (λ path. true) ("kiwibes" ∷ "/home/kiwibes/" ∷ render settings)
      unset refl

parse_and_validate-accepts_example :
    parse_and_validate_command_line
      (λ path. true)
      ("kiwibes" ∷ "/home/kiwibes/" ∷ render settings)
      unset
    ≡ (no_error, apply_all settings (record (with_defaults unset) { home = "/home/kiwibes/" }))
unfolding number strtol
parse_and_validate-accepts_example =
    parse_and_validate-accepts (λ path. true) "kiwibes" "/home/kiwibes/" settings unset
      (record {
        level = omega arith;
        log_size = omega arith;
        store_size = omega arith;
        home = refl;
      })
