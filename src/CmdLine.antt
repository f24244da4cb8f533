-- ===== src/CmdLine.antt =====
-- source/kiwibes_cmd_line.cpp and .h: the command line.
pub mod Acceptance
use kiwibes.Prelude.{
  ℕ, ◌+◌, ◌-◌, ◌*◌, ◌%◌, ◌^◌, String, Option, none, some, List, [], ◌∷◌, Bool, true, false,
  if◌then◌else◌, ltb, leb, eqb, ◌==◌, ◌&&◌, ◌||◌, not,
}
use kiwibes.Prelude.Int.{ℤ, pos, negsuc, sub_ℕ, to_u32}
use kiwibes.CStdlib.{strtol}
use kiwibes.Errors.{
  KiwibesError, no_error, cmdline_parse, cmdline_inv_log_level, cmdline_inv_log_max_size,
  cmdline_inv_data_store_max_size, cmdline_inv_home, is_ok,
}

-- `T_CMD_LINE_OPTIONS`; the numbers are `unsigned int`.
pub record Options : Type 0 where
  pub home : String
  pub log_level : ℕ
  pub log_max_size : ℕ
  pub https_port : ℕ
  pub data_store_size : ℕ

-- The value of an option, stored as an `unsigned int`.
unfoldable pub number : String → ℕ
unfolding strtol
number text = to_u32 (strtol text)

-- The chain of tests on one argument, which is not the last one; `none` where none of them holds.
unfoldable pub set_option : String → String → Options → Option Options
set_option flag value o =
    if "-l" == flag
    then some (record o { log_level = number value })
    else if "-s" == flag
    then some (record o { log_max_size = number value })
    else if "-p" == flag
    then some (record o { https_port = number value })
    else if "-d" == flag
    then some (record o { data_store_size = number value })
    else none

-- The loop over the arguments behind the home folder.
unfoldable pub parse_options : List String → Options → KiwibesError × Options
parse_options [] o = (no_error, o)
parse_options (flag ∷ []) o = (cmdline_parse, o)
parse_options (flag ∷ value ∷ rest) o = elim (set_option flag value o) [
  | none ↦ (cmdline_parse, o)
  | some o' ↦ parse_options rest o'
]

unfoldable pub parse_command_line : List String → Options → KiwibesError × Options
parse_command_line (program ∷ home ∷ rest) o = parse_options rest (record o { home = home })
parse_command_line _ o = (cmdline_parse, o)

-- `exists` says whether `stat` succeeds for a path.
unfoldable pub validate_command_line : (String → Bool) → Options → KiwibesError
validate_command_line exists o =
    if ltb 2 o.log_level
    then cmdline_inv_log_level
    else if ltb 100 o.log_max_size
    then cmdline_inv_log_max_size
    else if ltb 100 o.data_store_size
    then cmdline_inv_data_store_max_size
    else if not (exists o.home)
    then cmdline_inv_home
    else no_error

abbrev pub with_defaults : Options → Options
with_defaults o = record o {
  log_level = 0;
  log_max_size = 1;
  https_port = 4242;
  data_store_size = 10;
}

unfoldable pub parse_and_validate_command_line :
    (String → Bool) → List String → Options → KiwibesError × Options
parse_and_validate_command_line exists argv o =
    let (error, parsed) = parse_command_line argv (with_defaults o) in
    (if is_ok error then validate_command_line exists parsed else error, parsed)
