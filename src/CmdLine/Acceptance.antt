-- ===== src/CmdLine/Acceptance.antt =====
-- Which command lines are accepted, and what they set.
use kiwibes.Prelude.{
  ◌≤◌, String, ◌≡◌, refl, ◌∙◌, ap, some, List, [], ◌∷◌, Bool, true, ◌==◌, arith, Bool-cases, inl,
  inr, eq_iff, Option-cases,
}
use kiwibes.Errors.{no_error}
use kiwibes.CmdLine.{
  Options, number, set_option, parse_options, parse_command_line, validate_command_line,
  with_defaults, parse_and_validate_command_line,
}

-- A setting on the command line, with the text of its value.
pub data Setting : Type 0 where
  log_level log_max_size https_port data_store_size : String → Setting

abbrev flag_of : Setting → String
flag_of (log_level v) = "-l"
flag_of (log_max_size v) = "-s"
flag_of (https_port v) = "-p"
flag_of (data_store_size v) = "-d"

abbrev value_of : Setting → String
value_of (log_level v) = v
value_of (log_max_size v) = v
value_of (https_port v) = v
value_of (data_store_size v) = v

abbrev pub render : List Setting → List String
render [] = []
render (s ∷ l) = flag_of s ∷ value_of s ∷ render l

abbrev apply : Setting → Options → Options
apply (log_level v) o = record o { log_level = number v }
apply (log_max_size v) o = record o { log_max_size = number v }
apply (https_port v) o = record o { https_port = number v }
apply (data_store_size v) o = record o { data_store_size = number v }

-- From left to right: the last of several settings of one option counts.
abbrev pub apply_all : List Setting → Options → Options
apply_all [] o = o
apply_all (s ∷ l) o = apply_all l (apply s o)

parse_options-render :
    (l : List Setting) (o : Options) → parse_options (render l) o ≡ (no_error, apply_all l o)
unfolding parse_options set_option
parse_options-render [] o = refl
parse_options-render (log_level v ∷ l) o = parse_options-render l _
parse_options-render (log_max_size v ∷ l) o = parse_options-render l _
parse_options-render (https_port v ∷ l) o = parse_options-render l _
parse_options-render (data_store_size v ∷ l) o = parse_options-render l _

-- A known flag is the one of a setting.
data IsSetting (flag value : String) (o o' : Options) : Type 0 where
  setting :
      (s : Setting)
      → flag ≡ flag_of s
      → value ≡ value_of s
      → o' ≡ apply s o
      → IsSetting flag value o o'

same_text : (s t : String) → (s == t) ≡ true → t ≡ s
same_text s t e = ground (arith, eq_iff s t)

set_option-IsSetting :
    (flag value : String) (o o' : Options)
    → set_option flag value o ≡ some o'
    → IsSetting flag value o o'
unfolding set_option
set_option-IsSetting flag value o o' h = elim (Bool-cases ("-l" == flag)) [
  | inl e ↦ setting (log_level value) (same_text "-l" flag e) refl (ground arith)
  | inr nl ↦ elim (Bool-cases ("-s" == flag)) [
    | inl e ↦ setting (log_max_size value) (same_text "-s" flag e) refl (ground arith)
    | inr ns ↦ elim (Bool-cases ("-p" == flag)) [
      | inl e ↦ setting (https_port value) (same_text "-p" flag e) refl (ground arith)
      | inr np ↦ elim (Bool-cases ("-d" == flag)) [
        | inl e ↦ setting (data_store_size value) (same_text "-d" flag e) refl (ground arith)
        | inr nd ↦ absurd (ground arith)
      ]
    ]
  ]
]

-- The accepted lists of options, and what they set.
record Parsed (args : List String) (o o' : Options) : Type 0 where
  settings : List Setting
  written : args ≡ render settings
  applied : o' ≡ apply_all settings o

Parsed-of_IsSetting :
    (flag value : String) (rest : List String) (o o' o'' : Options)
    → IsSetting flag value o o'
    → Parsed rest o' o''
    → Parsed (flag ∷ value ∷ rest) o o''
Parsed-of_IsSetting flag value rest o o' o'' (setting s e v f) p = record {
  settings = s ∷ p.settings;
  written = rw (e, v) (ap (λ l. flag_of s ∷ value_of s ∷ l) p.written);
  applied = p.applied ∙ ap (apply_all p.settings) f;
}

parse_options-Parsed :
    (args : List String) (o : Options)
    → (parse_options args o).0 ≡ no_error
    → Parsed args o (parse_options args o).1
unfolding parse_options
parse_options-Parsed [] o h = record { settings = []; written = refl; applied = refl }
parse_options-Parsed (flag ∷ []) o h = cc
parse_options-Parsed (flag ∷ value ∷ rest) o h = elim (Option-cases (set_option flag value o)) [
  | inl e ↦ absurd (ground arith)
  | inr (o', e) ↦
      let found = set_option-IsSetting flag value o o' e in
      let p = parse_options-Parsed rest o' (ground arith) in
      rw (e, parse_options)
        (Parsed-of_IsSetting flag value rest o o' (parse_options rest o').1 found p)
]

-- The bounds that the numbers have to respect.
pub record IsWithin (exists : String → Bool) (o : Options) : Type 0 where
  pub level : o.log_level ≤ 2
  pub log_size : o.log_max_size ≤ 100
  pub store_size : o.data_store_size ≤ 100
  pub home : exists o.home ≡ true

-- A command line that names a program and a home folder, and settings that lead to these options.
pub record Accepted (exists : String → Bool) (argv : List String) (o o' : Options) : Type 0 where
  pub program : String
  pub home_folder : String
  pub settings : List Setting
  pub written : argv ≡ program ∷ home_folder ∷ render settings
  pub applied : o' ≡ apply_all settings (record (with_defaults o) { home = home_folder })
  pub within : IsWithin exists o'

validate-IsWithin :
    (exists : String → Bool) (o : Options)
    → validate_command_line exists o ≡ no_error
    → IsWithin exists o
unfolding validate_command_line
validate-IsWithin exists o h = record {
  level = ground arith;
  log_size = ground arith;
  store_size = ground arith;
  home = ground arith;
}

validate_fine :
    (exists : String → Bool) (o : Options)
    → IsWithin exists o
    → validate_command_line exists o ≡ no_error
unfolding validate_command_line
validate_fine exists o h = ground (arith, h.level, h.log_size, h.store_size, h.home)

-- An accepted command line is a program, a home folder and flags with one value each, and the
-- options that it sets are the defaults changed by these from left to right; the log level is at
-- most 2, the two sizes are at most 100 and the home folder exists.
pub parse_and_validate-Accepted :
    (exists : String → Bool) (argv : List String) (o : Options)
    → (parse_and_validate_command_line exists argv o).0 ≡ no_error
    → Accepted exists argv o (parse_and_validate_command_line exists argv o).1
unfolding parse_and_validate_command_line parse_command_line
parse_and_validate-Accepted exists [] o h = cc
parse_and_validate-Accepted exists (program ∷ []) o h = cc
parse_and_validate-Accepted exists (program ∷ home ∷ rest) o h =
    let start = record (with_defaults o) { home = home } in
    let p = parse_options-Parsed rest start (ground arith) in
    record {
      program = program;
      home_folder = home;
      settings = p.settings;
      written = ap (λ l. program ∷ home ∷ l) p.written;
      applied = p.applied;
      within = validate-IsWithin exists (parse_options rest start).1 (ground arith);
    }

-- A command line that is written out from a program, a home folder and settings is accepted and
-- sets what it says over the defaults, if that has a log level of at most 2, sizes of at most 100
-- and an existing home folder.
pub parse_and_validate-accepts :
    (exists : String → Bool) (program home : String) (l : List Setting) (o : Options)
    → IsWithin exists (apply_all l (record (with_defaults o) { home = home }))
    → parse_and_validate_command_line exists (program ∷ home ∷ render l) o
      ≡ (no_error, apply_all l (record (with_defaults o) { home = home }))
unfolding parse_and_validate_command_line parse_command_line
parse_and_validate-accepts exists program home l o h =
    let start = record (with_defaults o) { home = home } in
    rw (parse_options-render l start) (ap (λ e. (e, apply_all l start)) (validate_fine exists _ h))
