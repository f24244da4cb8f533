-- ===== src/Platform.antt =====
-- What the code takes from libraries whose sources are copies of other projects (3rd_party) and from
-- the floating-point unit: types, operations, and the documented behaviour that the code relies on.
pub mod Laws
use Prim.Native.String.{[], ◌∷◌}
use Prim.Native.Char.{code}
use kiwibes.Prelude.{ℕ, String, Option, none, some, List, Bool, true, ◌&&◌, eqb, not, ◌≡◌}
use kiwibes.Prelude.Int.{ℤ}
use kiwibes.Exec.{Result}

pub record Platform : Type 1 where
  -- `double`
  pub Double : Type 0
  pub double_zero : Double
  pub double_of_int : ℤ → Double
  pub add_double : Double → Double → Double
  pub sub_double : Double → Double → Double
  pub mul_double : Double → Double → Double
  pub div_double : Double → Double → Double
  -- nlohmann::json: a default value, reading a text, and printing it with and without indentation.
  -- The reading throws parse_error, and out_of_range for a number that no double is near to.
  -- The printing throws only for a std::string that is not in UTF-8, which no String is.
  pub Json : Type 0
  pub null : Json
  pub parse : String → Result Json
  pub print : Json → String
  pub dump : Json → String
  -- the range from `begin()` to `end()`, with `none` where `key()` throws
  pub items : Json → List (Option String × Json)
  -- an assignment through the iterator at a position
  pub set_item : Json → ℕ → Json → Json
  -- `find`, `count`, and `[]` for reading
  pub member : Json → String → Option Json
  -- `v[key] = x`, with `none` for a type error
  pub set_member : Json → String → Json → Option Json
  -- `patch` by a removal at a JSON pointer, with `none` for an exception
  pub remove_at : Json → String → Option Json
  -- objects, and the default value, which an assignment to a member makes an object
  pub is_map : Json → Bool
  -- `get<T>`, with `none` for a type error, and the conversions to JSON, for all integers from their
  -- value
  pub get_string : Json → Option String
  pub get_int : Json → Option ℤ
  pub get_time : Json → Option ℤ
  pub get_ulong : Json → Option ℕ
  pub get_double : Json → Option Double
  pub get_strings : Json → Option (List String)
  pub of_string : String → Json
  pub of_int : ℤ → Json
  pub of_double : Double → Json
  pub of_strings : List String → Json
  -- ccronexpr: `cron_parse_expr`, with `none` where it sets the error, and `cron_next`, which returns
  -- -1 where there is no next instant
  pub Cron : Type 0
  pub cron_parse_expr : String → Option Cron
  pub cron_next : Cron → ℕ → ℤ

-- A key that a JSON pointer names by one token without escapes.
abbrev pub is_plain : String → Bool
is_plain [] = true
is_plain (c ∷ s) = not (eqb (code c) b'/') && not (eqb (code c) b'~') && is_plain s
