-- ===== src/CStdlib.antt =====
-- Conversions of texts to numbers by the C and C++ standard libraries.
use Prim.Native.Char.{code}
use kiwibes.Prelude.{
  ℕ, ◌+◌, ◌-◌, ◌*◌, ◌^◌, String, Bool, true, false, if◌then◌else◌, ltb, leb, eqb, ◌&&◌, ◌||◌, not,
}
use kiwibes.Prelude.Int.{ℤ, pos, sub_ℕ}
use kiwibes.Exec.{Result, ok, throws, invalid_argument, out_of_range}

is_space : ℕ → Bool
is_space c = eqb c 32 || leb 9 c && leb c 13

is_digit : ℕ → Bool
is_digit c = leb b'0' c && leb c b'9'

digits : ℕ → String → ℕ
unfolding is_digit
digits n String.[] = n
digits n (String.◌∷◌ c s) =
    let more = digits (n * 10 + (code c - b'0')) s in if is_digit (code c) then more else n

starts_with_digit : String → Bool
unfolding is_digit
starts_with_digit String.[] = false
starts_with_digit (String.◌∷◌ c s) = is_digit (code c)

-- The text behind the spaces.
skip_spaces : String → String
unfolding is_space
skip_spaces String.[] = String.[]
skip_spaces (String.◌∷◌ c s) =
    let rest = skip_spaces s in if is_space (code c) then rest else String.◌∷◌ c s

-- The sign, `true` for minus, and the text behind it.
sign : String → Bool × String
sign String.[] = (false, String.[])
sign (String.◌∷◌ c s) =
    if eqb (code c) b'-'
    then (true, s)
    else if eqb (code c) b'+'
    then (false, s)
    else (false, String.◌∷◌ c s)

-- The digits behind spaces and a sign: the sign, the number, and whether there is a digit.
record Scan : Type 0 where
  negative : Bool
  magnitude : ℕ
  has_digits : Bool

scan : String → Scan
unfolding digits starts_with_digit skip_spaces sign
scan text =
    let (minus, rest) = sign (skip_spaces text) in
    record { negative = minus; magnitude = digits 0 rest; has_digits = starts_with_digit rest }

-- The greatest magnitude of a `long` with this sign.
limit : Bool → ℕ
limit true = 2 ^ 63
limit false = 2 ^ 63 - 1

with_sign : Bool → ℕ → ℤ
with_sign true n = sub_ℕ 0 n
with_sign false n = pos n

-- `strtol(text,NULL,10)`: a value out of range becomes the nearest `long`.
unfoldable pub strtol : String → ℤ
unfolding scan limit with_sign
strtol text =
    let s = scan text in
    with_sign s.negative
      (if ltb (limit s.negative) s.magnitude then limit s.negative else s.magnitude)

-- `std::stol(text)`
unfoldable pub stol : String → Result ℤ
unfolding scan limit with_sign
stol text =
    let s = scan text in
    if not s.has_digits
    then throws invalid_argument
    else if ltb (limit s.negative) s.magnitude
    then throws out_of_range
    else ok (with_sign s.negative s.magnitude)
