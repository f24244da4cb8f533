-- ===== src/Platform/Laws.antt =====
-- The documented behaviour of nlohmann::json and ccronexpr that the theorems rely on.
use Prim.Native.String.{◌++◌}
use kiwibes.Prelude.{
  All, ℕ, ◌%◌, ◌^◌, String, ◌≡◌, Option, none, some, true, ◌==◌, if◌then◌else◌, List, [], ◌∷◌, zero,
  suc,
}
use kiwibes.Prelude.Int.{ℤ, to_int, to_time}
use kiwibes.Platform.{Platform, is_plain}

-- The value of a key among the items of an object.
abbrev pub lookup_item {ℓ} : {A : Type ℓ} → String → List (Option String × A) → Option A
lookup_item k [] = none
lookup_item k ((none, v) ∷ l) = lookup_item k l
lookup_item k ((some j, v) ∷ l) = if j == k then some v else lookup_item k l

-- A write at a position leaves the keys and the other values.
abbrev pub replace_item {ℓ} :
    {A : Type ℓ} → List (Option String × A) → ℕ → A → List (Option String × A)
replace_item [] i x = []
replace_item ((k, v) ∷ l) zero x = (k, x) ∷ l
replace_item ((k, v) ∷ l) (suc i) x = (k, v) ∷ replace_item l i x

pub record PlatformLaws (P : Platform) : Type 0 where
  pub items-null : P.items P.null ≡ []
  -- `key()` of an iterator throws for an array and for a value that is no container.
  pub items_keyed :
      (v : P.Json) → P.is_map v ≡ true → All (λ e. (k : String) × (e.0 ≡ some k)) (P.items v)
  -- An object has each key once.
  pub items_found :
      (v : P.Json)
      → P.is_map v ≡ true
      → All (λ e. (k : String) → e.0 ≡ some k → P.member v k ≡ some e.1) (P.items v)
  pub member-items : (v : P.Json) (k : String) → P.member v k ≡ lookup_item k (P.items v)
  pub items-set_item :
      (v : P.Json) (i : ℕ) (x : P.Json)
      → P.is_map v ≡ true
      → P.items (P.set_item v i x) ≡ replace_item (P.items v) i x
  pub is_map-null : P.is_map P.null ≡ true
  pub is_map-set_item :
      (v : P.Json) (i : ℕ) (x : P.Json) → P.is_map v ≡ true → P.is_map (P.set_item v i x) ≡ true
  pub is_map_of_member :
      (v : P.Json) (k : String) (x : P.Json) → P.member v k ≡ some x → P.is_map v ≡ true
  pub set_member-total :
      (v : P.Json) (k : String) (x : P.Json)
      → P.is_map v ≡ true
      → (w : P.Json) × (P.set_member v k x ≡ some w)
  pub is_map-set_member :
      (v : P.Json) (k : String) (x w : P.Json) → P.set_member v k x ≡ some w → P.is_map w ≡ true
  pub member-set_member :
      (v : P.Json) (k : String) (x w : P.Json) (j : String)
      → P.set_member v k x ≡ some w
      → P.member w j ≡ (if k == j then some x else P.member v j)
  pub remove_at-plain :
      (v : P.Json) (k : String) (x : P.Json)
      → is_plain k ≡ true
      → P.member v k ≡ some x
      → (w : P.Json) × (P.remove_at v ("/" ++ k) ≡ some w)
        × (P.is_map w ≡ true)
        × ((j : String) → P.member w j ≡ (if k == j then none else P.member v j))
  pub get-of_string : (s : String) → P.get_string (P.of_string s) ≡ some s
  pub get_int-of_int : (n : ℤ) → P.get_int (P.of_int n) ≡ some (to_int n)
  pub get_time-of_int : (n : ℤ) → P.get_time (P.of_int n) ≡ some (to_time n)
  pub get_ulong-of_int : (n : ℕ) → P.get_ulong (P.of_int (ℤ.pos n)) ≡ some (n % 2 ^ 64)
  pub get-of_double : (d : P.Double) → P.get_double (P.of_double d) ≡ some d
  pub get-of_strings : (l : List String) → P.get_strings (P.of_strings l) ≡ some l
