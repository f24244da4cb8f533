-- ===== src/Map.antt =====
-- `std::map` with `std::string` keys, as the standard library documents it: unique keys, iterated
-- in ascending order.
use Prim.Native.String.{compare}
use Prim.Native.Nat.{Ordering}
use kiwibes.Prelude.{
  ℕ, String, ◌≡◌, refl, Bool, true, false, Option, none, some, List, [], ◌∷◌, arith, ◌==◌, eq_iff,
  if◌then◌else◌,
}

abbrev pub Map {ℓ} : Type ℓ → Type ℓ
Map V = List (String × V)

abbrev before : String → String → Bool
before j k = elim (compare j k) [ Ordering.lt ↦ true | _ ↦ false ]

module _ {ℓ} {V : Type ℓ} where
  -- `find`: the value at the key, `none` for `end()`.
  unfoldable pub find : String → Map V → Option V
  find k [] = none
  find k ((j, v) ∷ m) = if j == k then some v else find k m

  -- `count`
  unfoldable pub count : String → Map V → ℕ
  unfolding find
  count k m = elim (find k m) [ none ↦ 0 | some v ↦ 1 ]

  -- `insert`: a key that is there keeps its value.
  unfoldable pub insert : String → V → Map V → Map V
  insert k v [] = (k, v) ∷ []
  insert k v ((j, w) ∷ m) =
      let rest = insert k v m in
      if j == k then (j, w) ∷ m else if before k j then (k, v) ∷ (j, w) ∷ m else (j, w) ∷ rest

  -- `erase`
  unfoldable pub erase : String → Map V → Map V
  erase k [] = []
  erase k ((j, v) ∷ m) = let rest = erase k m in if j == k then rest else (j, v) ∷ rest

  -- No key stands twice.
  abbrev pub IsDistinct : Map V → Type ℓ
  IsDistinct [] = Unit
  IsDistinct ((k, v) ∷ m) = (find k m ≡ none) × IsDistinct m

  pub find-insert :
      (k j : String) (v : V) (m : Map V)
      → find k m ≡ none
      → find j (insert k v m) ≡ (if k == j then some v else find j m)
  unfolding find insert
  find-insert k j v [] h = refl
  find-insert k j v ((i, w) ∷ m) h =
      ground (arith, eq_iff k j, eq_iff i k, eq_iff i j, find-insert k j v m)

  pub find-erase :
      (k j : String) (m : Map V) → find j (erase k m) ≡ (if k == j then none else find j m)
  unfolding find erase
  find-erase k j [] = ground arith
  find-erase k j ((i, w) ∷ m) = ground (arith, eq_iff k j, eq_iff i k, eq_iff i j, find-erase k j m)

  pub insert-IsDistinct :
      (k : String) (v : V) (m : Map V) → find k m ≡ none → IsDistinct m → IsDistinct (insert k v m)
  unfolding find insert
  insert-IsDistinct k v [] h d = (refl, tt)
  insert-IsDistinct k v ((i, w) ∷ m) h d =
      ground (arith, eq_iff i k, find-insert k i v m, eq_iff k i, insert-IsDistinct k v m)

  pub erase-IsDistinct : (k : String) (m : Map V) → IsDistinct m → IsDistinct (erase k m)
  unfolding erase
  erase-IsDistinct k [] d = tt
  erase-IsDistinct k ((i, w) ∷ m) d = ground (arith, find-erase k i m, erase-IsDistinct k m d.1)

  pub erase_absent : (k : String) (m : Map V) → find k m ≡ none → erase k m ≡ m
  unfolding find erase
  erase_absent k [] h = refl
  erase_absent k ((i, w) ∷ m) h = ground (arith, erase_absent k m)

  pub count-none : (k : String) (m : Map V) → count k m ≡ 0 → find k m ≡ none
  unfolding count
  count-none k m h = ground arith

  pub count-some : (k : String) (v : V) (m : Map V) → find k m ≡ some v → count k m ≡ 1
  unfolding count
  count-some k v m h = ground arith

  pub count_absent : (k : String) (m : Map V) → find k m ≡ none → count k m ≡ 0
  unfolding count
  count_absent k m h = ground arith
