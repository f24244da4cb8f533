-- ===== src/DataStore/Accounting.antt =====
-- The size counter of the data store against the sizes of what it holds.
use kiwibes.Prelude.{
  ℕ, ◌+◌, ◌%◌, ◌^◌, ◌≤◌, ◌<◌, String, ◌≡◌, refl, none, some, [], ◌∷◌, arith, eq_iff, ltb,
  Option-cases, inl, inr, Bool-cases,
}
use kiwibes.Errors.{no_error}
use kiwibes.Map
use kiwibes.Map.{Map, IsDistinct, insert-IsDistinct, erase-IsDistinct, erase_absent}
use kiwibes.DataStore.{DataStore, size, new, write, clear}

-- The bytes of all keys and values.
unfoldable pub total : Map String → ℕ
total [] = 0
total ((k, v) ∷ m) = size k + size v + total m

pub record IsAccounted (s : DataStore) : Type 0 where
  pub distinct : IsDistinct s.store
  pub exact : s.curr_size ≡ total s.store
  pub limited : s.curr_size ≤ s.max_size
  pub word : s.max_size < 2 ^ 32

pub total-insert :
    (k v : String) (m : Map String)
    → Map.find k m ≡ none
    → total (Map.insert k v m) ≡ total m + (size k + size v)
unfolding total Map.find Map.insert
total-insert k v [] h = omega arith
total-insert k v ((j, w) ∷ m) h = ground (arith, total-insert k v m)

pub total-erase :
    (k v : String) (m : Map String)
    → IsDistinct m
    → Map.find k m ≡ some v
    → total (Map.erase k m) + (size k + size v) ≡ total m
unfolding total Map.find Map.erase
total-erase k v [] d h = cc
total-erase k v ((j, w) ∷ m) d h =
    ground (arith, eq_iff j k, total-erase k v m d.1, erase_absent k m)

pub new-IsAccounted : (mb : ℕ) → IsAccounted (new mb)
unfolding new total
new-IsAccounted mb = record {
  distinct = tt;
  exact = refl;
  limited = omega arith;
  word = omega arith;
}

-- A write of a key and a value below 2^63 bytes together keeps the keys distinct and the counter
-- equal to the bytes of the entries, at most the maximum, and the maximum a 32-bit number.
pub write-IsAccounted :
    (k v : String) (s : DataStore)
    → size k + size v < 2 ^ 63
    → IsAccounted s
    → IsAccounted (write k v s).1
unfolding write Map.count
write-IsAccounted k v s small a = elim (Option-cases (Map.find k s.store)) [
  | inr (w, e) ↦ rw (e, Map.count) a
  | inl e ↦ elim (Bool-cases (ltb s.max_size ((size k + size v + s.curr_size) % 2 ^ 64))) [
    | inl over ↦ rw (e, Map.count) (rw over a)
    | inr fits ↦
        rw (e, Map.count)
          (rw fits (record {
            distinct = insert-IsDistinct k v s.store e a.distinct;
            exact = ground (arith, total-insert k v s.store e, a.exact, a.limited, a.word);
            limited = ground (arith, a.limited, a.word);
            word = a.word;
          }))
  ]
]

-- A cleared entry always resets the counter to zero, in a store whose counter was right.
pub clear_resets :
    (k v : String) (s : DataStore)
    → IsAccounted s
    → Map.find k s.store ≡ some v
    → ((clear k s).0 ≡ no_error)
      × ((clear k s).1.curr_size ≡ 0)
      × (total (clear k s).1.store + (size k + size v) ≡ total s.store)
unfolding clear
clear_resets k v s a h =
    rw (h, clear)
      (
        refl,
        ground (arith, total-erase k v s.store a.distinct h, a.exact, a.limited, a.word),
        total-erase k v s.store a.distinct h,
      )
