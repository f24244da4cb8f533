-- ===== src/DataStore.antt =====
-- source/kiwibes_data_store.cpp and .h.
pub mod Refinement
pub mod Accounting
pub mod Limit
use Prim.Native.String.{len}
use kiwibes.Prelude.{
  ℕ, ◌+◌, ◌-◌, ◌*◌, ◌%◌, ◌^◌, String, Option, none, some, [], map, ltb, eqb, if◌then◌else◌, length,
  List,
}
use kiwibes.Errors.{KiwibesError, no_error, data_key_taken, data_key_unknown, data_store_full}
use kiwibes.Map
use kiwibes.Map.{Map}

pub record DataStore : Type 0 where
  pub store : Map String
  pub max_size : ℕ
  pub curr_size : ℕ

-- `std::string::size`, in bytes: `len` counts those of the encoding in UTF-8.
abbrev pub size : String → ℕ
size s = len s

-- The constructor. The product is one of `unsigned int`.
unfoldable pub new : ℕ → DataStore
new max_size = record { store = []; max_size = max_size * 1024 * 1024 % 2 ^ 32; curr_size = 0 }

-- The sum of sizes is a `size_t`, the counter an `unsigned int`.
unfoldable pub write : String → String → DataStore → KiwibesError × DataStore
write key value s =
    if ltb 0 (Map.count key s.store)
    then (data_key_taken, s)
    else if ltb s.max_size ((size key + size value + s.curr_size) % 2 ^ 64)
    then (data_store_full, s)
    else (
      no_error,
      record s {
        store = Map.insert key value s.store;
        curr_size = (s.curr_size + (size key + size value)) % 2 ^ 32;
      },
    )

-- `value` is the output argument, which an error leaves as it is.
unfoldable pub read : String → String → DataStore → KiwibesError × String
read value key s = elim (Map.find key s.store) [
  | none ↦ (data_key_unknown, value)
  | some found ↦ (no_error, found)
]

unfoldable pub get_keys : DataStore → List String
get_keys s = map (λ e. e.0) s.store

-- `clear` at the entry that `find` returned.
clear_entry : String → String → DataStore → DataStore
clear_entry key value s = record s {
  store = Map.erase key s.store;
  curr_size =
      if ltb (size key + size value) s.curr_size
      then 0
      else (s.curr_size + 2 ^ 32 - (size key + size value) % 2 ^ 32) % 2 ^ 32;
}

unfoldable pub clear : String → DataStore → KiwibesError × DataStore
unfolding clear_entry
clear key s = elim (Map.find key s.store) [
  | none ↦ (data_key_unknown, s)
  | some value ↦ (no_error, clear_entry key value s)
]

-- The number of entries, as an `unsigned int`; the counter of the size is left as it is.
unfoldable pub clear_all : DataStore → ℕ × DataStore
clear_all s = (length s.store % 2 ^ 32, record s { store = [] })
