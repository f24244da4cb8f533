-- ===== src/DataStore/Refinement.antt =====
-- The data store as a client sees it: a partial map from keys to values that may refuse to grow.
use mathlib.Core.Path.{fun_ext}
use kiwibes.Prelude.{
  ℕ, ◌<◌, ◌≤◌, String, ◌≡◌, ◌≢◌, refl, Option, none, some, arith, ◌==◌, if◌then◌else◌, ltb, ◌+◌,
  ◌%◌, ◌^◌, Option-cases, Bool-cases, inl, inr, false,
}
use kiwibes.Errors.{KiwibesError, no_error, data_key_taken, data_key_unknown, data_store_full}
use kiwibes.Map
use kiwibes.Map.{find-insert, find-erase}
use kiwibes.DataStore.{DataStore, size, write, read, clear, clear_all}

-- A call of a client; `reads` carries the output argument's value before the call.
pub data Call : Type 0 where
  writes reads : String → String → Call
  clears : String → Call
  clears_all : Call

pub data Reply : Type 0 where
  status : KiwibesError → Reply
  content : KiwibesError → String → Reply
  removed : Reply

pub step : Call → DataStore → Reply × DataStore
step (writes k v) s = let (e, s') = write k v s in (status e, s')
step (reads v k) s = let (e, found) = read v k s in (content e found, s)
step (clears k) s = let (e, s') = clear k s in (status e, s')
step clears_all s = (removed, (clear_all s).1)

abbrev pub View : Type 0
View = String → Option String

abbrev pub view : DataStore → View
view s j = Map.find j s.store

abbrev put : String → Option String → View → View
put k o m j = if k == j then o else m j

-- What a client may observe of one call: the reply and the change of the map. A write of an absent
-- key is refused as it exceeds the maximum together with the size that is counted as used, and is
-- accepted as it does not.
pub data Allowed (used max_size : ℕ) (m : View) : Call → Reply → View → Type 0 where
  taken :
      {k v : String} → m k ≢ none → Allowed used max_size m (writes k v) (status data_key_taken) m
  full :
      {k v : String}
      → m k ≡ none
      → max_size < (size k + size v + used) % 2 ^ 64
      → Allowed used max_size m (writes k v) (status data_store_full) m
  written :
      {k v : String} {m' : View}
      → m k ≡ none
      → (size k + size v + used) % 2 ^ 64 ≤ max_size
      → m' ≡ put k (some v) m
      → Allowed used max_size m (writes k v) (status no_error) m'
  found :
      {v k w : String} → m k ≡ some w → Allowed used max_size m (reads v k) (content no_error w) m
  missing :
      {v k : String}
      → m k ≡ none
      → Allowed used max_size m (reads v k) (content data_key_unknown v) m
  unknown :
      {k : String} → m k ≡ none → Allowed used max_size m (clears k) (status data_key_unknown) m
  cleared :
      {k : String} {m' : View}
      → m k ≢ none
      → m' ≡ put k none m
      → Allowed used max_size m (clears k) (status no_error) m'
  emptied : {m' : View} → m' ≡ (λ _. none) → Allowed used max_size m clears_all removed m'

ltb-count-none :
    (k : String) (s : DataStore) → view s k ≡ none → ltb 0 (Map.count k s.store) ≡ false
unfolding Map.count
ltb-count-none k s h = ground arith

write-Allowed :
    (k v : String) (s : DataStore)
    → Allowed s.curr_size s.max_size
        (view s)
        (writes k v)
        (step (writes k v) s).0
        (view (step (writes k v) s).1)
unfolding step write Map.count
write-Allowed k v s = elim (Option-cases (Map.find k s.store)) [
  | inr (w, e) ↦ rw (e, Map.count) (taken (λ h. cc))
  | inl e ↦ elim (Bool-cases (ltb s.max_size ((size k + size v + s.curr_size) % 2 ^ 64))) [
    | inl over ↦ rw (e, Map.count) (rw over (full e (ground arith)))
    | inr fits ↦
        rw (e, Map.count)
          (rw fits (written e (ground arith) (fun_ext λ j. find-insert k j v s.store e)))
  ]
]

-- Each call of the data store, whatever the store's state, has a reply and an effect that the
-- partial map from keys to values allows: a write of a taken key and a read or a removal of an
-- unknown key are refused and change nothing; a write of an absent key is refused as full and
-- changes nothing exactly where its bytes and the size counter, added with 64 bits, exceed the
-- maximum; and the others read and change the one key, or empty the map.
pub step-Allowed :
    (c : Call) (s : DataStore)
    → Allowed s.curr_size s.max_size (view s) c (step c s).0 (view (step c s).1)
unfolding step read clear clear_all Map.find
step-Allowed (writes k v) s = write-Allowed k v s
step-Allowed (reads v k) s = elim (Option-cases (Map.find k s.store)) [
  | inl e ↦ rw (e, read) (missing e)
  | inr (w, e) ↦ rw (e, read) (found e)
]
step-Allowed (clears k) s = elim (Option-cases (Map.find k s.store)) [
  | inl e ↦ rw (e, clear) (unknown e)
  | inr (w, e) ↦ rw (e, clear) (cleared (λ h. cc) (fun_ext λ j. find-erase k j s.store))
]
step-Allowed clears_all s = emptied refl
