-- ===== src/DataStore/Limit.antt =====
-- The limit on the size of the data store: kept by writes, lost after the first `clear` of one key.
use kiwibes.Prelude.{
  refl, ℕ, ◌+◌, ◌-◌, ◌^◌, ◌≤◌, ◌<◌, String, ◌≡◌, ◌≢◌, none, some, List, [], ◌∷◌, arith, eq_iff, All,
}
use kiwibes.Errors.{no_error, data_store_full}
use kiwibes.Map
use kiwibes.Map.{Map, find-erase, erase-IsDistinct}
use kiwibes.DataStore.{DataStore, size, new, write, clear, clear_all}
use kiwibes.DataStore.Accounting.{
  total, IsAccounted, total-insert, new-IsAccounted, write-IsAccounted, clear_resets,
}

pub write_all : List (String × String) → DataStore → DataStore
write_all [] s = s
write_all ((k, v) ∷ ws) s = write_all ws (write k v s).1

abbrev pub IsSmall : String × String → Type 0
IsSmall e = size e.0 + size e.1 < 2 ^ 63

write_all-IsAccounted :
    (ws : List (String × String)) (s : DataStore)
    → All IsSmall ws
    → IsAccounted s
    → IsAccounted (write_all ws s)
unfolding write_all
write_all-IsAccounted [] s h a = a
write_all-IsAccounted ((k, v) ∷ ws) s h a =
    write_all-IsAccounted ws (write k v s).1 h.1 (write-IsAccounted k v s h.0 a)

max_size-write_all :
    (ws : List (String × String)) (s : DataStore) → (write_all ws s).max_size ≡ s.max_size
unfolding write_all write
max_size-write_all [] s = omega arith
max_size-write_all ((k, v) ∷ ws) s = ground (arith, max_size-write_all ws (write k v s).1)

-- However many writes a new store has seen, accepted or not, each of a key and a value below 2^63
-- bytes together, the bytes of its entries are what its counter says, and at most the maximum that
-- it was created with.
pub total-write_all :
    (mb : ℕ) (ws : List (String × String))
    → All IsSmall ws
    → let s = write_all ws (new mb) in
      (s.curr_size ≡ total s.store) × (total s.store ≤ (new mb).max_size)
total-write_all mb ws h =
    let a = write_all-IsAccounted ws (new mb) h (new-IsAccounted mb) in
    (a.exact, omega (arith, a.exact, a.limited, max_size-write_all ws (new mb)))

-- A write of an absent key is accepted exactly when it fits beside the counter.
write_fits :
    (k v : String) (s : DataStore)
    → Map.find k s.store ≡ none
    → size k + size v + s.curr_size < 2 ^ 64
    → size k + size v + s.curr_size ≤ s.max_size
    → ((write k v s).0 ≡ no_error) × ((write k v s).1.store ≡ Map.insert k v s.store)
unfolding write Map.count
write_fits k v s absent small fits = ground arith

write_over :
    (k v : String) (s : DataStore)
    → Map.find k s.store ≡ none
    → size k + size v + s.curr_size < 2 ^ 64
    → s.max_size < size k + size v + s.curr_size
    → write k v s ≡ (data_store_full, s)
unfolding write Map.count
write_over k v s absent small over = ground arith

clear_store :
    (k v : String) (s : DataStore)
    → Map.find k s.store ≡ some v
    → ((clear k s).1.store ≡ Map.erase k s.store) × ((clear k s).1.max_size ≡ s.max_size)
unfolding clear
clear_store k v s h = ground arith

-- After a stored key has been cleared in a store whose counter was right, the next write of an
-- absent key that fits an empty store is accepted, so that the bytes held exceed the maximum if the
-- entries that were left did not leave room for it.
pub write-clear_exceeds :
    (k v j w : String) (s : DataStore)
    → IsAccounted s
    → Map.find k s.store ≡ some v
    → Map.find j s.store ≡ none
    → size j + size w ≤ s.max_size
    → s.max_size + (size k + size v) < total s.store + (size j + size w)
    → ((write j w (clear k s).1).0 ≡ no_error)
      × (s.max_size < total (write j w (clear k s).1).1.store)
write-clear_exceeds k v j w s a here absent fits over =
    let (ok, zeroed, left) = clear_resets k v s a here in
    let (kept, same) = clear_store k v s here in
    let gone : Map.find j (clear k s).1.store ≡ none =
      rw kept (ground (arith, find-erase k j s.store)) in
    let small : size j + size w + (clear k s).1.curr_size < 2 ^ 64 =
      omega (arith, zeroed, a.word) in
    let (accepted, stored) =
      write_fits j w (clear k s).1 gone small (omega (arith, zeroed, same)) in
    (accepted, rw stored (omega (arith, total-insert j w (clear k s).1.store gone, left)))

clear_wraps :
    (j w : String) (s : DataStore)
    → Map.find j s.store ≡ some w
    → s.curr_size ≡ 0
    → 0 < size j + size w
    → size j + size w < 2 ^ 32
    → ((clear j s).0 ≡ no_error) × ((clear j s).1.curr_size ≡ 2 ^ 32 - (size j + size w))
unfolding clear
clear_wraps j w s here zero pos word = rw (here, clear) (ground (arith, zero))

-- A write is refused, whether or not its key is there, when the counter alone is over the maximum.
write_refused :
    (x y : String) (s : DataStore)
    → size x + size y + s.curr_size < 2 ^ 64
    → s.max_size < s.curr_size
    → ((write x y s).0 ≢ no_error) × ((write x y s).1 ≡ s)
unfolding write
write_refused x y s small over = ground arith

-- Clearing two stored keys one after the other, in a store whose counter was right, wraps the
-- counter around, if the second entry is not empty and its bytes and the maximum are below 2^32
-- together: then a write of any key and value below 2^63 bytes together is refused and changes
-- nothing.
pub clear_twice_wedges :
    (k v j w : String) (s : DataStore) (x y : String)
    → IsAccounted s
    → k ≢ j
    → Map.find k s.store ≡ some v
    → Map.find j s.store ≡ some w
    → 0 < size j + size w
    → s.max_size + (size j + size w) < 2 ^ 32
    → size x + size y < 2 ^ 63
    → let t = (clear j (clear k s).1).1 in ((write x y t).0 ≢ no_error) × ((write x y t).1 ≡ t)
clear_twice_wedges k v j w s x y a other here there pos word small =
    let (_, zeroed, _) = clear_resets k v s a here in
    let (kept, same) = clear_store k v s here in
    let still : Map.find j (clear k s).1.store ≡ some w =
      rw kept (ground (arith, find-erase k j s.store, eq_iff k j)) in
    let (_, wrapped) = clear_wraps j w (clear k s).1 still zeroed pos (omega (arith, word)) in
    let (_, same') = clear_store j w (clear k s).1 still in
    write_refused x y (clear j (clear k s).1).1 (omega (arith, wrapped, small))
      (omega (arith, wrapped, same, same', word))

-- `clear_all` gives no space back: in a store whose counter was right, a write of less than 2^63
-- bytes that would not have fitted before it is refused after it, although the store holds nothing
-- any more.
pub write-clear_all_refused :
    (k v : String) (s : DataStore)
    → IsAccounted s
    → size k + size v < 2 ^ 63
    → s.max_size < size k + size v + total s.store
    → let t = (clear_all s).1 in (total t.store ≡ 0) × (write k v t ≡ (data_store_full, t))
unfolding clear_all total Map.find
write-clear_all_refused k v s a small over = (
  omega arith,
  write_over k v (clear_all s).1 (unfold Map.find clear_all in refl)
      (omega (arith, a.exact, a.limited, a.word)) (omega (arith, a.exact)),
)
