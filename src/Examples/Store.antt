-- ===== src/Examples/Store.antt =====
-- Runs of the data store.
use kiwibes.Prelude.{◌≤◌, ◌<◌, ◌≡◌, ◌≢◌, refl, [], ◌∷◌, arith, String, eq_iff}
use kiwibes.Errors.{no_error}
use kiwibes.Map
use kiwibes.DataStore.{DataStore, new, write, clear}
use kiwibes.DataStore.Accounting.{total, IsAccounted}
use kiwibes.DataStore.Refinement.{Allowed, step, view, writes, step-Allowed}
use kiwibes.DataStore.Limit.{write_all, total-write_all, write-clear_exceeds, clear_twice_wedges}

-- A store of at most eight bytes with two entries of four.
abbrev full_store : DataStore
full_store = record { max_size = 8; curr_size = 8; store = ("a", "123") ∷ ("b", "456") ∷ [] }

full_store-IsAccounted : IsAccounted full_store
unfolding Map.find total
full_store-IsAccounted = record {
  distinct = (refl, (refl, tt));
  exact = refl;
  limited = omega arith;
  word = omega arith;
}

a_not_b : ◌≢◌ {A = String} "a" "b"
a_not_b = ground (arith, eq_iff "a" "b")

total-write_all_example :
    let s = write_all (("a", "123") ∷ ("a", "4") ∷ ("b", "") ∷ []) (new 1) in
    (s.curr_size ≡ total s.store) × (total s.store ≤ (new 1).max_size)
total-write_all_example =
    total-write_all 1 (("a", "123") ∷ ("a", "4") ∷ ("b", "") ∷ [])
      (omega arith, (omega arith, (omega arith, tt)))

step-Allowed_example :
    Allowed 8 8
      (view full_store)
      (writes "c" "7")
      (step (writes "c" "7") full_store).0
      (view (step (writes "c" "7") full_store).1)
step-Allowed_example = step-Allowed (writes "c" "7") full_store

write-clear_exceeds_example :
    ((write "c" "1234567" (clear "a" full_store).1).0 ≡ no_error)
    × (full_store.max_size < total (write "c" "1234567" (clear "a" full_store).1).1.store)
unfolding Map.find total
write-clear_exceeds_example =
    write-clear_exceeds "a" "123" "c" "1234567" full_store full_store-IsAccounted refl refl
      (omega arith) (omega arith)

clear_twice_wedges_example :
    let t = (clear "b" (clear "a" full_store).1).1 in
    ((write "c" "" t).0 ≢ no_error) × ((write "c" "" t).1 ≡ t)
unfolding Map.find total
clear_twice_wedges_example =
    clear_twice_wedges "a" "123" "b" "456" full_store "c" "" full_store-IsAccounted a_not_b refl
      refl (omega arith) (omega arith) (omega arith)
