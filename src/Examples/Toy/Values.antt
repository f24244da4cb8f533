-- ===== src/Examples/Toy/Values.antt =====
-- JSON values without text.
use kiwibes.Prelude.{
  ℕ, zero, suc, String, Option, none, some, List, [], ◌∷◌, Bool, true, false, not, ◌&&◌, ◌||◌, ◌==◌,
  if◌then◌else◌,
}
use kiwibes.Prelude.Int.{ℤ, to_int, to_time, to_u64}

mutual
  pub data Value : Type 0 where
    nil : Value
    word : String → Value
    int : ℤ → Value
    real : ℕ → Value
    texts : List String → Value
    object : Members → Value

  pub data Members : Type 0 where
    end : Members
    entry : String → Value → Members → Members

abbrev pub to_items : Members → List (Option String × Value)
to_items end = []
to_items (entry k v m) = (some k, v) ∷ to_items m

abbrev pub has_key : String → Members → Bool
has_key k end = false
has_key k (entry j v m) = j == k || has_key k m

-- No key twice. A list with a key twice stands for no object.
abbrev pub proper : Members → Bool
proper end = true
proper (entry k v m) = not (has_key k m) && proper m

abbrev pub text_items : List String → List (Option String × Value)
text_items [] = []
text_items (s ∷ l) = (none, word s) ∷ text_items l

abbrev pub value_items : Value → List (Option String × Value)
value_items nil = []
value_items (object m) = if proper m then to_items m else []
value_items (texts l) = text_items l
value_items v = (none, v) ∷ []

abbrev pub find_member : String → Members → Option Value
find_member k end = none
find_member k (entry j v m) = if j == k then some v else find_member k m

abbrev pub value_member : Value → String → Option Value
value_member (object m) k = if proper m then find_member k m else none
value_member _ k = none

abbrev pub put_member : String → Value → Members → Members
put_member k x end = entry k x end
put_member k x (entry j v m) =
    let rest = put_member k x m in if j == k then entry j x m else entry j v rest

abbrev pub value_set_member : Value → String → Value → Option Value
value_set_member nil k x = some (object (entry k x end))
value_set_member (object m) k x = if proper m then some (object (put_member k x m)) else none
value_set_member _ k x = none

abbrev pub set_members : Members → ℕ → Value → Members
set_members end i x = end
set_members (entry k v m) zero x = entry k x m
set_members (entry k v m) (suc i) x = entry k v (set_members m i x)

abbrev pub value_set_item : Value → ℕ → Value → Value
value_set_item (object m) i x = object (set_members m i x)
value_set_item v i x = v

abbrev pub drop_member : String → Members → Members
drop_member k end = end
drop_member k (entry j v m) = let rest = drop_member k m in if j == k then rest else entry j v rest

abbrev pub value_remove_at : Value → String → Option Value
value_remove_at (object m) (String.◌∷◌ c k) = some (object (drop_member k m))
value_remove_at _ _ = none

abbrev pub value_is_map : Value → Bool
value_is_map nil = true
value_is_map (object m) = proper m
value_is_map _ = false

abbrev pub as_text : Value → Option String
as_text (word s) = some s
as_text _ = none

abbrev pub as_int : Value → Option ℤ
as_int (int n) = some (to_int n)
as_int _ = none

abbrev pub as_time : Value → Option ℤ
as_time (int n) = some (to_time n)
as_time _ = none

abbrev pub as_ulong : Value → Option ℕ
as_ulong (int n) = some (to_u64 n)
as_ulong _ = none

abbrev pub as_real : Value → Option ℕ
as_real (real n) = some n
as_real _ = none

abbrev pub as_texts : Value → Option (List String)
as_texts (texts l) = some l
as_texts _ = none

-- A stopped job with this schedule.
abbrev pub entry_with : Value → Value
entry_with schedule = object (
    entry "program" (texts ("/bin/sleep" ∷ "1" ∷ [])) (
      entry "schedule" schedule (
        entry "max-runtime" (int (ℤ.pos 5)) (
          entry "avg-runtime" (real 0) (
            entry "var-runtime" (real 0) (
              entry "status" (word "stopped") (
                entry "start-time" (int (ℤ.pos 0)) (
                  entry "nbr-runs" (int (ℤ.pos 3))
                    (entry "pending-start" (int (ℤ.pos 0)) end)))))))))

-- The texts that parse as objects have the one job "sleep".
abbrev pub idle_jobs : Value
idle_jobs = object (entry "sleep" (entry_with (word "* * * * * *")) end)

abbrev pub ill_typed_jobs : Value
ill_typed_jobs = object (entry "sleep" (entry_with (int (ℤ.pos 0))) end)
