-- ===== src/Examples/Toy/Objects.antt =====
-- The members of an object of the small platform.
use kiwibes.Prelude.{
  ℕ, zero, suc, String, ◌≡◌, refl, Option, none, some, List, [], ◌∷◌, true, false, ◌||◌, eq_refl,
  ◌==◌, eq_iff, if◌then◌else◌, arith, ap, All, some_inj,
}
use kiwibes.Platform.Laws.{lookup_item, replace_item}
use kiwibes.Examples.Toy.Values.{
  Value, Members, end, entry, to_items, has_key, proper, text_items, find_member, put_member,
  set_members, drop_member,
}

pub has_key-set_members :
    (j : String) (m : Members) (i : ℕ) (x : Value) → has_key j (set_members m i x) ≡ has_key j m
has_key-set_members j end i x = refl
has_key-set_members j (entry k v m) zero x = refl
has_key-set_members j (entry k v m) (suc i) x = ap (λ b. k == j || b) (has_key-set_members j m i x)

pub proper-set_members : (m : Members) (i : ℕ) (x : Value) → proper (set_members m i x) ≡ proper m
proper-set_members end i x = refl
proper-set_members (entry k v m) zero x = refl
proper-set_members (entry k v m) (suc i) x =
    rw (has_key-set_members k m i x, proper-set_members m i x) refl

pub has_key-put_member :
    (j k : String) (x : Value) (m : Members)
    → has_key j (put_member k x m) ≡ (k == j || has_key j m)
has_key-put_member j k x end = refl
has_key-put_member j k x (entry i v m) =
    ground (arith, eq_iff i k, eq_iff k j, eq_iff i j, has_key-put_member j k x m)

pub proper-put_member :
    (k : String) (x : Value) (m : Members) → proper m ≡ true → proper (put_member k x m) ≡ true
proper-put_member k x end p = refl
proper-put_member k x (entry i v m) p =
    ground (arith, eq_iff i k, eq_iff k i, has_key-put_member i k x m, proper-put_member k x m)

pub has_key-drop_member :
    (j k : String) (m : Members) → has_key j m ≡ false → has_key j (drop_member k m) ≡ false
has_key-drop_member j k end h = refl
has_key-drop_member j k (entry i v m) h = ground (arith, has_key-drop_member j k m)

pub proper-drop_member :
    (k : String) (m : Members) → proper m ≡ true → proper (drop_member k m) ≡ true
proper-drop_member k end p = refl
proper-drop_member k (entry i v m) p =
    ground (arith, has_key-drop_member i k m, proper-drop_member k m)

pub find_has_key :
    (k : String) (m : Members) (x : Value) → find_member k m ≡ some x → has_key k m ≡ true
find_has_key k end x h = cc
find_has_key k (entry j v m) x h = ground (arith, find_has_key k m x)

-- The item is what its key finds.
abbrev pub Found : Members → Option String × Value → Type 0
Found m e = (k : String) → e.0 ≡ some k → find_member k m ≡ some e.1

pub Found-entry :
    (k : String) (v : Value) (m : Members)
    → has_key k m ≡ false
    → (l : List (Option String × Value)) → All (Found m) l
    → All (Found (entry k v m)) l
Found-entry k v m absent [] h = tt
Found-entry k v m absent (e ∷ l) h = (
  (λ j is. ground (arith, eq_iff k j, h.0 j is, find_has_key j m e.1 (h.0 j is))),
  Found-entry k v m absent l h.1,
)

pub to_items-Found : (m : Members) → proper m ≡ true → All (Found m) (to_items m)
to_items-Found end p = tt
to_items-Found (entry k v m) p = (
  (λ j is. rw (← some_inj is, eq_refl k) refl),
  Found-entry k v m (ground arith) (to_items m) (to_items-Found m (ground arith)),
)

pub find_member-items : (m : Members) (k : String) → find_member k m ≡ lookup_item k (to_items m)
find_member-items end k = refl
find_member-items (entry j v m) k = ap (λ r. if j == k then some v else r) (find_member-items m k)

pub text_items-lookup : (l : List String) (k : String) → lookup_item k (text_items l) ≡ none
text_items-lookup [] k = refl
text_items-lookup (s ∷ l) k = text_items-lookup l k

pub set_members-items :
    (m : Members) (i : ℕ) (x : Value) → to_items (set_members m i x) ≡ replace_item (to_items m) i x
set_members-items end i x = refl
set_members-items (entry k v m) zero x = refl
set_members-items (entry k v m) (suc i) x = ap (λ r. (some k, v) ∷ r) (set_members-items m i x)

pub put_member_lem :
    (k : String) (x : Value) (m : Members) (j : String)
    → find_member j (put_member k x m) ≡ (if k == j then some x else find_member j m)
put_member_lem k x end j = refl
put_member_lem k x (entry i v m) j =
    ground (arith, eq_iff k j, eq_iff i k, eq_iff i j, put_member_lem k x m j)

pub drop_member_lem :
    (k : String) (m : Members) (j : String)
    → find_member j (drop_member k m) ≡ (if k == j then none else find_member j m)
drop_member_lem k end j = ground arith
drop_member_lem k (entry i v m) j =
    ground (arith, eq_iff k j, eq_iff i k, eq_iff i j, drop_member_lem k m j)

pub to_items_keyed : (m : Members) → All (λ e. (k : String) × (e.0 ≡ some k)) (to_items m)
to_items_keyed end = tt
to_items_keyed (entry k v m) = ((k, refl), to_items_keyed m)
