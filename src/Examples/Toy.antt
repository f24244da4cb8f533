-- ===== src/Examples/Toy.antt =====
-- A small platform that satisfies the laws: JSON values without text, and a schedule that runs every
-- second.
mod Values
mod Objects
pub use Values.{
  Value, nil, word, int, real, texts, object, Members, end, entry, to_items, has_key, proper,
  text_items, value_items, find_member, value_member, put_member, value_set_member, set_members,
  value_set_item, drop_member, value_remove_at, value_is_map, as_text, as_int, as_time, as_ulong,
  as_real, as_texts, idle_jobs, ill_typed_jobs, entry_with,
}
use Prim.Native.String.{◌++◌}
use text.Mathlib.TextLemmas.{nil-append, cons-append}
use kiwibes.Prelude.{
  ℕ, zero, suc, ◌+◌, ◌-◌, ◌*◌, ◌/◌, String, ◌≡◌, refl, ◌∙◌, Option, none, some, List, [], ◌∷◌, Bool,
  true, false, not, ◌&&◌, ◌||◌, Bool-cases, inl, inr, eq_refl, ◌==◌, eq_iff, if◌then◌else◌, arith,
  ap, sym, All, some_inj,
}
use kiwibes.Prelude.Int.{pos, ℤ, pos_part, to_int, to_time, to_u64}
use kiwibes.Exec.{ok, throws, parse_error}
use kiwibes.Platform.{Platform}
use kiwibes.Platform.Laws.{PlatformLaws, lookup_item, replace_item}
use kiwibes.Examples.Toy.Objects.{
  has_key-set_members, proper-set_members, has_key-put_member, proper-put_member,
  has_key-drop_member, proper-drop_member, find_has_key, Found, Found-entry, to_items-Found,
  find_member-items, text_items-lookup, set_members-items, put_member_lem, drop_member_lem,
  to_items_keyed,
}

instance abbrev pub toy : Platform
toy = record {
  Double = ℕ;
  double_zero = 0;
  double_of_int = pos_part;
  add_double = λ a b. a + b;
  sub_double = λ a b. a - b;
  mul_double = λ a b. a * b;
  div_double = λ a b. a / b;
  Json = Value;
  null = nil;
  parse = λ s.
      if s == "{}"
      then ok idle_jobs
      else if s == "{0}"
      then ok ill_typed_jobs
      else if s == "[\"secret\",\"other\"]"
      then ok (texts ("secret" ∷ "other" ∷ []))
      else throws parse_error;
  print = λ v. "{}";
  dump = λ v. "{}";
  items = value_items;
  set_item = value_set_item;
  member = value_member;
  set_member = value_set_member;
  remove_at = value_remove_at;
  is_map = value_is_map;
  get_string = as_text;
  get_int = as_int;
  get_time = as_time;
  get_ulong = as_ulong;
  get_double = as_real;
  get_strings = as_texts;
  of_string = word;
  of_int = int;
  of_double = real;
  of_strings = texts;
  Cron = Unit {0};
  cron_parse_expr = λ s. if s == "bad" then none else some tt;
  cron_next = λ c now. pos (now + 1);
}

member-items : (v : Value) (k : String) → value_member v k ≡ lookup_item k (value_items v)
member-items (object m) k = elim (Bool-cases (proper m)) [
  | inl p ↦ rw p (find_member-items m k)
  | inr p ↦ rw p refl
]
member-items (texts l) k = sym (text_items-lookup l k)
member-items _ k = refl

items_keyed :
    (v : Value) → value_is_map v ≡ true → All (λ e. (k : String) × (e.0 ≡ some k)) (value_items v)
items_keyed nil h = tt
items_keyed (object m) h = rw h (to_items_keyed m)
items_keyed (word s) h = cc
items_keyed (int n) h = cc
items_keyed (real n) h = cc
items_keyed (texts l) h = cc

set_member_total :
    (v : Value) (k : String) (x : Value)
    → value_is_map v ≡ true
    → (w : Value) × (value_set_member v k x ≡ some w)
set_member_total nil k x h = (object (entry k x end), refl)
set_member_total (object m) k x h = (object (put_member k x m), rw h refl)
set_member_total (word s) k x h = cc
set_member_total (int n) k x h = cc
set_member_total (real n) k x h = cc
set_member_total (texts l) k x h = cc

items_set_item :
    (v : Value) (i : ℕ) (x : Value)
    → value_is_map v ≡ true
    → value_items (value_set_item v i x) ≡ replace_item (value_items v) i x
items_set_item nil i x h = refl
items_set_item (object m) i x h = rw (proper-set_members m i x, h) (set_members-items m i x)
items_set_item (word s) i x h = cc
items_set_item (int n) i x h = cc
items_set_item (real n) i x h = cc
items_set_item (texts l) i x h = cc

is_map_set_item :
    (v : Value) (i : ℕ) (x : Value)
    → value_is_map v ≡ true
    → value_is_map (value_set_item v i x) ≡ true
is_map_set_item (object m) i x h = proper-set_members m i x ∙ h
is_map_set_item nil i x h = h
is_map_set_item (word s) i x h = h
is_map_set_item (int n) i x h = h
is_map_set_item (real n) i x h = h
is_map_set_item (texts l) i x h = h

is_map_of_value_member :
    (v : Value) (k : String) (x : Value) → value_member v k ≡ some x → value_is_map v ≡ true
is_map_of_value_member (object m) k x h = ground arith
is_map_of_value_member nil k x h = refl
is_map_of_value_member (word s) k x h = cc
is_map_of_value_member (int n) k x h = cc
is_map_of_value_member (real n) k x h = cc
is_map_of_value_member (texts l) k x h = cc

put_some :
    (m : Members) (k : String) (x w : Value)
    → proper m ≡ true
    → value_set_member (object m) k x ≡ some w
    → some (object (put_member k x m)) ≡ some w
put_some m k x w p h = ground arith

is_map_value_set_member :
    (v : Value) (k : String) (x w : Value) → value_set_member v k x ≡ some w → value_is_map w ≡ true
is_map_value_set_member nil k x w h = ap value_is_map (sym (some_inj h))
is_map_value_set_member (object m) k x w h = elim (Bool-cases (proper m)) [
  | inl p ↦ ap value_is_map (sym (some_inj (put_some m k x w p h))) ∙ proper-put_member k x m p
  | inr p ↦ absurd (ground arith)
]
is_map_value_set_member (word s) k x w h = cc
is_map_value_set_member (int n) k x w h = cc
is_map_value_set_member (real n) k x w h = cc
is_map_value_set_member (texts l) k x w h = cc

member_set_member :
    (v : Value) (k : String) (x w : Value) (j : String)
    → value_set_member v k x ≡ some w
    → value_member w j ≡ (if k == j then some x else value_member v j)
member_set_member nil k x w j h = ap (λ u. value_member u j) (sym (some_inj h))
member_set_member (object m) k x w j h = elim (Bool-cases (proper m)) [
  | inl p ↦
      ap (λ u. value_member u j) (sym (some_inj (put_some m k x w p h)))
      ∙ rw (proper-put_member k x m p, p) (put_member_lem k x m j)
  | inr p ↦ absurd (ground arith)
]
member_set_member (word s) k x w j h = cc
member_set_member (int n) k x w j h = cc
member_set_member (real n) k x w j h = cc
member_set_member (texts l) k x w j h = cc

slash :
    (k : String) (m : Members)
    → value_remove_at (object m) ("/" ++ k) ≡ some (object (drop_member k m))
slash k m =
    let e : "/" ++ k ≡ String.◌∷◌ "/" k =
      cons-append "/" String.[] k ∙ ap (λ s. String.◌∷◌ "/" s) (nil-append k) in
    rw e refl

remove_plain :
    (v : Value) (k : String) (x : Value)
    → value_member v k ≡ some x
    → (w : Value) × (value_remove_at v ("/" ++ k) ≡ some w)
      × (value_is_map w ≡ true)
      × ((j : String) → value_member w j ≡ (if k == j then none else value_member v j))
remove_plain (object m) k x h =
    let p = is_map_of_value_member (object m) k x h in
    let q = proper-drop_member k m p in
    (object (drop_member k m), slash k m, q, λ j. rw (q, p) (drop_member_lem k m j))
remove_plain nil k x h = cc
remove_plain (word s) k x h = cc
remove_plain (int n) k x h = cc
remove_plain (real n) k x h = cc
remove_plain (texts l) k x h = cc

items_found :
    (v : Value)
    → value_is_map v ≡ true
    → All (λ e. (k : String) → e.0 ≡ some k → value_member v k ≡ some e.1) (value_items v)
items_found nil h = tt
items_found (object m) h = rw h (to_items-Found m h)
items_found (word s) h = cc
items_found (int n) h = cc
items_found (real n) h = cc
items_found (texts l) h = cc

pub toy_laws : PlatformLaws toy
toy_laws = record {
  items-null = refl;
  items_keyed = items_keyed;
  items_found = items_found;
  member-items = member-items;
  items-set_item = items_set_item;
  is_map-null = refl;
  is_map-set_item = is_map_set_item;
  is_map_of_member = is_map_of_value_member;
  set_member-total = set_member_total;
  is_map-set_member = is_map_value_set_member;
  member-set_member = member_set_member;
  remove_at-plain = λ v k x p h. remove_plain v k x h;
  get-of_string = λ s. refl;
  get_int-of_int = λ n. refl;
  get_time-of_int = λ n. refl;
  get_ulong-of_int = λ n. refl;
  get-of_double = λ d. refl;
  get-of_strings = λ l. refl;
}
