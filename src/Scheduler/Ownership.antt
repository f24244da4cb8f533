-- ===== src/Scheduler/Ownership.antt =====
-- Who owns the events: the queue holds each allocated address once, and the destructor frees them.
use kiwibes.Prelude.{
  ℕ, zero, suc, ◌≤◌, ◌≡◌, refl, sym, ap, ◌∙◌, String, none, some, List, [], ◌∷◌, Bool, true, false,
  if◌then◌else◌, eqb, any, arith, Option-cases, Bool-cases, inl, inr, length,
}
use kiwibes.Platform.{Platform}
use kiwibes.Scheduler.{
  Event, Heap, load, free, top, remove_one, pop, unschedule_heap, finished, Scheduler,
}
use kiwibes.Scheduler.Queue.{top-IsGreatest, top-none}
use kiwibes.Scheduler.Thread.{drain, destroy}

abbrev pub is_queued : ℕ → List ℕ → Bool
is_queued a q = any (eqb a) q

abbrev pub is_live : ℕ → Heap → Bool
is_live a h = elim (load a h) [ none ↦ false | some e ↦ true ]

-- No address is queued twice.
abbrev pub Distinct : List ℕ → Type 0
Distinct [] = Unit
Distinct (a ∷ q) = (any (eqb a) q ≡ false) × Distinct q

-- The queued addresses are distinct, and they are the allocated ones.
pub record Owns (q : List ℕ) (h : Heap) : Type 0 where
  pub distinct : Distinct q
  pub owned : (a : ℕ) → is_live a h ≡ is_queued a q

empty_of_dead : (h : Heap) → ((a : ℕ) → is_live a h ≡ false) → h ≡ []
unfolding load
empty_of_dead [] f = refl
empty_of_dead ((b, e) ∷ h) f = absurd (let r = f b in ground (arith, r))

queued-remove_one :
    (a b : ℕ) (q : List ℕ)
    → Distinct q
    → is_queued b (remove_one a q) ≡ (if eqb a b then false else is_queued b q)
unfolding remove_one
queued-remove_one a b [] d = ground arith
queued-remove_one a b (c ∷ q) d = ground (arith, queued-remove_one a b q d.1, d.0)

Distinct-remove_one : (a : ℕ) (q : List ℕ) → Distinct q → Distinct (remove_one a q)
unfolding remove_one
Distinct-remove_one a [] d = tt
Distinct-remove_one a (c ∷ q) d = elim (Bool-cases (eqb c a)) [
  | inl e ↦ rw e d.1
  | inr e ↦ rw e (ground (arith, queued-remove_one a c q d.1, d.0), Distinct-remove_one a q d.1)
]

live-free : (a b : ℕ) (h : Heap) → is_live b (free a h) ≡ (if eqb a b then false else is_live b h)
unfolding load free
live-free a b [] = ground arith
live-free a b ((c, e) ∷ h) = ground (arith, live-free a b h)

length-remove_one :
    (a : ℕ) (q : List ℕ) → is_queued a q ≡ true → suc (length (remove_one a q)) ≡ length q
unfolding remove_one
length-remove_one a [] h = absurd (ground arith)
length-remove_one a (c ∷ q) h = ground (arith, length-remove_one a q)

pub is_live-some : (a : ℕ) (h : Heap) → is_live a h ≡ true → (e : Event) × (load a h ≡ some e)
is_live-some a h l = elim (Option-cases (load a h)) [
  | inl e ↦ absurd (ground arith)
  | inr found ↦ found
]

-- What is left when one event is taken from the queue and freed.
pub Owns-free : (a : ℕ) (q : List ℕ) (h : Heap) → Owns q h → Owns (remove_one a q) (free a h)
Owns-free a q h o = record {
  distinct = Distinct-remove_one a q o.distinct;
  owned = λ b.
      live-free a b h
      ∙ ap (λ x. if eqb a b then false else x) (o.owned b)
      ∙ sym (queued-remove_one a b q o.distinct);
}

none_left : (q : List ℕ) (h : Heap) → Owns q h → top q ≡ none → h ≡ []
none_left q h o e = empty_of_dead h λ a. o.owned a ∙ ap (is_queued a) (top-none q e)

-- Where the queue holds each allocated address once, the loop of the destructor ends within as many
-- turns as there are events, frees no address twice and leaves no event allocated.
drain-frees :
    (n : ℕ) (q : List ℕ) (h : Heap) → Owns q h → length q ≤ n → drain n h q ≡ finished (some [])
unfolding drain pop
drain-frees zero q h o le = elim (Option-cases (top q)) [
  | inl e ↦ rw (e, drain) (ap (λ x. finished (some x)) (none_left q h o e))
  | inr (a, e) ↦
      let shorter = length-remove_one a q (top-IsGreatest q a e).queued in
      absurd (omega (arith, shorter, le))
]
drain-frees (suc n) q h o le = elim (Option-cases (top q)) [
  | inl e ↦ rw (e, drain) (ap (λ x. finished (some x)) (none_left q h o e))
  | inr (a, e) ↦
      let queued = (top-IsGreatest q a e).queued in
      let (event, there) = is_live-some a h (o.owned a ∙ queued) in
      let shorter = length-remove_one a q queued in
      rw (e, there, drain, pop, e)
        (drain-frees n (remove_one a q) (free a h) (Owns-free a q h o) (omega (arith, shorter, le)))
]

-- An event at an address that is not allocated.
pub Owns-push :
    (a : ℕ) (e : Event) (q : List ℕ) (h : Heap)
    → load a h ≡ none
    → Owns q h
    → Owns (a ∷ q) ((a, e) ∷ h)
unfolding load
Owns-push a e q h fresh o = record {
  distinct = (sym (o.owned a) ∙ (rw (fresh, is_live) refl), o.distinct);
  owned = λ b. ground (arith, o.owned b);
}

live-unschedule :
    (name : String) (q : List ℕ) (a : ℕ) (h : Heap)
    → is_live a (unschedule_heap name q h) ≡ is_live a h
unfolding load unschedule_heap
live-unschedule name q a [] = refl
live-unschedule name q a ((b, e) ∷ h) = ground (arith, live-unschedule name q a h)

pub Owns-unschedule :
    (name : String) (q : List ℕ) (h : Heap) → Owns q h → Owns q (unschedule_heap name q h)
Owns-unschedule name q h o = record {
  distinct = o.distinct;
  owned = λ a. live-unschedule name q a h ∙ o.owned a;
}

module _ ⦃P : Platform⦄ where
  -- The loop of the destructor of a scheduler whose queue holds each allocated event once ends
  -- within as many turns as there are events, frees every event, and frees none of them twice.
  pub destroy-frees : (s : Scheduler) → Owns s.events s.heap → destroy s ≡ finished (some [])
  unfolding destroy
  destroy-frees s o = drain-frees (length s.events) s.events s.heap o (omega arith)
