-- ===== src/Scheduler/Queue.antt =====
-- The queue of events: a priority queue of addresses.
use kiwibes.Prelude.{
  ℕ, ◌≤◌, ◌<◌, ◌≡◌, refl, sym, subst, none, some, List, [], ◌∷◌, true, ltb, eqb, any, arith, All,
  Bool-cases, Option-cases, inl, inr,
}
use kiwibes.Scheduler.{Heap, load, free, top, remove_one, pop}

-- The address is queued and no queued address is greater.
pub record IsGreatest (a : ℕ) (q : List ℕ) : Type 0 where
  pub queued : any (eqb a) q ≡ true
  pub greatest : All (λ b. b ≤ a) q

All-le : (a b : ℕ) (q : List ℕ) → a ≤ b → All (λ c. c ≤ a) q → All (λ c. c ≤ b) q
All-le a b [] h all = tt
All-le a b (c ∷ q) h all = (omega (arith, all.0), All-le a b q h all.1)

queued_le : (a b : ℕ) (q : List ℕ) → any (eqb a) q ≡ true → All (λ c. c ≤ b) q → a ≤ b
queued_le a b [] h all = absurd (ground arith)
queued_le a b (c ∷ q) h all = ground (arith, queued_le a b q, all.0, all.1)

pub top-none : (q : List ℕ) → top q ≡ none → q ≡ []
unfolding top
top-none [] h = refl
top-none (a ∷ q) h = absurd (ground arith)

not_none : (a : ℕ) (q : List ℕ) → any (eqb a) q ≡ true → top q ≡ none → ⊥
not_none a [] h e = ground arith
not_none a (b ∷ q) h e = let r = top-none (b ∷ q) e in cc

-- What the queue has on top is the greatest of its addresses.
pub top-IsGreatest : (q : List ℕ) (a : ℕ) → top q ≡ some a → IsGreatest a q
unfolding top
top-IsGreatest [] a h = cc
top-IsGreatest (b ∷ q) a h = elim (Option-cases (top q)) [
  | inl e ↦ record {
    queued = ground arith;
    greatest = (ground arith, subst (All (λ c. c ≤ a)) (sym (top-none q e)) tt);
  }
  | inr (c, e) ↦
      let r = top-IsGreatest q c e in
      elim (Bool-cases (ltb b c)) [
        | inl lt ↦ record {
          queued = ground (arith, r.queued);
          greatest = (ground arith, All-le c a q (ground arith) r.greatest);
        }
        | inr ge ↦ record {
          queued = ground arith;
          greatest = (ground arith, All-le c a q (ground arith) r.greatest);
        }
      ]
]

pub top_of_IsGreatest : (q : List ℕ) (a : ℕ) → IsGreatest a q → top q ≡ some a
top_of_IsGreatest q a g = elim (Option-cases (top q)) [
  | inl e ↦ absurd (not_none a q g.queued e)
  | inr (c, e) ↦
      let c_top = top-IsGreatest q c e in
      let le = queued_le a c q g.queued c_top.greatest in
      let ge = queued_le c a q c_top.queued g.greatest in ground (arith, e, le, ge)
]

-- `pop` after the push of a greater address takes that address, and leaves the queue as it was.
pub pop-greater : (a b : ℕ) (q : List ℕ) → IsGreatest a q → a < b → pop (b ∷ q) ≡ q
unfolding pop remove_one top
pop-greater a b q g lt = rw (top_of_IsGreatest q a g) (ground arith)

pub load-free : (a : ℕ) (h : Heap) → load a (free a h) ≡ none
unfolding load free
load-free a [] = refl
load-free a ((b, e) ∷ h) = ground (arith, load-free a h)

-- `pop` after the push of a smaller address takes the address that was on top.
pub pop-lower : (a b : ℕ) (q : List ℕ) → IsGreatest a q → b < a → pop (b ∷ q) ≡ b ∷ remove_one a q
unfolding pop remove_one top
pop-lower a b q g lt = rw (top_of_IsGreatest q a g) (ground arith)
