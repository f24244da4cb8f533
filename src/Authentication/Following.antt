-- ===== src/Authentication/Following.antt =====
-- How the tokens follow their file.
use kiwibes.Prelude.{
  ℕ, ◌≤◌, String, ◌≡◌, refl, Option, none, some, List, [], ◌∷◌, false, any, ◌==◌, ◌||◌, arith, All,
  ltb-false, lt→ltb, ◌<◌,
}
use kiwibes.Exec.{ok}
use kiwibes.Platform.{Platform}
use kiwibes.Authentication.{
  Authentication, TokenFile, verify_auth_token, insert_tokens, load_tokens, reload, watch,
}

module _ ⦃P : Platform⦄ where
  open P use {Json, parse, items, get_string}

  -- The items are these texts.
  pub data Texts : List (Option String × Json) → List String → Type 0 where
    no_item : Texts [] []
    item :
        {k : Option String} {v : Json} {t : String} {l : List (Option String × Json)}
        {ts : List String}
        → get_string v ≡ some t
        → Texts l ts
        → Texts ((k, v) ∷ l) (t ∷ ts)

  insert_tokens_lem :
      (l : List (Option String × Json)) (ts : List String) (token : String) (a : Authentication)
      → Texts l ts
      → ((insert_tokens l a).0 ≡ ok tt)
        × (verify_auth_token token (insert_tokens l a).1
            ≡ (any (λ t. t == token) ts || verify_auth_token token a))
  unfolding insert_tokens verify_auth_token
  insert_tokens_lem [] [] token a no_item = (refl, refl)
  insert_tokens_lem [] (t ∷ ts) token a h = elim h [ ]
  insert_tokens_lem ((k, v) ∷ l) [] token a h = elim h [ ]
  insert_tokens_lem ((k, v) ∷ l) (t ∷ ts) token a (item e rest) =
      let (fine, same) = insert_tokens_lem l ts token (record a { tokens = t ∷ a.tokens }) rest in
      rw (e, insert_tokens) (fine, ground (arith, same))

  -- A turn of the watcher that finds a newer file which parses and whose items are all texts ends
  -- without an exception, and afterwards exactly these texts are accepted as tokens, whatever was
  -- accepted before.
  pub watch-newer :
      (f : TokenFile) (text token : String) (v : Json) (ts : List String) (a : Authentication)
      → a.last_modified < f.modified
      → f.text ≡ some text
      → parse text ≡ ok v
      → Texts (items v) ts
      → ((watch (some f) a).0 ≡ ok tt)
        × (verify_auth_token token (watch (some f) a).1 ≡ any (λ t. t == token) ts)
  unfolding watch reload load_tokens verify_auth_token
  watch-newer f text token v ts a newer opened parsed texts =
      let (fine, same) =
        insert_tokens_lem (items v) ts token
          (record { tokens = []; last_modified = a.last_modified; has_warned = false }) texts in
      rw (lt→ltb a.last_modified f.modified newer, opened, parsed, load_tokens, fine)
        (refl, ground (arith, same))

  pub watch_all : List (Option TokenFile) → Authentication → Authentication
  watch_all [] a = a
  watch_all (f ∷ fs) a = watch_all fs (watch f a).1

  abbrev pub IsNotNewer : ℕ → Option TokenFile → Type 0
  IsNotNewer t none = Unit {0}
  IsNotNewer t (some f) = f.modified ≤ t

  none_accepted :
      (fs : List (Option TokenFile)) (token : String) (a : Authentication)
      → verify_auth_token token a ≡ false
      → All (IsNotNewer a.last_modified) fs
      → verify_auth_token token (watch_all fs a) ≡ false
  unfolding watch verify_auth_token watch_all
  none_accepted [] token a e h = e
  none_accepted (none ∷ fs) token a e h = none_accepted fs token (watch none a).1 refl h.1
  none_accepted (some f ∷ fs) token a e h =
      rw (ltb-false a.last_modified f.modified h.0, watch_all)
        (none_accepted fs token (record a { has_warned = false }) e h.1)

  -- After a turn of the watcher that found no file, a file that is not newer than the last one
  -- loaded is never loaded again: through any number of turns that find such files or none, no
  -- token is accepted.
  pub watch-restored :
      (fs : List (Option TokenFile)) (token : String) (a : Authentication)
      → All (IsNotNewer a.last_modified) fs
      → verify_auth_token token (watch_all fs (watch none a).1) ≡ false
  unfolding watch verify_auth_token
  watch-restored fs token a h = none_accepted fs token (watch none a).1 refl h
