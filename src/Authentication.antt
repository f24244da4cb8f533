-- ===== src/Authentication.antt =====
-- source/kiwibes_authentication.cpp and .h: the tokens, and the thread that follows their file.
pub mod Following
use kiwibes.Prelude.{
  ℕ, String, Option, none, some, List, [], ◌∷◌, Bool, true, false, if◌then◌else◌, ltb, any, ◌==◌,
}
use kiwibes.Exec.{catch_parse_error, Exec, ok, type_error, throws, ◌>>=◌, ◌>>◌, pure, demand}
use kiwibes.Platform.{Platform}

-- The tokens are a `std::set`, of which only membership is used. `last_modified` and `has_warned` are
-- the variables of the watcher thread.
pub record Authentication : Type 0 where
  pub tokens : List String
  pub last_modified : ℕ
  pub has_warned : Bool

unfoldable pub new : Authentication
new = record { tokens = []; last_modified = 0; has_warned = false }

unfoldable pub verify_auth_token : String → Authentication → Bool
verify_auth_token token a = any (λ t. t == token) a.tokens

-- What a turn of the watcher finds: the time of the last change, if `stat` succeeds, and the text of
-- the file, if it can be opened.
pub record TokenFile : Type 0 where
  pub modified : ℕ
  pub text : Option String

module _ ⦃P : Platform⦄ where
  open P use {Json, parse, items, get_string}

  -- The loop over the items of the file.
  unfoldable pub insert_tokens : List (Option String × Json) → Exec Authentication Unit
  insert_tokens [] a = (ok tt, a)
  insert_tokens ((key, item) ∷ rest) a = elim (get_string item) [
    | none ↦ (throws type_error, a)
    | some token ↦ insert_tokens rest (record a { tokens = token ∷ a.tokens })
  ]

  -- A text that does not parse, and a file that cannot be opened, leave no tokens. The exception for
  -- a number out of range is not caught.
  unfoldable pub load_tokens : Option String → Exec Authentication Unit
  load_tokens none a = (ok tt, a)
  load_tokens (some text) a = elim (parse text) [
    | ok v ↦ insert_tokens (items v) a
    | throws e ↦ catch_parse_error tt e a
  ]

  unfoldable pub reload : TokenFile → Exec Authentication Unit
  reload f a =
      (do load_tokens f.text; (λ b. (ok tt, record b { last_modified = f.modified })))
        (record a { tokens = [] })

  -- One turn of the watcher thread.
  unfoldable pub watch : Option TokenFile → Exec Authentication Unit
  watch none a = (ok tt, record a { tokens = []; has_warned = true })
  watch (some f) a =
      (if ltb a.last_modified f.modified then reload f else pure tt)
        (record a { has_warned = false })
