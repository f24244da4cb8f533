-- ===== src/Cron.antt =====
-- source/kiwibes_cron.cpp and .h: a cron expression, parsed and evaluated by ccronexpr.
use kiwibes.Prelude.{ℕ, String, Bool, true, false, Option, none, some}
use kiwibes.Prelude.Int.{ℤ, pos}
use kiwibes.Platform.{Platform}

module _ ⦃P : Platform⦄ where
  open P use {Cron, cron_parse_expr, cron_next}

  -- `cron` is `none` where the parser has set the error.
  pub record KiwibesCron : Type 0 where
    pub cron : Option Cron

  unfoldable pub new : String → KiwibesCron
  new expression = record { cron = cron_parse_expr expression }

  unfoldable pub is_valid : KiwibesCron → Bool
  is_valid c = elim c.cron [ none ↦ false | some e ↦ true ]

  -- `now` is the reading of the system clock.
  unfoldable pub next : ℕ → KiwibesCron → ℤ
  next now c = elim c.cron [ none ↦ pos 0 | some e ↦ cron_next e now ]
