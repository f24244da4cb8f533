-- ===== src/Examples/Traces.antt =====
-- A sequence of calls of the database on the small platform.
use kiwibes.Prelude.{List, refl, [], ◌∷◌, false}
use kiwibes.Prelude.Int.{pos}
use kiwibes.Database.Spec.{Refines}
use kiwibes.Database.Refinement.Traces.{
  Call, starts, stops, increments, decrements, clears, deletes, creates, edits, run_all, spec_all,
  run_all-Refines,
}
use kiwibes.Examples.Toy.{toy, toy_laws}
use kiwibes.Examples.Jobs.{sleep_value, one_job, sleeps, one_job-Stores}

-- A job runs with a queued start, another one is created, edited, refused as running, and deleted.
abbrev day : List Call
day =
    starts 5 "sleep"
    ∷ increments "sleep"
    ∷ creates "nap" (sleep_value false 0) ("/bin/sleep" ∷ "1" ∷ []) "* * * * * *" (pos 5)
    ∷ stops 9 "sleep"
    ∷ decrements "sleep"
    ∷ edits "nap" (sleep_value false 0) ("/bin/sleep" ∷ "1" ∷ []) "* * * * * *" 5
    ∷ starts 10 "nap"
    ∷ deletes "nap"
    ∷ stops 12 "nap"
    ∷ clears "nap"
    ∷ deletes "nap"
    ∷ []

run_all-Refines_example : Refines (run_all day (one_job false 0)) (spec_all day (sleeps false 0))
run_all-Refines_example =
    run_all-Refines toy_laws day (one_job false 0) (sleeps false 0)
      (
        tt,
        (
          tt,
          (
            (refl, refl, refl),
            (tt, (tt, ((refl, refl, refl), (tt, (refl, (tt, (tt, (refl, tt)))))))),
          ),
        ),
      )
      (one_job-Stores false 0)
