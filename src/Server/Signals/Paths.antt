-- ===== src/Server/Signals/Paths.antt =====
-- The signals along the steps of the server.
use kiwibes.Prelude.{
  true, [], ◌∷◌, ◌++◌, append_nil, append_cons, ◌≡◌, refl, ◌∙◌, ap, subst, sym, List,
}
use kiwibes.Platform.{Platform, is_plain}
use kiwibes.Manager.{Handle}
use kiwibes.Manager.Kills.{watch-Preserves}
use kiwibes.Rest.{Context, Request, Response}
use kiwibes.Rest.Routes.{Route, Inputs, dispatch}
use kiwibes.Server.Calls.{Call, run, creates, edits, deletes, schedules, unschedules}
use kiwibes.Server.Steps.{Step, request, calls, watches, turns, reloads, Steps, done, next}
use kiwibes.Server.Signals.{sent, TurnSent, turn-sent, schedule-Preserves}
use kiwibes.Server.Signals.Requests.{MayKill, Signals, none_new, one_new, dispatch-Signals}
use kiwibes.Scheduler.{schedule_job, unschedule_job}

module _ ⦃P : Platform⦄ where
  -- The step is a request with a valid token to stop the job whose process this is.
  abbrev pub Targets : (c c' : Context) → Step c c' → Handle → Type 0
  Targets c _ (request route req i res _ plain) handle =
      MayKill route req c.authentication c.scheduler.manager handle
  Targets c _ (calls call _) handle = ⊥
  Targets c _ (watches rs _) handle = ⊥
  Targets c _ (turns now w _ r s e) handle = ⊥
  Targets c _ (reloads file _) handle = ⊥

  -- Steps that target these processes, in this order, among other steps.
  pub data Targeted : (c c' : Context) → Steps c c' → List Handle → Type 0 where
    ended : (c : Context) → Targeted c c (done c) []
    passes :
        (a b c : Context) (s : Step a b) (more : Steps b c) (handles : List Handle)
        → Targeted b c more handles
        → Targeted a c (next s more) handles
    targets :
        (a b c : Context) (s : Step a b) (more : Steps b c) (handle : Handle)
        (handles : List Handle)
        → Targets a b s handle
        → Targeted b c more handles
        → Targeted a c (next s more) (handle ∷ handles)

  -- The new signals, each to the process that a step has targeted.
  pub record Signalled (c c' : Context) (path : Steps c c') : Type 0 where
    pub handles : List Handle
    pub new : sent c' ≡ sent c ++ handles
    pub targeted : Targeted c c' path handles

  data StepSignals (c c' : Context) (s : Step c c') : Type 0 where
    silent : sent c' ≡ sent c → StepSignals c c' s
    signals :
        (handle : Handle)
        → sent c' ≡ sent c ++ handle ∷ []
        → Targets c c' s handle
        → StepSignals c c' s

  run-sent : (call : Call) (c : Context) → sent (run call c).1 ≡ sent c
  unfolding schedule_job unschedule_job
  run-sent (creates req n before p) c = refl
  run-sent (edits req n before p) c = refl
  run-sent (deletes name plain) c = refl
  run-sent (schedules now address name) c = (schedule-Preserves now address name).at c.scheduler
  run-sent (unschedules name) c = refl

  requested :
      (route : Route) (req : Request) (i : Inputs) (res : Response) (c : Context)
      (plain : is_plain req.capture ≡ true) (after : List Handle)
      → Signals route req (record c { response = res }) after
      → sent (dispatch route req i (record c { response = res })).1 ≡ after
      → StepSignals c _ (request route req i res c plain)
  requested route req i res c plain _ none_new e = silent e
  requested route req i res c plain _ (one_new handle k) e = signals handle e k

  step-StepSignals : (c c' : Context) (s : Step c c') → StepSignals c c' s
  step-StepSignals c _ (request route req i res _ plain) =
      requested route req i res c plain _
        (dispatch-Signals route req i (record c { response = res })) refl
  step-StepSignals c _ (calls call _) = silent (run-sent call c)
  step-StepSignals c _ (watches rs _) =
      silent (ap (λ p. p.0) ((watch-Preserves rs).at c.scheduler.manager))
  step-StepSignals c _ (turns now w _ r s e) =
      silent (subst (TurnSent (sent c)) e (turn-sent now w c.scheduler))
  step-StepSignals c _ (reloads file _) = silent refl

  next-Signalled :
      (a b c : Context) (s : Step a b) (more : Steps b c)
      → StepSignals a b s
      → Signalled b c more
      → Signalled a c (next s more)
  next-Signalled a b c s more (silent e) k = record {
    handles = k.handles;
    new = k.new ∙ ap (λ l. l ++ k.handles) e;
    targeted = passes a b c s more k.handles k.targeted;
  }
  next-Signalled a b c s more (signals handle e t) k = record {
    handles = handle ∷ k.handles;
    new = k.new ∙ ap (λ l. l ++ k.handles) e ∙ append_cons (sent a) k.handles handle;
    targeted = targets a b c s more handle k.handles t k.targeted;
  }

  -- Along any sequence of steps of the server (requests, single calls of the components, and turns
  -- of the three threads, from any state) the signals to processes are those of before and then new
  -- ones, which belong, in this order, to distinct steps: each of these is a request with a valid
  -- token to stop a job, and the signal goes to the process that is active then under the name of
  -- the job.
  pub Steps-Signalled : (c c' : Context) (path : Steps c c') → Signalled c c' path
  Steps-Signalled c _ (done _) = record {
    handles = [];
    new = sym (append_nil (sent c));
    targeted = ended c;
  }
  Steps-Signalled c c' (next {b = b} s more) =
      next-Signalled c b c' s more (step-StepSignals c b s) (Steps-Signalled b c' more)
