-- ===== src/Async/Progress.antt =====
-- What becomes of an accepted task.
use ocfl_index.Base.{◌≡◌, refl, false, Option, none, some, List, [], ◌∷◌, arith}
use ocfl_index.Text.{Str}
use ocfl_index.Async.{
  Task, Worker, selecting, running, releasing, stopped, Async, Event, try_now, offer, take, finish,
  release, see_done, see_cancelled, close, cancel, close_channels, next, step, Reach, run,
  is_stopped, ready_status,
}
use ocfl_index.Async.OneTask.{in_flight, IsSafe, Reach-IsSafe}

-- The steps that are left for the task in flight, if the work loop goes on.
abbrev pub steps_left : Option Task → Worker → List Event
steps_left (some t) w = offer ∷ take ∷ finish ∷ release ∷ []
steps_left none selecting = take ∷ finish ∷ release ∷ []
steps_left none (running t) = finish ∷ release ∷ []
steps_left none releasing = release ∷ []
steps_left none stopped = []

-- Ready for a new task: the loop selects, and the token is back.
pub record IsReady (s : Async) : Type 0 where
  pub selects : s.worker ≡ selecting
  pub returned : s.token ≡ false

-- The state when the task is done with.
abbrev settled : Async → Str → Async
settled s status = record s {
  status = status;
  token = false;
  task_ch = none;
  offered = none;
  worker = selecting;
}

Completes : Async → Option Task → Worker → Type 0
Completes s o w = (s' : Async) × (run (steps_left o w) s ≡ next s') × IsReady s'

module _ (s : Async) (safe : IsSafe s) (h : in_flight s ≡ 1) where
  Completes-offered :
      (t : Task) (w : Worker)
      → s.offered ≡ some t
      → s.worker ≡ w
      → is_stopped w ≡ false
      → Completes s (some t) w
  unfolding run step Completes
  Completes-offered t w o e k =
      (settled s ready_status, ground arith, record { selects = refl; returned = refl })

  Completes-taken :
      (w : Worker) → s.offered ≡ none → s.worker ≡ w → is_stopped w ≡ false → Completes s none w
  unfolding run step Completes
  Completes-taken selecting o e k =
      (settled s ready_status, ground arith, record { selects = refl; returned = refl })
  Completes-taken (running t) o e k =
      (settled s ready_status, ground arith, record { selects = refl; returned = refl })
  Completes-taken releasing o e k =
      (settled s s.status, ground arith, record { selects = refl; returned = refl })
  Completes-taken stopped o e k = cc

  Completes-any :
      (o : Option Task) → s.offered ≡ o → is_stopped s.worker ≡ false → Completes s o s.worker
  Completes-any none o k = Completes-taken s.worker o refl k
  Completes-any (some t) o k = Completes-offered t s.worker o refl k

-- From every state that is reached with a task in flight and the work loop not yet returned, at
-- most four steps of the caller and of the loop lead to a state that is ready for a new task.
pub accepted_completes :
    (s : Async)
    → Reach s
    → in_flight s ≡ 1
    → is_stopped s.worker ≡ false
    → (s' : Async) × (run (steps_left s.offered s.worker) s ≡ next s') × IsReady s'
unfolding Completes
accepted_completes s r h w = Completes-any s (Reach-IsSafe r) h s.offered refl w

-- A task in the queue of a work loop that has returned stays there: no step takes it out.
pub stranded :
    (e : Event) (s s' : Async) (t : Task)
    → s.worker ≡ stopped
    → s.task_ch ≡ some t
    → step e s ≡ next s'
    → (s'.worker ≡ stopped) × (s'.task_ch ≡ some t)
unfolding step
stranded (try_now u) s s' t w h k = ground arith
stranded offer s s' t w h k = ground arith
stranded take s s' t w h k = ground arith
stranded finish s s' t w h k = ground arith
stranded release s s' t w h k = ground arith
stranded see_done s s' t w h k = ground arith
stranded see_cancelled s s' t w h k = ground arith
stranded close s s' t w h k = ground arith
stranded cancel s s' t w h k = ground arith
stranded close_channels s s' t w h k = ground arith
