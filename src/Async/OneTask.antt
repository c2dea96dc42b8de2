-- ===== src/Async/OneTask.antt =====
-- One task at a time.
use ocfl_index.Base.{
  ℕ, ◌+◌, ◌≤◌, ◌≡◌, ◌==◌, Bool, true, false, Option, none, some, arith, if◌then◌else◌,
}
use ocfl_index.Async.{
  Task, Worker, selecting, running, releasing, stopped, Async, Event, try_now, offer, take, finish,
  release, see_done, see_cancelled, close, cancel, close_channels, next, refused, panics, step,
  Reach, start, more,
}

abbrev pub held {ℓ} : {A : Type ℓ} → Option A → ℕ
held none = 0
held (some a) = 1

abbrev pub busy : Worker → ℕ
busy (running t) = 1
busy releasing = 1
busy selecting = 0
busy stopped = 0

-- The tasks that were accepted and whose token is still out: offered, queued or in the work loop.
abbrev pub in_flight : Async → ℕ
in_flight s = held s.offered + held s.task_ch + busy s.worker

abbrev tokens : Bool → ℕ
tokens true = 1
tokens false = 0

pub record IsSafe (s : Async) : Type 0 where
  pub counted : in_flight s ≡ tokens s.token
  pub open_until_stopped : s.channels_closed ≡ true → s.worker ≡ stopped
  pub done_when_stopped : s.worker ≡ stopped → s.done ≡ true

step-IsSafe : (e : Event) (s s' : Async) → IsSafe s → step e s ≡ next s' → IsSafe s'
unfolding step
step-IsSafe (try_now t) s s' h k = ground arith
step-IsSafe offer s s' h k = ground arith
step-IsSafe take s s' h k = ground arith
step-IsSafe finish s s' h k = ground arith
step-IsSafe release s s' h k = ground arith
step-IsSafe see_done s s' h k = ground arith
step-IsSafe see_cancelled s s' h k = ground arith
step-IsSafe close s s' h k = ground arith
step-IsSafe cancel s s' h k = ground arith
step-IsSafe close_channels s s' h k = ground arith

pub Reach-IsSafe : {s : Async} → Reach s → IsSafe s
Reach-IsSafe start = record {
  counted = omega arith;
  open_until_stopped = λ h. cc;
  done_when_stopped = λ h. cc;
}
Reach-IsSafe (more s s' e r k) = step-IsSafe e s s' (Reach-IsSafe r) k

-- In every state that is reached at most one accepted task is offered, queued or run.
pub one_task : (s : Async) → Reach s → in_flight s ≤ 1
one_task s r = let i = Reach-IsSafe r in ground arith

-- In every state that is reached with open channels, the send of an accepted task to taskCh does
-- not block: it queues the task.
pub offer_never_blocks :
    (s : Async) (t : Task)
    → Reach s
    → s.offered ≡ some t
    → s.channels_closed ≡ false
    → step offer s ≡ next (record s { task_ch = some t; offered = none })
unfolding step
offer_never_blocks s t r h o = let i = Reach-IsSafe r in ground arith

-- In every state that is reached with open channels, TryNow refuses a task exactly if another one
-- is in flight, and otherwise accepts it.
pub try_now_exact :
    (s : Async) (t : Task)
    → Reach s
    → s.channels_closed ≡ false
    → step (try_now t) s
      ≡ (if in_flight s == 1 then refused s else next (record s { token = true; offered = some t }))
unfolding step
try_now_exact s t r o = let i = Reach-IsSafe r in ground arith

-- Once the work loop has returned, Close panics: the loop returns only with its done channel
-- closed, by Close or, when the context is cancelled, by itself.
pub close_after_stop : (s : Async) → Reach s → s.worker ≡ stopped → step close s ≡ panics
unfolding step
close_after_stop s r h = let i = Reach-IsSafe r in ground (arith, i.done_when_stopped h)
