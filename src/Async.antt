-- ===== src/Async.antt =====
-- internal/index/async.go: Async, which runs one indexing task at a time. Its goroutines meet at
-- channels: tokenCh and taskCh have room for one value. A run is a list of events, each one step
-- of the work loop or of a call of TryNow, Close or the server's context; `step` gives no state
-- where the step would block, and a panic where Go panics.
pub mod OneTask
pub mod Progress
mod Witnesses
use ocfl_index.Base.{
  ℕ, zero, suc, ◌+◌, ◌≡◌, Bool, true, false, not, ◌&&◌, ◌||◌, Option, none, some, List, [], ◌∷◌,
  if◌then◌else◌,
}
use ocfl_index.Text.{Str, bytes}

-- asyncTask: its name, and a number for its function and its error channel
pub record Task : Type 0 where
  pub name : Str
  pub id : ℕ

-- Where the work loop is: at its select, in task.run, between the reset of the status and the
-- receipt of the token, or past its return.
pub data Worker : Type 0 where
  selecting : Worker
  running : Task → Worker
  releasing : Worker
  stopped : Worker

pub record Async : Type 0 where
  pub status : Str
  pub token : Bool
  pub task_ch : Option Task
  pub offered : Option Task
  pub worker : Worker
  pub done : Bool
  pub cancelled : Bool
  pub channels_closed : Bool

abbrev pub ready_status : Str
ready_status = bytes "ready"

-- NewAsync
abbrev pub new_async : Async
new_async = record {
  status = ready_status;
  token = false;
  task_ch = none;
  offered = none;
  worker = selecting;
  done = false;
  cancelled = false;
  channels_closed = false;
}

-- `try_now t` is the select of TryNow, `offer` its send to taskCh; `take` to `release` are the
-- steps of the work loop; `close_channels` is the goroutine that waits for the loop's end.
pub data Event : Type 0 where
  try_now : Task → Event
  offer : Event
  take : Event
  finish : Event
  release : Event
  see_done : Event
  see_cancelled : Event
  close : Event
  cancel : Event
  close_channels : Event

pub data Outcome : Type 0 where
  next : Async → Outcome
  refused : Async → Outcome
  blocked : Outcome
  panics : Outcome

-- `sch.status = task.Name`, or "busy"
unfoldable pub task_status : Str → Str
task_status [] = bytes "busy"
task_status (c ∷ name) = c ∷ name

-- TryNow's select: a send to a full channel gives way to the default case.
try_token : Task → Async → Outcome
try_token t s =
    if s.channels_closed
    then panics
    else if s.token
    then refused s
    else next (record s { token = true; offered = some t })

put_task : Task → Option Task → Async → Outcome
put_task t none s = next (record s { task_ch = some t; offered = none })
put_task t (some u) s = blocked

-- taskCh <- asyncTask{...}
send_task : Option Task → Async → Outcome
unfolding put_task
send_task none s = blocked
send_task (some t) s = if s.channels_closed then panics else put_task t s.task_ch s

-- task = <-sch.taskCh, then the status
take_task : Worker → Option Task → Async → Outcome
unfolding task_status
take_task selecting (some t) s =
    next (record s { task_ch = none; worker = running t; status = task_status t.name })
take_task selecting none s = blocked
take_task (running u) o s = blocked
take_task releasing o s = blocked
take_task stopped o s = blocked

-- the end of task.run: the status is reset
finish_task : Worker → Async → Outcome
finish_task (running t) s = next (record s { worker = releasing; status = ready_status })
finish_task selecting s = blocked
finish_task releasing s = blocked
finish_task stopped s = blocked

-- <-sch.tokenCh
take_token : Worker → Async → Outcome
take_token releasing s =
    if s.token then next (record s { token = false; worker = selecting }) else blocked
take_token selecting s = blocked
take_token (running t) s = blocked
take_token stopped s = blocked

-- case <-sch.done
return_done : Worker → Async → Outcome
return_done selecting s = if s.done then next (record s { worker = stopped }) else blocked
return_done (running t) s = blocked
return_done releasing s = blocked
return_done stopped s = blocked

-- case <-ctx.Done(): closing a closed channel panics
return_cancelled : Worker → Async → Outcome
return_cancelled selecting s =
    if s.cancelled
    then (if s.done then panics else next (record s { worker = stopped; done = true }))
    else blocked
return_cancelled (running t) s = blocked
return_cancelled releasing s = blocked
return_cancelled stopped s = blocked

abbrev pub is_stopped : Worker → Bool
is_stopped stopped = true
is_stopped _ = false

unfoldable pub step : Event → Async → Outcome
unfolding try_token send_task take_task finish_task take_token return_done return_cancelled
step (try_now t) s = try_token t s
step offer s = send_task s.offered s
step take s = take_task s.worker s.task_ch s
step finish s = finish_task s.worker s
step release s = take_token s.worker s
step see_done s = return_done s.worker s
step see_cancelled s = return_cancelled s.worker s
step close s = if s.done then panics else next (record s { done = true })
step cancel s = next (record s { cancelled = true })
step close_channels s =
    if is_stopped s.worker && not s.channels_closed
    then next (record s { channels_closed = true })
    else blocked

-- The states that runs lead to.
pub data Reach : Async → Type 0 where
  start : Reach new_async
  more : (s s' : Async) (e : Event) → Reach s → step e s ≡ next s' → Reach s'

-- A run of several events, which ends early where a step does not go on.
unfoldable pub run : List Event → Async → Outcome
run [] s = next s
run (e ∷ es) s = elim (step e s) [
  | next s' ↦ run es s'
  | refused s' ↦ run es s'
  | blocked ↦ blocked
  | panics ↦ panics
]
