-- ===== src/Async/Witnesses.antt =====
-- Concrete runs for the theorems on Async.
use ocfl_index.Base.{◌≡◌, ◌≤◌, refl, true, some, []}
use ocfl_index.Text.{bytes}
use ocfl_index.Async.{
  Task, stopped, Async, new_async, try_now, offer, cancel, see_cancelled, close, next, panics, step,
  run, Reach, start, more,
}
use ocfl_index.Async.OneTask.{in_flight, one_task, offer_never_blocks, close_after_stop}
use ocfl_index.Async.Progress.{steps_left, IsReady, accepted_completes, stranded}

abbrev task : Task
task = record { name = bytes "index"; id = 1 }

abbrev other : Task
other = record { name = []; id = 2 }

abbrev accepted : Async
accepted = record new_async { token = true; offered = some task }

abbrev queued : Async
queued = record new_async { token = true; task_ch = some task }

abbrev cancelled : Async
cancelled = record new_async { cancelled = true }

abbrev ended : Async
ended = record new_async { cancelled = true; worker = stopped; done = true }

abbrev late : Async
late = record queued { cancelled = true; worker = stopped; done = true }

accepted-Reach : Reach accepted
accepted-Reach = more new_async accepted (try_now task) start (unfold step in refl)

queued-Reach : Reach queued
queued-Reach = more accepted queued offer accepted-Reach (unfold step in refl)

cancelled-Reach : Reach cancelled
cancelled-Reach = more new_async cancelled cancel start (unfold step in refl)

ended-Reach : Reach ended
ended-Reach = more cancelled ended see_cancelled cancelled-Reach (unfold step in refl)

one_task_example : in_flight queued ≤ 1
one_task_example = one_task queued queued-Reach

offer_never_blocks_example : step offer accepted ≡ next queued
offer_never_blocks_example = offer_never_blocks accepted task accepted-Reach refl refl

close_after_stop_example : step close ended ≡ panics
close_after_stop_example = close_after_stop ended ended-Reach refl

accepted_completes_example :
    (s' : Async) × (run (steps_left accepted.offered accepted.worker) accepted ≡ next s')
    × IsReady s'
accepted_completes_example = accepted_completes accepted accepted-Reach refl refl

stranded_example : (late.worker ≡ stopped) × (late.task_ch ≡ some task)
stranded_example = stranded cancel late late task refl refl (unfold step in refl)
