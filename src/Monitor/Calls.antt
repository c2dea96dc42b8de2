-- ===== src/Monitor/Calls.antt =====
-- Write and Handle of monitor: what they send to runLoop, and what they return. A call of Write
-- takes one of the cases of its select that are ready; Handle is given what it receives, in order.
use ocfl_index.Base.{
  ℕ, Bool, true, false, Option, none, some, List, [], ◌∷◌, ◌==◌, if◌then◌else◌, length,
}
use ocfl_index.Text.{Str}
use ocfl_index.Monitor.{SessionErr, max_sessions, send_failed, Signal, sess_init, sess_free}

-- strings.TrimRight(b, "\n")
keep_byte : ℕ → Str → Str
keep_byte c [] = if c == 10 then [] else c ∷ []
keep_byte c (d ∷ s) = c ∷ d ∷ s

unfoldable pub trim_newlines : Str → Str
unfolding keep_byte
trim_newlines [] = []
trim_newlines (c ∷ s) = keep_byte c (trim_newlines s)

-- Write: the text that goes to msgCh with the number returned, or none for ErrClosedPipe
unfoldable pub monitor_write : Bool → Str → Option (Str × ℕ)
unfolding trim_newlines
monitor_write true b = let t = trim_newlines b in some (t, length t)
monitor_write false b = none

-- What Handle's select receives.
pub data Heard : Type 0 where
  task_ended : Option Str → Heard
  session_told : Option SessionErr → Heard
  context_done : Heard
  monitor_done : Heard

-- What Handle returns.
pub data Left : Type 0 where
  task_result : Option Str → Left
  session_error : SessionErr → Left
  context_error : Left
  server_closed : Left

unfoldable pub listen : ℕ → List Heard → List Signal × Option Left
listen r [] = ([], none)
listen r (task_ended e ∷ hs) = (sess_free r ∷ [], some (task_result e))
listen r (session_told none ∷ hs) = listen r hs
listen r (session_told (some max_sessions) ∷ hs) = ([], some (session_error max_sessions))
listen r (session_told (some send_failed) ∷ hs) =
    (sess_free r ∷ [], some (session_error send_failed))
listen r (context_done ∷ hs) = (sess_free r ∷ [], some context_error)
listen r (monitor_done ∷ hs) = ([], some server_closed)

-- Handle: what it sends to runLoop, and what it returns once it does
unfoldable pub handle : ℕ → List Heard → List Signal × Option Left
unfolding listen
handle r hs = let (ss, left) = listen r hs in (sess_init r ∷ ss, left)

-- It returned after its session was set up, and not for the end of the monitor.
abbrev pub gives_back : Left → Bool
gives_back (task_result e) = true
gives_back (session_error max_sessions) = false
gives_back (session_error send_failed) = true
gives_back context_error = true
gives_back server_closed = false
