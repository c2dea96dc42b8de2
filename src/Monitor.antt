-- ===== src/Monitor.antt =====
-- internal/index/async.go: monitor, which forwards log messages to the connected clients. A request
-- pointer is a number, and the map of sessions lists them; `runLoop` is a step for each message
-- that it receives. Whether a stream takes a message belongs to package connect: each message
-- comes with the test `sends`.
pub mod Bounds
pub mod Calls
pub mod Sessions
mod Witnesses
use ocfl_index.Base.{
  ℕ, zero, suc, ◌+◌, ◌≡◌, Bool, true, false, not, ◌&&◌, ◌||◌, Option, none, some, List, [], ◌∷◌,
  ◌==◌, leb, if◌then◌else◌, length,
}
use ocfl_index.Text.{Str}

abbrev pub mon_max_sessions : ℕ
mon_max_sessions = 64

abbrev pub mon_msg_buff_len : ℕ
mon_msg_buff_len = 64

-- What runLoop writes to the error channel of a session.
pub data SessionErr : Type 0 where
  max_sessions send_failed : SessionErr

pub record Monitor : Type 0 where
  pub sessions : List ℕ
  pub done : Bool
  pub ended : Bool

abbrev pub new_monitor : Monitor
new_monitor = record { sessions = []; done = false; ended = false }

-- What the loop receives.
pub data Signal : Type 0 where
  sess_init : ℕ → Signal
  sess_free : ℕ → Signal
  msg : Str → (ℕ → Bool) → Signal
  close : Signal
  see_done : Signal

-- A write of the loop: a message on a session's stream, or an error on its error channel.
pub data Write : Type 0 where
  sent : ℕ → Str → Write
  errored : ℕ → SessionErr → Write

unfoldable pub has_session : ℕ → List ℕ → Bool
has_session r [] = false
has_session r (q ∷ qs) = q == r || has_session r qs

-- m.sessions[s.rq] = ...
unfoldable pub put_session : ℕ → List ℕ → List ℕ
unfolding has_session
put_session r qs = if has_session r qs then qs else r ∷ qs

-- delete(m.sessions, r)
unfoldable pub del_session : ℕ → List ℕ → List ℕ
del_session r [] = []
del_session r (q ∷ qs) = let rest = del_session r qs in if q == r then rest else q ∷ rest

abbrev pub send_to : Str → (ℕ → Bool) → ℕ → Write
send_to m sends q = if sends q then sent q m else errored q send_failed

unfoldable pub broadcast : Str → (ℕ → Bool) → List ℕ → List Write
broadcast m sends [] = []
broadcast m sends (q ∷ qs) = send_to m sends q ∷ broadcast m sends qs

pub record Stepped : Type 0 where
  pub monitor : Monitor
  pub writes : List Write

-- One round of runLoop; a loop that has returned receives nothing.
unfoldable pub round : Signal → Monitor → Stepped
unfolding put_session del_session broadcast
round (sess_init r) m =
    if leb mon_max_sessions (length m.sessions)
    then record { monitor = m; writes = errored r max_sessions ∷ [] }
    else record { monitor = record m { sessions = put_session r m.sessions }; writes = [] }
round (sess_free r) m = record {
  monitor = record m { sessions = del_session r m.sessions };
  writes = [];
}
round (msg t sends) m = record { monitor = m; writes = broadcast t sends m.sessions }
round close m = record { monitor = record m { done = true }; writes = [] }
round see_done m =
    if m.done
    then record { monitor = record m { sessions = []; ended = true }; writes = [] }
    else record { monitor = m; writes = [] }

unfoldable pub run_loop : List Signal → Monitor → Monitor
unfolding round
run_loop [] m = m
run_loop (s ∷ ss) m = if m.ended then m else run_loop ss (round s m).monitor
