-- ===== src/Monitor/Witnesses.antt =====
-- Concrete sessions for the theorems on the monitor.
use ocfl_index.Base.{◌≡◌, refl, false, none, some, ◌++◌, [], ◌∷◌}
use ocfl_index.Monitor.{new_monitor, sess_init, sess_free, has_session, run_loop}
use ocfl_index.Monitor.Calls.{listen, handle, context_done, session_told, context_error}
use ocfl_index.Monitor.Sessions.{handle-gives_back}
use ocfl_index.Monitor.Bounds.{IsBounded, sessions-IsBounded}

sessions-IsBounded_example :
    IsBounded (run_loop (sess_init 1 ∷ sess_init 2 ∷ sess_free 1 ∷ []) new_monitor)
sessions-IsBounded_example = sessions-IsBounded (sess_init 1 ∷ sess_init 2 ∷ sess_free 1 ∷ [])

left : (handle 2 (session_told none ∷ context_done ∷ [])).1 ≡ some context_error
unfolding handle listen
left = refl

handle-gives_back_example :
    ((handle 2 (session_told none ∷ context_done ∷ [])).0 ≡ sess_init 2 ∷ sess_free 2 ∷ [])
    × (has_session 2
          (run_loop ((sess_init 1 ∷ sess_init 2 ∷ []) ++ (sess_free 2 ∷ [])) new_monitor).sessions
        ≡ false)
handle-gives_back_example =
    handle-gives_back 2 (session_told none ∷ context_done ∷ []) context_error
      (sess_init 1 ∷ sess_init 2 ∷ []) left refl
