-- ===== src/Monitor/Sessions.antt =====
-- What a call of Handle leaves behind in the loop.
use ocfl_index.Base.{
  ℕ, ◌≡◌, refl, sym, ap, Bool, true, false, none, some, List, [], ◌∷◌, ◌++◌, arith, if◌then◌else◌,
}
use ocfl_index.Monitor.{
  max_sessions, send_failed, Monitor, new_monitor, Signal, sess_init, sess_free, msg, close,
  see_done, has_session, del_session, round, run_loop,
}
use ocfl_index.Monitor.Calls.{
  Heard, task_ended, session_told, context_done, monitor_done, Left, session_error, server_closed,
  listen, handle, gives_back,
}

-- A loop that has ended holds no session.
abbrev HoldsNone : Monitor → Type 0
HoldsNone m = m.ended ≡ true → m.sessions ≡ []

round-HoldsNone : (s : Signal) (m : Monitor) → m.ended ≡ false → HoldsNone (round s m).monitor
unfolding round
round-HoldsNone (sess_init r) m h = ground arith
round-HoldsNone (sess_free r) m h = ground arith
round-HoldsNone (msg t sends) m h = ground arith
round-HoldsNone close m h = ground arith
round-HoldsNone see_done m h = ground arith

if_case :
    {A : Type 0} (P : A → Type 0) (b : Bool) {x y : A}
    → (b ≡ true → P x)
    → (b ≡ false → P y)
    → P (if b then x else y)
if_case P true p q = p refl
if_case P false p q = q refl

-- A loop that has ended receives nothing more.
stays : (ss : List Signal) (m : Monitor) → m.ended ≡ true → run_loop ss m ≡ m
unfolding run_loop
stays [] m e = refl
stays (s ∷ ss) m e = if_case (λ n. n ≡ m) m.ended (λ k. refl) (λ k. cc)

run_loop-HoldsNone : (ss : List Signal) (m : Monitor) → HoldsNone m → HoldsNone (run_loop ss m)
unfolding run_loop
run_loop-HoldsNone [] m h = h
run_loop-HoldsNone (s ∷ ss) m h =
    if_case HoldsNone m.ended (λ e. h)
      (λ e. run_loop-HoldsNone ss (round s m).monitor (round-HoldsNone s m e))

run_loop-append :
    (ss ts : List Signal) (m : Monitor) → run_loop (ss ++ ts) m ≡ run_loop ts (run_loop ss m)
unfolding run_loop
run_loop-append [] ts m = refl
run_loop-append (s ∷ ss) ts m =
    on_end m.ended m (run_loop (ss ++ ts) (round s m).monitor) (run_loop ss (round s m).monitor)
      (stays ts m) (run_loop-append ss ts (round s m).monitor)
  where
    on_end :
        (b : Bool) (x y z : Monitor)
        → (b ≡ true → run_loop ts x ≡ x)
        → y ≡ run_loop ts z
        → (if b then x else y) ≡ run_loop ts (if b then x else z)
    on_end true x y z p q = sym (p refl)
    on_end false x y z p q = q

has-del_same : (r : ℕ) (qs : List ℕ) → has_session r (del_session r qs) ≡ false
unfolding has_session del_session
has-del_same r [] = refl
has-del_same r (q ∷ qs) = ground (arith, has-del_same r qs)

freed :
    (r : ℕ) (m : Monitor)
    → HoldsNone m
    → has_session r (run_loop (sess_free r ∷ []) m).sessions ≡ false
unfolding run_loop round has_session
freed r m h =
    if_case (λ (n : Monitor). has_session r n.sessions ≡ false) m.ended (λ e. rw (h e) refl)
      (λ e. has-del_same r m.sessions)

signals :
    (r : ℕ) (hs : List Heard) (left : Left)
    → (listen r hs).1 ≡ some left
    → gives_back left ≡ true
    → (listen r hs).0 ≡ sess_free r ∷ []
unfolding listen
signals r [] left e g = cc
signals r (task_ended x ∷ hs) left e g = refl
signals r (session_told none ∷ hs) left e g = signals r hs left e g
signals r (session_told (some max_sessions) ∷ hs) left e g =
    let k : session_error max_sessions ≡ left = cc in cc (ap gives_back k, g)
signals r (session_told (some send_failed) ∷ hs) left e g = refl
signals r (context_done ∷ hs) left e g = refl
signals r (monitor_done ∷ hs) left e g =
    let k : server_closed ≡ left = cc in cc (ap gives_back k, g)

-- A call of Handle that returns, for another reason than that the monitor is full or shut down,
-- has asked for its session and then given it back, and once the loop has received this,
-- whatever it received before, it holds no such session.
pub handle-gives_back :
    (r : ℕ) (hs : List Heard) (left : Left) (ss : List Signal)
    → (handle r hs).1 ≡ some left
    → gives_back left ≡ true
    → ((handle r hs).0 ≡ sess_init r ∷ sess_free r ∷ [])
      × (has_session r (run_loop (ss ++ (sess_free r ∷ [])) new_monitor).sessions ≡ false)
unfolding handle
handle-gives_back r hs left ss e g = (
  ap (λ x. sess_init r ∷ x) (signals r hs left e g),
  rw (run_loop-append ss (sess_free r ∷ []) new_monitor)
      (freed r (run_loop ss new_monitor) (run_loop-HoldsNone ss new_monitor (λ e. cc))),
)
