-- ===== src/Monitor/Bounds.antt =====
-- How many sessions the monitor holds, and who gets its messages.
use ocfl_index.Base.{
  ℕ, suc, ◌≤◌, ◌≡◌, refl, ◌∙◌, Bool, true, false, not, ◌&&◌, ◌||◌, List, [], ◌∷◌, arith, ◌==◌, leb,
  ltb, if◌then◌else◌, length, Bool-cases, inl, inr,
}
use ocfl_index.Text.{Str}
use ocfl_index.Monitor.{
  mon_max_sessions, max_sessions, Monitor, new_monitor, Signal, sess_init, sess_free, msg, close,
  see_done, Write, sent, errored, has_session, put_session, del_session, broadcast, Stepped, round,
  run_loop,
}

-- A map's keys are distinct.
abbrev pub AllDistinct : List ℕ → Type 0
AllDistinct [] = Unit
AllDistinct (q ∷ qs) = (has_session q qs ≡ false) × AllDistinct qs

length-del : (r : ℕ) (qs : List ℕ) → length (del_session r qs) ≤ length qs
unfolding del_session
length-del r [] = omega arith
length-del r (q ∷ qs) = ground (arith, length-del r qs)

has-del :
    (x r : ℕ) (qs : List ℕ) → has_session x (del_session r qs) ≡ (not (r == x) && has_session x qs)
unfolding has_session del_session
has-del x r [] = ground arith
has-del x r (q ∷ qs) = ground (arith, has-del x r qs)

AllDistinct-del : (r : ℕ) (qs : List ℕ) → AllDistinct qs → AllDistinct (del_session r qs)
unfolding del_session
AllDistinct-del r [] h = tt
AllDistinct-del r (q ∷ qs) h = elim (Bool-cases (q == r)) [
  | inl e ↦ rw e (AllDistinct-del r qs h.1)
  | inr e ↦ rw e (has-del q r qs ∙ ground arith, AllDistinct-del r qs h.1)
]

pub record IsBounded (m : Monitor) : Type 0 where
  pub bounded : length m.sessions ≤ mon_max_sessions
  pub distinct : AllDistinct m.sessions

put_bounded : (r : ℕ) (qs : List ℕ) → AllDistinct qs → AllDistinct (put_session r qs)
unfolding put_session
put_bounded r qs h = elim (Bool-cases (has_session r qs)) [ inl e ↦ rw e h | inr e ↦ rw e (e, h) ]

length-put : (r : ℕ) (qs : List ℕ) → length (put_session r qs) ≤ suc (length qs)
unfolding put_session
length-put r qs = ground arith

if_prop {ℓ κ} :
    {A : Type ℓ} (P : A → Type κ) (b : Bool) {x y : A} → P x → P y → P (if b then x else y)
if_prop P true p q = p
if_prop P false p q = q

round-IsBounded : (s : Signal) (m : Monitor) → IsBounded m → IsBounded (round s m).monitor
unfolding round
round-IsBounded (sess_init r) m h = elim (Bool-cases (leb mon_max_sessions (length m.sessions))) [
  | inl e ↦ rw e h
  | inr e ↦ rw e (record {
    bounded = ground (arith, length-put r m.sessions);
    distinct = put_bounded r m.sessions h.distinct;
  })
]
round-IsBounded (sess_free r) m h = record {
  bounded = omega (arith, h.bounded, length-del r m.sessions);
  distinct = AllDistinct-del r m.sessions h.distinct;
}
round-IsBounded (msg t sends) m h = h
round-IsBounded close m h = record { bounded = h.bounded; distinct = h.distinct }
round-IsBounded see_done m h =
    if_prop (λ (r : Stepped). IsBounded r.monitor) m.done
      (record { bounded = omega arith; distinct = tt }) h

run_loop-IsBounded : (ss : List Signal) (m : Monitor) → IsBounded m → IsBounded (run_loop ss m)
unfolding run_loop
run_loop-IsBounded [] m h = h
run_loop-IsBounded (s ∷ ss) m h =
    if_prop IsBounded m.ended h (run_loop-IsBounded ss (round s m).monitor (round-IsBounded s m h))

-- Whatever the loop receives, it never holds more than 64 sessions, and no session twice.
pub sessions-IsBounded : (ss : List Signal) → IsBounded (run_loop ss new_monitor)
sessions-IsBounded ss =
    run_loop-IsBounded ss new_monitor (record { bounded = omega arith; distinct = tt })

has-put : (x r : ℕ) (qs : List ℕ) → has_session x (put_session r qs) ≡ (r == x || has_session x qs)
unfolding has_session put_session
has-put x r qs = ground arith

-- The session was written the message.
unfoldable pub was_sent : ℕ → List Write → Bool
was_sent q [] = false
was_sent q (sent p t ∷ ws) = p == q || was_sent q ws
was_sent q (errored p e ∷ ws) = was_sent q ws

was_sent-broadcast :
    (q : ℕ) (t : Str) (sends : ℕ → Bool) (qs : List ℕ)
    → was_sent q (broadcast t sends qs) ≡ (has_session q qs && sends q)
unfolding was_sent broadcast has_session
was_sent-broadcast q t sends [] = refl
was_sent-broadcast q t sends (p ∷ qs) = elim (Bool-cases (p == q)) [
  | inl e ↦
      let same : p ≡ q = ground arith in rw same (ground (arith, was_sent-broadcast q t sends qs))
  | inr e ↦ ground (arith, was_sent-broadcast q t sends qs)
]

-- A request for a session is accepted, and then connected, exactly if fewer than 64 sessions are
-- held, and else is answered with ErrAsyncMonitorMaxSessions; a session that is freed is not
-- connected; no other session is touched by either. A message is written to exactly the connected
-- sessions whose streams take it, and disconnects none.
pub round_exact :
    (m : Monitor) (r q : ℕ) (t : Str) (sends : ℕ → Bool)
    → (has_session q (round (sess_init r) m).monitor.sessions
        ≡ ((ltb (length m.sessions) 64 && (r == q)) || has_session q m.sessions))
      × ((round (sess_init r) m).writes
          ≡ (if ltb (length m.sessions) 64 then [] else errored r max_sessions ∷ []))
      × (has_session q (round (sess_free r) m).monitor.sessions
          ≡ (not (r == q) && has_session q m.sessions))
      × (was_sent q (round (msg t sends) m).writes ≡ (has_session q m.sessions && sends q))
      × ((round (msg t sends) m).monitor ≡ m)
unfolding round
round_exact m r q t sends = (
  ground (arith, has-put q r m.sessions),
  ground arith,
  has-del q r m.sessions,
  was_sent-broadcast q t sends m.sessions,
  refl,
)
