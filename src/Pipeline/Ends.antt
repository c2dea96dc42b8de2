-- ===== src/Pipeline/Ends.antt =====
-- How a run ends.
use ocfl_index.Base.{
  ℕ, suc, ◌+◌, ◌*◌, ◌≡◌, ◌≤◌, refl, ap, Bool, true, false, Option, none, some, List, [], ◌∷◌, ◌++◌,
  arith, length, Option-cases, Bool-cases, ◌⊎◌, inl, inr, ltb, length-append,
}
use ocfl_index.Pipeline.{
  Pipe, Event, add, refuse, work, deliver, pick, add_work, refuse_work, put_result, call_result,
  step, Reach, here, more,
}
use ocfl_index.Pipeline.Conserved.{count_if, pick-length, Reach-total, Reach-IsBounded}

-- Nothing is left to do.
pub record IsFinished {ℓ} {A : Type ℓ} (s : Pipe A) : Type ℓ where
  pub pending : s.pending ≡ []
  pub working : s.working ≡ []
  pub queue : s.queue ≡ []

-- The steps that are left: three for each value to add, two for one with a worker, one for a result.
abbrev pub left {ℓ} : {A : Type ℓ} → Pipe A → ℕ
left s = 3 * length s.pending + 2 * length s.working + length s.queue

module _ {ℓ} {A : Type ℓ} (numgos : ℕ) (fails : A → Bool) where
  count-nil : (p : A → Bool) (xs : List A) → length xs ≡ 0 → count_if p xs ≡ 0
  unfolding count_if
  count-nil p [] h = refl
  count-nil p (x ∷ xs) h = absurd (omega (arith, h))

  -- A run that has finished without an error of resultFn has called resultFn exactly once for each
  -- value of the setup function: as many values satisfy a test among those it was called for as
  -- among those that were given.
  pub finished_exact :
      (xs : List A) (s : Pipe A) (p : A → Bool)
      → Reach numgos fails xs s
      → IsFinished s
      → s.terminated ≡ false
      → count_if p s.delivered ≡ count_if p xs
  finished_exact xs s p r f t =
      let d = count-nil p s.dropped ((Reach-IsBounded numgos fails xs s r).dropped t) in
      let e = Reach-total numgos fails xs s p r in
      let a = count-nil p s.pending (ap length f.pending) in
      let b = count-nil p s.working (ap length f.working) in
      let c = count-nil p s.queue (ap length f.queue) in omega arith

  work-left :
      (i : ℕ) (s s' : Pipe A) → step numgos fails (work i) s ≡ some s' → suc (left s') ≤ left s
  unfolding step put_result
  work-left i s s' h = elim (Option-cases (pick i s.working)) [
    | inl e ↦ cc (rw (e, put_result) at h)
    | inr ((x, r), e) ↦ ground (
      arith,
      pick-length i s.working x r e,
      length-append s.queue (x ∷ []),
      rw (e, put_result) at h,
    )
  ]

  add-left :
      (ys : List A) (s s' : Pipe A)
      → s.pending ≡ ys
      → add_work numgos fails ys s ≡ some s'
      → suc (left s') ≤ left s
  unfolding add_work
  add-left [] s s' e h = cc
  add-left (x ∷ ys) s s' e h = ground arith

  refuse-left :
      (ys : List A) (s s' : Pipe A)
      → s.pending ≡ ys
      → refuse_work numgos fails ys s ≡ some s'
      → suc (left s') ≤ left s
  unfolding refuse_work
  refuse-left [] s s' e h = cc
  refuse-left (x ∷ ys) s s' e h = ground arith

  call-left :
      (ys : List A) (s s' : Pipe A)
      → s.queue ≡ ys
      → call_result numgos fails ys s ≡ some s'
      → suc (left s') ≤ left s
  unfolding call_result
  call-left [] s s' e h = cc
  call-left (x ∷ ys) s s' e h = ground arith

  step-left : (e : Event) (s s' : Pipe A) → step numgos fails e s ≡ some s' → suc (left s') ≤ left s
  unfolding step
  step-left add s s' h = add-left s.pending s s' refl h
  step-left refuse s s' h = refuse-left s.pending s s' refl h
  step-left (work i) s s' h = work-left i s s' h
  step-left deliver s s' h = call-left s.queue s s' refl h

  -- The number of steps of a run.
  abbrev pub steps : {xs : List A} {s : Pipe A} → Reach numgos fails xs s → ℕ
  steps here = 0
  steps (more s s' e r h) = suc (steps r)

  steps-left :
      (xs : List A) (s : Pipe A) (r : Reach numgos fails xs s) → steps r + left s ≤ 3 * length xs
  steps-left xs s here = omega arith
  steps-left xs s (more s0 s1 e r h) = omega (arith, steps-left xs s0 r, step-left e s0 s1 h)

  -- resultFn has failed, and what is left stays: results that no one reads, and workers without room
  -- for theirs.
  pub record IsHalted (s : Pipe A) : Type ℓ where
    pub terminated : s.terminated ≡ true
    pub pending : s.pending ≡ []
    pub held : (s.working ≡ []) ⊎ (length s.queue ≡ numgos)

  -- Some step is possible.
  abbrev pub Goes : Pipe A → Type ℓ
  Goes s = (e : Event) × (s' : Pipe A) × (step numgos fails e s ≡ some s')

  -- What keeps a run going that is not terminated.
  Goes-normal :
      (ps ws qs : List A) (s : Pipe A)
      → 1 ≤ numgos
      → s.pending ≡ ps
      → s.working ≡ ws
      → s.queue ≡ qs
      → s.terminated ≡ false
      → Goes s ⊎ IsFinished s
  unfolding step add_work put_result call_result pick
  Goes-normal ps ws (q ∷ qs) s n a b c t = inl (
    deliver,
    record s { queue = qs; delivered = q ∷ s.delivered; terminated = fails q },
    ground arith,
  )
  Goes-normal ps (w ∷ ws) [] s n a b c t =
      inl (work 0, record s { working = ws; queue = s.queue ++ (w ∷ []) }, ground arith)
  Goes-normal (x ∷ ps) [] [] s n a b c t =
      inl (add, record s { pending = ps; working = x ∷ s.working }, ground arith)
  Goes-normal [] [] [] s n a b c t = inr (record { pending = a; working = b; queue = c })

  -- What keeps a run going after an error of resultFn.
  Goes-terminated :
      (ps ws : List A) (s : Pipe A)
      → s.pending ≡ ps
      → s.working ≡ ws
      → s.terminated ≡ true
      → length s.queue ≤ numgos
      → Goes s ⊎ IsHalted s
  unfolding step refuse_work put_result pick
  Goes-terminated (x ∷ ps) ws s a b t q =
      inl (refuse, record s { pending = ps; dropped = x ∷ s.dropped }, ground arith)
  Goes-terminated [] [] s a b t q = inr (record { terminated = t; pending = a; held = inl b })
  Goes-terminated [] (w ∷ ws) s a b t q = elim (Bool-cases (ltb (length s.queue) numgos)) [
    | inl room ↦
        inl (work 0, record s { working = ws; queue = s.queue ++ (w ∷ []) }, rw (b, room) refl)
    | inr full ↦ inr (record { terminated = t; pending = a; held = inr (ground (arith, full, q)) })
  ]

  -- Let there be at least one goroutine, as run makes sure of. At every point of every run, whether
  -- resultFn has failed or not, the steps made so far and the measure `left` of its state are
  -- together at most three for each value. A further step is possible there, or the run has
  -- finished, or resultFn has failed, no value is left to add, and no worker is busy or resultQ is
  -- full.
  pub run_ends :
      (xs : List A) (s : Pipe A) (r : Reach numgos fails xs s)
      → 1 ≤ numgos
      → (steps r + left s ≤ 3 * length xs) × (Goes s ⊎ (IsFinished s ⊎ IsHalted s))
  run_ends xs s r n = (
    steps-left xs s r,
    elim (Bool-cases s.terminated) [
      | inl t ↦
          elim (Goes-terminated s.pending s.working s refl refl t
            (Reach-IsBounded numgos fails xs s r).queue) [ inl g ↦ inl g | inr h ↦ inr (inr h) ]
      | inr t ↦ elim (Goes-normal s.pending s.working s.queue s n refl refl refl t) [
        | inl g ↦ inl g
        | inr f ↦ inr (inl f)
      ]
    ],
  )

  -- Terminated, with no room in resultQ, and no fewer workers busy than before.
  abbrev Stuck : Pipe A → Pipe A → Type 0
  Stuck s s' =
      (s'.terminated ≡ true) × (length s'.queue ≡ numgos) × (length s.working ≤ length s'.working)

  Stuck-add :
      (ys : List A) (s s' : Pipe A)
      → s.terminated ≡ true
      → length s.queue ≡ numgos
      → add_work numgos fails ys s ≡ some s'
      → Stuck s s'
  unfolding add_work
  Stuck-add [] s s' t q h = cc
  Stuck-add (x ∷ ys) s s' t q h = ground arith

  Stuck-refuse :
      (ys : List A) (s s' : Pipe A)
      → s.terminated ≡ true
      → length s.queue ≡ numgos
      → refuse_work numgos fails ys s ≡ some s'
      → Stuck s s'
  unfolding refuse_work
  Stuck-refuse [] s s' t q h = cc
  Stuck-refuse (x ∷ ys) s s' t q h = ground arith

  Stuck-put :
      (o : Option (A × List A)) (s s' : Pipe A)
      → s.terminated ≡ true
      → length s.queue ≡ numgos
      → put_result numgos fails o s ≡ some s'
      → Stuck s s'
  unfolding put_result
  Stuck-put none s s' t q h = cc
  Stuck-put (some p) s s' t q h = ground arith

  Stuck-call :
      (ys : List A) (s s' : Pipe A)
      → s.terminated ≡ true
      → call_result numgos fails ys s ≡ some s'
      → Stuck s s'
  unfolding call_result
  Stuck-call [] s s' t h = cc
  Stuck-call (x ∷ ys) s s' t h = cc (rw t at h)

  -- Once resultFn has failed and resultQ is full, no step frees a worker, and both stay so: the
  -- workers' results have nowhere to go, and resultQ is not read again.
  pub stuck_workers :
      (e : Event) (s s' : Pipe A)
      → s.terminated ≡ true
      → length s.queue ≡ numgos
      → step numgos fails e s ≡ some s'
      → (s'.terminated ≡ true) × (length s'.queue ≡ numgos) × (length s.working ≤ length s'.working)
  unfolding step
  stuck_workers add s s' t q h = Stuck-add s.pending s s' t q h
  stuck_workers refuse s s' t q h = Stuck-refuse s.pending s s' t q h
  stuck_workers (work i) s s' t q h = Stuck-put (pick i s.working) s s' t q h
  stuck_workers deliver s s' t q h = Stuck-call s.queue s s' t h
