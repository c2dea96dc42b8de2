-- ===== src/Pipeline/Conserved.antt =====
-- No value is lost and none is handled twice.
use ocfl_index.Base.{
  ℕ, zero, suc, ◌+◌, ◌≡◌, ◌≤◌, refl, ◌∙◌, Bool, false, some, List, [], ◌∷◌, ◌++◌, arith,
  if◌then◌else◌, length, Option-cases, inl, inr, length-append,
}
use ocfl_index.Pipeline.{
  Pipe, Event, add, refuse, work, deliver, pick, add_work, refuse_work, put_result, call_result,
  step, Reach, here, more,
}

-- How many elements satisfy a test.
unfoldable pub count_if {ℓ} : {A : Type ℓ} → (A → Bool) → List A → ℕ
count_if p [] = 0
count_if p (x ∷ xs) = if p x then suc (count_if p xs) else count_if p xs

count_if-append {ℓ} :
    {A : Type ℓ} (p : A → Bool) (xs ys : List A)
    → count_if p (xs ++ ys) ≡ count_if p xs + count_if p ys
unfolding count_if
count_if-append p [] ys = omega arith
count_if-append p (x ∷ xs) ys = ground (arith, count_if-append p xs ys)

pick-count {ℓ} :
    {A : Type ℓ} (p : A → Bool) (i : ℕ) (xs : List A) (x : A) (r : List A)
    → pick i xs ≡ some (x, r)
    → count_if p xs ≡ count_if p (x ∷ r)
unfolding count_if pick
pick-count p i [] x r h = cc
pick-count p zero (y ∷ ys) x r h = ground arith
pick-count p (suc i) (y ∷ ys) x r h = elim (Option-cases (pick i ys)) [
  | inl e ↦ cc (rw (e, pick) at h)
  | inr ((z, t), e) ↦ let k = rw (e, pick) at h in ground (arith, pick-count p i ys z t e, k)
]

pub pick-length {ℓ} :
    {A : Type ℓ} (i : ℕ) (xs : List A) (x : A) (r : List A)
    → pick i xs ≡ some (x, r)
    → length xs ≡ suc (length r)
unfolding pick
pick-length i [] x r h = cc
pick-length zero (y ∷ ys) x r h = ground arith
pick-length (suc i) (y ∷ ys) x r h = elim (Option-cases (pick i ys)) [
  | inl e ↦ cc (rw (e, pick) at h)
  | inr ((z, t), e) ↦ ground (arith, pick-length i ys z t e, rw (e, pick) at h)
]

module _ {ℓ} {A : Type ℓ} (numgos : ℕ) (fails : A → Bool) where
  -- The values in all places of a state that satisfy a test.
  abbrev pub total : (A → Bool) → Pipe A → ℕ
  total p s =
      count_if p s.pending
      + count_if p s.working
      + count_if p s.queue
      + count_if p s.delivered
      + count_if p s.dropped

  put_result-total :
      (p : A → Bool) (i : ℕ) (s s' : Pipe A)
      → step numgos fails (work i) s ≡ some s'
      → total p s' ≡ total p s
  unfolding step put_result count_if
  put_result-total p i s s' h = elim (Option-cases (pick i s.working)) [
    | inl e ↦ cc (rw e at h)
    | inr ((x, r), e) ↦ ground (
      arith,
      pick-count p i s.working x r e,
      count_if-append p s.queue (x ∷ []),
      rw (e, put_result) at h,
    )
  ]

  add-total :
      (p : A → Bool) (ys : List A) (s s' : Pipe A)
      → s.pending ≡ ys
      → add_work numgos fails ys s ≡ some s'
      → total p s' ≡ total p s
  unfolding add_work count_if
  add-total p [] s s' e h = cc
  add-total p (x ∷ ys) s s' e h = ground arith

  refuse-total :
      (p : A → Bool) (ys : List A) (s s' : Pipe A)
      → s.pending ≡ ys
      → refuse_work numgos fails ys s ≡ some s'
      → total p s' ≡ total p s
  unfolding refuse_work count_if
  refuse-total p [] s s' e h = cc
  refuse-total p (x ∷ ys) s s' e h = ground arith

  call-total :
      (p : A → Bool) (ys : List A) (s s' : Pipe A)
      → s.queue ≡ ys
      → call_result numgos fails ys s ≡ some s'
      → total p s' ≡ total p s
  unfolding call_result count_if
  call-total p [] s s' e h = cc
  call-total p (x ∷ ys) s s' e h = ground arith

  step-total :
      (p : A → Bool) (e : Event) (s s' : Pipe A)
      → step numgos fails e s ≡ some s'
      → total p s' ≡ total p s
  unfolding step
  step-total p add s s' h = add-total p s.pending s s' refl h
  step-total p refuse s s' h = refuse-total p s.pending s s' refl h
  step-total p (work i) s s' h = put_result-total p i s s' h
  step-total p deliver s s' h = call-total p s.queue s s' refl h

  -- In every state that is reached, each value of the setup function is in exactly one place: as
  -- many values as were given satisfy a test, counted over those still to be added, with a worker,
  -- in resultQ, handed to resultFn and refused.
  pub Reach-total :
      (xs : List A) (s : Pipe A) (p : A → Bool)
      → Reach numgos fails xs s
      → count_if p s.pending
          + count_if p s.working
          + count_if p s.queue
          + count_if p s.delivered
          + count_if p s.dropped
        ≡ count_if p xs
  unfolding count_if
  Reach-total xs s p here = omega arith
  Reach-total xs s p (more s0 s1 e r h) = step-total p e s0 s1 h ∙ Reach-total xs s0 p r

  -- Neither the workers nor the results hold more values than there are goroutines; nothing is
  -- refused before an error; and resultFn returned an error once if the run is terminated.
  pub record IsBounded (s : Pipe A) : Type ℓ where
    pub working : length s.working ≤ numgos
    pub queue : length s.queue ≤ numgos
    pub dropped : s.terminated ≡ false → length s.dropped ≡ 0
    pub failed : count_if fails s.delivered ≡ (if s.terminated then 1 else 0)

  work-IsBounded :
      (i : ℕ) (s s' : Pipe A) → IsBounded s → step numgos fails (work i) s ≡ some s' → IsBounded s'
  unfolding step
  work-IsBounded i s s' b h = elim (Option-cases (pick i s.working)) [
    | inl e ↦ cc (rw e at h)
    | inr ((x, r), e) ↦
        let k = rw e at h in
        let n = pick-length i s.working x r e in
        let q = length-append s.queue (x ∷ []) in
        record {
          working = ground (arith, n, k, b.working);
          queue = ground (arith, q, k, b.queue);
          dropped = λ t. ground (arith, k, b.dropped);
          failed = ground (arith, k, b.failed);
        }
  ]

  add-IsBounded :
      (ys : List A) (s s' : Pipe A)
      → IsBounded s
      → add_work numgos fails ys s ≡ some s'
      → IsBounded s'
  unfolding add_work
  add-IsBounded [] s s' b h = cc
  add-IsBounded (x ∷ ys) s s' b h = record {
    working = ground (arith, b.working);
    queue = ground (arith, b.queue);
    dropped = λ t. ground (arith, b.dropped);
    failed = ground (arith, b.failed);
  }

  refuse-IsBounded :
      (ys : List A) (s s' : Pipe A)
      → IsBounded s
      → refuse_work numgos fails ys s ≡ some s'
      → IsBounded s'
  unfolding refuse_work
  refuse-IsBounded [] s s' b h = cc
  refuse-IsBounded (x ∷ ys) s s' b h = record {
    working = ground (arith, b.working);
    queue = ground (arith, b.queue);
    dropped = λ t. ground (arith, b.dropped);
    failed = ground (arith, b.failed);
  }

  call-IsBounded :
      (ys : List A) (s s' : Pipe A)
      → s.queue ≡ ys
      → IsBounded s
      → call_result numgos fails ys s ≡ some s'
      → IsBounded s'
  unfolding call_result count_if
  call-IsBounded [] s s' e b h = cc
  call-IsBounded (x ∷ ys) s s' e b h = record {
    working = ground (arith, b.working);
    queue = ground (arith, b.queue);
    dropped = λ t. ground (arith, b.dropped);
    failed = ground (arith, b.failed);
  }

  step-IsBounded :
      (e : Event) (s s' : Pipe A) → IsBounded s → step numgos fails e s ≡ some s' → IsBounded s'
  unfolding step
  step-IsBounded add s s' b h = add-IsBounded s.pending s s' b h
  step-IsBounded refuse s s' b h = refuse-IsBounded s.pending s s' b h
  step-IsBounded (work i) s s' b h = work-IsBounded i s s' b h
  step-IsBounded deliver s s' b h = call-IsBounded s.queue s s' refl b h

  -- In every state that is reached, the busy workers and the results in resultQ are at most
  -- `numgos` each; nothing has been refused if resultFn has not failed; and resultFn has failed
  -- once if the run is terminated, and never otherwise.
  pub Reach-IsBounded : (xs : List A) (s : Pipe A) → Reach numgos fails xs s → IsBounded s
  unfolding count_if
  Reach-IsBounded xs s here = record {
    working = omega arith;
    queue = omega arith;
    dropped = λ t. refl;
    failed = refl;
  }
  Reach-IsBounded xs s (more s0 s1 e r h) = step-IsBounded e s0 s1 (Reach-IsBounded xs s0 r) h
