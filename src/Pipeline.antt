-- ===== src/Pipeline.antt =====
-- internal/pipeline/pipeline.go: Run, the fan-out and fan-in of a work queue over `numgos`
-- goroutines. The state says where each value of the setup function is: still to be added, with a
-- worker (that computes its result or waits for room in resultQ), with its result in resultQ, or
-- handed to resultFn. workQ has no buffer, so adding a value hands it to a free worker; resultQ has
-- room for `numgos` results. `workFn` is applied inside a step; `fails x` says that resultFn
-- returns an error on the result of x, after which it is not called again and `term` is closed.
pub mod Conserved
pub mod Ends
mod Witnesses
use ocfl_index.Base.{
  ℕ, zero, suc, ◌+◌, ◌≡◌, Bool, true, false, not, ◌&&◌, ◌||◌, Option, none, some, List, [], ◌∷◌,
  ◌++◌, ltb, if◌then◌else◌, length,
}

pub record Pipe {ℓ} (A : Type ℓ) : Type ℓ where
  pub pending : List A
  pub working : List A
  pub queue : List A
  pub delivered : List A
  pub dropped : List A
  pub terminated : Bool

-- `add`: addWork sends to workQ; `refuse`: addWork sees term closed and returns false; `work i`:
-- the i-th busy worker puts its result into resultQ; `deliver`: resultFn is called.
pub data Event : Type 0 where
  add : Event
  refuse : Event
  work : ℕ → Event
  deliver : Event

abbrev pub start {ℓ} : {A : Type ℓ} → List A → Pipe A
start xs = record {
  pending = xs;
  working = [];
  queue = [];
  delivered = [];
  dropped = [];
  terminated = false;
}

-- A worker and the others.
unfoldable pub pick {ℓ} : {A : Type ℓ} → ℕ → List A → Option (A × List A)
pick i [] = none
pick zero (x ∷ xs) = some (x, xs)
pick (suc i) (x ∷ xs) = elim (pick i xs) [ none ↦ none | some p ↦ some (p.0, x ∷ p.1) ]

module _ {ℓ} {A : Type ℓ} (numgos : ℕ) (fails : A → Bool) where
  pub add_work : List A → Pipe A → Option (Pipe A)
  add_work [] s = none
  add_work (x ∷ xs) s =
      if ltb (length s.working) numgos
      then some (record s { pending = xs; working = x ∷ s.working })
      else none

  pub refuse_work : List A → Pipe A → Option (Pipe A)
  refuse_work [] s = none
  refuse_work (x ∷ xs) s =
      if s.terminated then some (record s { pending = xs; dropped = x ∷ s.dropped }) else none

  pub put_result : Option (A × List A) → Pipe A → Option (Pipe A)
  put_result none s = none
  put_result (some p) s =
      if ltb (length s.queue) numgos
      then some (record s { working = p.1; queue = s.queue ++ (p.0 ∷ []) })
      else none

  -- The last result that was handed over stands first in `delivered`.
  pub call_result : List A → Pipe A → Option (Pipe A)
  call_result [] s = none
  call_result (x ∷ q) s =
      if s.terminated
      then none
      else some (record s { queue = q; delivered = x ∷ s.delivered; terminated = fails x })

  unfoldable pub step : Event → Pipe A → Option (Pipe A)
  unfolding add_work refuse_work put_result call_result
  step add s = add_work s.pending s
  step refuse s = refuse_work s.pending s
  step (work i) s = put_result (pick i s.working) s
  step deliver s = call_result s.queue s

  pub data Reach (xs : List A) : Pipe A → Type ℓ where
    here : Reach xs (start xs)
    more : (s s' : Pipe A) (e : Event) → Reach xs s → step e s ≡ some s' → Reach xs s'
