-- ===== src/Pipeline/Witnesses.antt =====
-- Concrete runs for the theorems on the pipeline.
use ocfl_index.Base.{
  ℕ, ◌+◌, ◌*◌, ◌⊎◌, ◌≡◌, ◌≤◌, refl, Bool, true, List, [], ◌∷◌, arith, ◌==◌, length,
}
use ocfl_index.Pipeline.{Pipe, add, work, deliver, start, pick, step, Reach, here, more}
use ocfl_index.Pipeline.Conserved.{count_if, IsBounded, Reach-IsBounded}
use ocfl_index.Pipeline.Ends.{
  IsFinished, IsHalted, left, steps, Goes, finished_exact, run_ends, stuck_workers,
}

-- One goroutine, two values, and a resultFn that fails on 9.
abbrev fails : ℕ → Bool
fails n = n == 9

abbrev values : List ℕ
values = 4 ∷ 5 ∷ []

abbrev busy : Pipe ℕ
busy = record (start values) { pending = 5 ∷ []; working = 4 ∷ [] }

abbrev done : Pipe ℕ
done = record (start (4 ∷ [])) { pending = []; delivered = 4 ∷ [] }

abbrev stuck : Pipe ℕ
stuck = record (start []) {
  pending = 6 ∷ [];
  queue = 5 ∷ [];
  delivered = 9 ∷ [];
  terminated = true;
}

abbrev stuck_busy : Pipe ℕ
stuck_busy = record stuck { pending = []; working = 6 ∷ [] }

busy-Reach : Reach 1 fails values busy
busy-Reach = more (start values) busy add here (unfold step in refl)

abbrev one_busy : Pipe ℕ
one_busy = record (start []) { working = 4 ∷ [] }

abbrev one_queued : Pipe ℕ
one_queued = record (start []) { queue = 4 ∷ [] }

done-Reach : Reach 1 fails (4 ∷ []) done
done-Reach =
    more one_queued done deliver
      (more one_busy one_queued (work 0)
        (more (start (4 ∷ [])) one_busy add here (unfold step in refl)) (unfold step pick in refl))
      (unfold step in refl)

done-IsFinished : IsFinished done
done-IsFinished = record { pending = refl; working = refl; queue = refl }

Reach-IsBounded_example : IsBounded 1 fails busy
Reach-IsBounded_example = Reach-IsBounded 1 fails values busy busy-Reach

finished_exact_example : count_if fails done.delivered ≡ count_if fails (4 ∷ [])
finished_exact_example = finished_exact 1 fails (4 ∷ []) done fails done-Reach done-IsFinished refl

run_ends_example :
    (steps 1 fails busy-Reach + left busy ≤ 3 * length values)
    × (Goes 1 fails busy ⊎ (IsFinished busy ⊎ IsHalted 1 fails busy))
run_ends_example = run_ends 1 fails values busy busy-Reach (omega arith)

stuck_workers_example :
    (stuck_busy.terminated ≡ true)
    × (length stuck_busy.queue ≡ 1)
    × (length stuck.working ≤ length stuck_busy.working)
stuck_workers_example = stuck_workers 1 fails add stuck stuck_busy refl refl (unfold step in refl)
