-- ===== src/Sls/Pipeline/Empties.antt =====
-- What the pipeline's operations do to the batch: tasks that end leave it alone, and a flush under
-- a deadline empties it, whatever becomes of its records.
use neon_rs.Base.{
  ℕ, ◌≡◌, refl, ◌∙◌, true, Option, none, some, List, [], ◌∷◌, arith, inl, inr, Bool-cases, is_empty,
  length, get_elem?,
}
use neon_rs.Sls.Config.{SlsConfig}
use neon_rs.Sls.Counters.{DropCounters}
use neon_rs.Sls.Batch.{len}
use neon_rs.Sls.Pipeline.{
  Task, Pipe, Outcome, granted, semaphore_closed, interrupted, Wait, Finish, finish_task,
  finish_tasks, resolve, acquired, used_up, spawn_flush, settle_task, run_task, dispatch,
  drop_shutdown, drop_failed,
}
use neon_rs.Sls.Send.{Attempt, Ending, running, delivered, lost}

settle_task-batch :
    (p : Pipe) (i n : ℕ) (ending : Ending) (d : DropCounters)
    → (settle_task p i n ending d).batch ≡ p.batch
unfolding settle_task
settle_task-batch p i n running d = refl
settle_task-batch p i n delivered d = refl
settle_task-batch p i n lost d = refl

run_task-batch :
    (config : SlsConfig) (p : Pipe) (i : ℕ) (script : List Attempt) (o : Option Task)
    → (run_task config p i script o).batch ≡ p.batch
unfolding run_task
run_task-batch config p i script none = refl
run_task-batch config p i script (some t) = settle_task-batch p i (length t.records) _ _

pub finish_task-batch :
    (config : SlsConfig) (p : Pipe) (f : Finish) → (finish_task config p f).batch ≡ p.batch
unfolding finish_task
finish_task-batch config p f =
    run_task-batch config p f.index f.script (get_elem? p.inflight f.index)

pub finish_tasks-batch :
    (config : SlsConfig) (p : Pipe) (fs : List Finish) → (finish_tasks config p fs).batch ≡ p.batch
unfolding finish_tasks
finish_tasks-batch config p [] = refl
finish_tasks-batch config p (f ∷ fs) =
    finish_tasks-batch config (finish_task config p f) fs ∙ finish_task-batch config p f

acquired_empties : (p : Pipe) (d : ℕ) (o : Outcome) → len (acquired p (some d) o).0.batch ≡ 0
unfolding acquired dispatch drop_shutdown drop_failed
acquired_empties p d granted = refl
acquired_empties p d semaphore_closed = refl
acquired_empties p d interrupted = refl

pub is_empty-len : (p : Pipe) → is_empty p.batch.records ≡ true → len p.batch ≡ 0
is_empty-len p h = ground (arith, p.batch.records)

-- Under a deadline nothing stays in the batch.
pub spawn_flush_empties :
    (config : SlsConfig) (p : Pipe) (d : ℕ) (w : Wait)
    → len (spawn_flush config p (some d) w).0.batch ≡ 0
unfolding spawn_flush drop_shutdown
spawn_flush_empties config p d w =
    let waited = finish_tasks config p w.finished in
    elim (Bool-cases (is_empty p.batch.records)) [
      | inl e ↦ simp e (is_empty-len p e)
      | inr e ↦ simp e (elim (Bool-cases (used_up (some d) w.now)) [
        | inl u ↦ simp u
        | inr u ↦ simp u (acquired_empties waited d (resolve waited.permits w.outcome))
      ])
    ]
