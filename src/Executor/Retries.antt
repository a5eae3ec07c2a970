-- ===== src/Executor/Retries.antt =====
-- How often `executeJob` may put a job back for a retry.
use oqronkit.Prelude.{
  ℕ, suc, ◌+◌, ◌≡◌, ◌≤◌, ◌⊎◌, refl, subst, sym, ap, ◌∙◌, Option, some, Text, inl, inr, arith,
}
use oqronkit.JsMap
use oqronkit.Job.{Job}
use oqronkit.Backoff.{Jitter}
use oqronkit.Lock.{LockAdapter}
use oqronkit.Executor.{ExecutionContext, effective_max_retries, capture_pre_execution_state}
use oqronkit.Executor.Run.{retried, Listing, World, Code, execute_job}
use oqronkit.Executor.Outcome.{Outcome, IsRespectful}
use oqronkit.Executor.Outcomes.{execute_job-Outcome}

-- `Retries … n job`: `n` executions one after another put the job back for a retry, each begun with the
-- record that the one before had saved, at any times and in any states of the rest of the world.
pub data Retries (L : LockAdapter) (list : Listing) (parse : Text → Option ℕ) (jitter : Jitter)
    (ctx : ExecutionContext) (code : Code L) : ℕ → Job → Type 0 where
  first : {job : Job} → Retries L list parse jitter ctx code 0 job
  next :
      {n : ℕ} {job job' : Job} (begun done : ℕ) (w : World L)
      → (execute_job L list parse jitter ctx code job begun done w).1 ≡ retried
      → JsMap.get job.id (execute_job L list parse jitter ctx code job begun done w).0.jobs
        ≡ some job'
      → Retries L list parse jitter ctx code n job'
      → Retries L list parse jitter ctx code (suc n) job

module _ (L : LockAdapter) (list : Listing) (parse : Text → Option ℕ) (jitter : Jitter)
    (ctx : ExecutionContext) (code : Code L) where
  -- What a retry saved counts one attempt more, within the same limit.
  retried-record :
      (job job' : Job) (begun done : ℕ) (w : World L)
      → IsRespectful code
      → (execute_job L list parse jitter ctx code job begun done w).1 ≡ retried
      → JsMap.get job.id (execute_job L list parse jitter ctx code job begun done w).0.jobs
        ≡ some job'
      → (job'.attempt_made ≡ job.attempt_made + 1)
        × (effective_max_retries ctx job' ≡ effective_max_retries ctx job)
        × (job.attempt_made + 1 ≤ effective_max_retries ctx job)
  retried-record job job' begun done w respectful e found =
      let r = execute_job L list parse jitter ctx code job begun done w in
      let o =
        subst
          (λ ended.
            Outcome ctx job.id (capture_pre_execution_state job) (job.attempt_made + 1)
              (effective_max_retries ctx job) w.jobs ended r.0)
          e (execute_job-Outcome L list parse jitter ctx code respectful job begun done w) in
      let (j, stored, status, made, limit, le) = o.0 in
      let same : j ≡ job' = ground (arith, stored, found) in
      (
        ap (λ (x : Job). x.attempt_made) (sym same) ∙ made,
        ap (λ (x : Job). effective_max_retries ctx x) (sym same) ∙ limit,
        le,
      )

  -- With hooks and a handler that leave the id, the attempts made and the attempts allowed alone,
  -- executions one after another that each put the same job back for a retry, at any times:
  -- together with the attempts that it had made before, they are no more than the retries that its
  -- record allows, or there are none.
  pub retries_bounded :
      {n : ℕ} {job : Job}
      → IsRespectful code
      → Retries L list parse jitter ctx code n job
      → (n ≡ 0) ⊎ (job.attempt_made + n ≤ effective_max_retries ctx job)
  retries_bounded respectful first = inl refl
  retries_bounded respectful (next {n} {job} {job'} begun done w e found rest) =
      let (made, limit, le) = retried-record job job' begun done w respectful e found in
      elim (retries_bounded respectful rest) [
        | inl last ↦ inr (omega arith)
        | inr more ↦ inr (omega arith)
      ]
