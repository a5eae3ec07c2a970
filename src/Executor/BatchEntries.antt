-- ===== src/Executor/BatchEntries.antt =====
-- How `executeBatch` leaves one job of the batch.
use oqronkit.Prelude.{
  if_holds, or_else, text, ℕ, ◌≡◌, ◌≤◌, ◌⊎◌, inl, inr, refl, sym, ap, ◌∙◌, true, false, Option,
  none, some, [], Text, text_discrete, if_pos, leb, leb→le, le→leb,
}
use oqronkit.JsMap
use oqronkit.Job.{Job, cancelled, delayed}
use oqronkit.Backoff.{Jitter, calculate_backoff}
use oqronkit.Broker.{ack}
use oqronkit.Broker.Queued.{queued, queued-ack}
use oqronkit.Lock.{LockAdapter}
use oqronkit.Executor.{
  ExecutionContext, effective_max_retries, max_delay_of, Ending, succeeded, errored, ending_status,
}
use oqronkit.Executor.Run.{Listing, World, Code, is_cancelled}
use oqronkit.Executor.Outcome.{Queued, nack_once, get-set_same, get-settle, is_cancelled-record}
use oqronkit.Executor.Preflight.{BatchEntry, BatchResult, fulfilled, rejected}
use oqronkit.Executor.Batch.{
  EntryEnded, entry_retried, entry_cancelled, batch_failed, entry_finished, close_job, close,
  retry_entry, reject_entry, fulfil_entry, resolve_entry, finish_entry, discarded_job,
  fulfilled_job, batch_backoff, delay_entry,
}

-- `e` is the entry, with the attempt that was made counted.
abbrev pub EntryOutcome :
    {L : LockAdapter} → ExecutionContext → BatchEntry → EntryEnded → World L → Type 0
EntryOutcome ctx e entry_retried w =
    ((j : Job) × (JsMap.get e.job.id w.jobs ≡ some j)
      × (j.status ≡ delayed)
      × (j.attempt_made ≡ e.job.attempt_made))
    × (e.discarded ≡ false)
    × (e.job.attempt_made ≤ effective_max_retries ctx e.job)
    × Queued ctx e.job.id w
EntryOutcome ctx e entry_cancelled w =
    ((j : Job) × (JsMap.get e.job.id w.jobs ≡ some j) × (j.status ≡ cancelled))
    × (queued ctx.handler_config.name e.job.id w.broker ≡ 0)
EntryOutcome ctx e batch_failed w = Unit {0}
EntryOutcome ctx e (entry_finished ending) w =
    (JsMap.get e.job.id w.jobs ≡ none)
    ⊎ ((j : Job) × (JsMap.get e.job.id w.jobs ≡ some j) × (j.status ≡ ending_status ending))

module _ (L : LockAdapter) (list : Listing) (parse : Text → Option ℕ) (jitter : Jitter)
    (ctx : ExecutionContext) (code : Code L) where
  abbrev Ended : BatchEntry → World L × EntryEnded → Type 0
  Ended e r = EntryOutcome ctx e r.1 r.0

  close-Ended :
      (e : BatchEntry) (job : Job) (ending : Ending) (reason : Text) (now : ℕ) (w : World L)
      → job.id ≡ e.job.id
      → Ended e (close L list parse jitter ctx code job ending reason now w)
  unfolding close close_job
  close-Ended e job ending reason now w same =
      let jobs = (close L list parse jitter ctx code job ending reason now w).0.jobs in
      elim (get-settle L list parse jitter ctx code (close_job ending reason now job) ending now w
        refl) [
          | inl gone ↦ inl (ap (λ i. JsMap.get i jobs) (sym same) ∙ gone)
          | inr found ↦
              inr (
                close_job ending reason now job,
                ap (λ i. JsMap.get i jobs) (sym same) ∙ found,
                refl,
              )
        ]

  retry_entry-Ended :
      (e : BatchEntry) (message : Text) (now : ℕ) (w : World L) (delay : Option ℕ)
      → e.discarded ≡ false
      → e.job.attempt_made ≤ effective_max_retries ctx e.job
      → Ended e (
          retry_entry L list parse jitter ctx code
            (record (e.job) { error = some message })
            now
            w
            delay)
  unfolding retry_entry
  retry_entry-Ended e message now w none kept le = tt
  retry_entry-Ended e message now w (some delay) kept le = (
    (
      delay_entry L list parse jitter ctx code now delay (record (e.job) { error = some message }),
      get-set_same e.job.id _ _,
      refl,
      refl,
    ),
    kept,
    le,
    nack_once ctx.handler_config.name e.job.id (some delay) e.job.priority now w.broker,
  )

  reject_entry-Ended :
      (e : BatchEntry) (message : Text) (now : ℕ) (w : World L)
      → e.discarded ≡ false
      → Ended e (reject_entry L list parse jitter ctx code e.job message now w)
  unfolding reject_entry
  reject_entry-Ended e message now w kept =
      if_holds (Ended e) (leb e.job.attempt_made (effective_max_retries ctx e.job)) _ _
        (λ le.
          retry_entry-Ended e message now w
            (calculate_backoff jitter (some (batch_backoff ctx)) e.job.attempt_made
              (some (max_delay_of ctx)))
            kept (leb→le e.job.attempt_made (effective_max_retries ctx e.job) le))
        (λ gt.
          close-Ended e (record (e.job) { error = some message }) (errored message) message now w
            refl)

  acked_none :
      (e : BatchEntry) (w : World L)
      → queued ctx.handler_config.name e.job.id (ack ctx.handler_config.name e.job.id w.broker) ≡ 0
  acked_none e w =
      queued-ack ctx.handler_config.name ctx.handler_config.name e.job.id e.job.id w.broker
      ∙ if_pos (text_discrete ctx.handler_config.name ctx.handler_config.name) refl _ _
      ∙ if_pos (text_discrete e.job.id e.job.id) refl _ _

  fulfil_entry-Ended :
      (e : BatchEntry) (v : Option Text) (now : ℕ) (w : World L)
      → Ended e (fulfil_entry L list parse jitter ctx code e v now w)
  unfolding fulfil_entry
  fulfil_entry-Ended e v now w =
      let closed = λ (u : Unit {0}).
        close-Ended e (fulfilled_job v e.job) (succeeded (or_else v [])) (text "Batch completed")
          now w refl in
      if_holds (Ended e) e.aborted _ _
        (λ a.
          if_holds (Ended e) (is_cancelled L list parse jitter ctx code (JsMap.get e.job.id w.jobs))
            _ _
            (λ c. (
              is_cancelled-record L list parse jitter ctx code (JsMap.get e.job.id w.jobs) c,
              acked_none e w,
            ))
            (λ c. closed tt))
        (λ a. closed tt)

  resolve_entry-Ended :
      (e : BatchEntry) (r : BatchResult) (now : ℕ) (w : World L)
      → e.discarded ≡ false
      → Ended e (resolve_entry L list parse jitter ctx code e r now w)
  resolve_entry-Ended e (fulfilled v) now w kept = fulfil_entry-Ended e v now w
  resolve_entry-Ended e (rejected message) now w kept = reject_entry-Ended e message now w kept

  -- How the last loop of `executeBatch` leaves any one job of the batch, unless the call throws.
  -- Retried: not discarded, within the attempts allowed, the record delayed with as many attempts
  -- made, queued once. Cancelled: the record stays cancelled and the job is not queued. Finished:
  -- the record has the final status, or it is pruned.
  pub finish_entry-EntryOutcome :
      (e : BatchEntry) (r : BatchResult) (now : ℕ) (w : World L)
      → EntryOutcome ctx e
          (finish_entry L list parse jitter ctx code e r now w).1
          (finish_entry L list parse jitter ctx code e r now w).0
  unfolding finish_entry
  finish_entry-EntryOutcome e r now w =
      if_holds (Ended e) e.discarded _ _
        (λ d. close-Ended e (discarded_job ctx e.job) _ _ now w refl)
        (λ d. resolve_entry-Ended e r now w d)

  -- A job of a batch that was cancelled in the storage and aborted, not discarded, with attempts
  -- left and a delay that can be computed: if its result is a rejection, the cancellation is
  -- overwritten, and the job is delayed and queued once.
  pub cancelled_entry_retried :
      (e : BatchEntry) (message : Text) (delay now : ℕ) (w : World L) (j : Job)
      → JsMap.get e.job.id w.jobs ≡ some j
      → j.status ≡ cancelled
      → e.aborted ≡ true
      → e.discarded ≡ false
      → e.job.attempt_made ≤ effective_max_retries ctx e.job
      → calculate_backoff jitter
          (some (batch_backoff ctx))
          e.job.attempt_made
          (some (max_delay_of ctx))
        ≡ some delay
      → let w' = (finish_entry L list parse jitter ctx code e (rejected message) now w).0 in
        ((j' : Job) × (JsMap.get e.job.id w'.jobs ≡ some j') × (j'.status ≡ delayed))
        × Queued ctx e.job.id w'
  unfolding finish_entry reject_entry retry_entry
  cancelled_entry_retried e message delay now w j stored gone aborted kept le waits =
      let counted = le→leb e.job.attempt_made (effective_max_retries ctx e.job) le in
      rw (kept, counted, waits, retry_entry)
        (
          (
            delay_entry L list parse jitter ctx code now delay
                (record (e.job) { error = some message }),
            get-set_same e.job.id _ _,
            refl,
          ),
          nack_once ctx.handler_config.name e.job.id (some delay) e.job.priority now w.broker,
        )
