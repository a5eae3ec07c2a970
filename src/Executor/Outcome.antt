-- ===== src/Executor/Outcome.antt =====
-- How an execution may end: what is saved and what is queued, and the ways out of `executeJob` one by one.
use oqronkit.Prelude.{
  mem, ℕ, suc, ◌≡◌, ◌≤◌, ◌⊎◌, refl, ◌∙◌, Bool, true, false, Option, none, some, List, [], ◌∷◌, Text,
  text_discrete, if◌then◌else◌, length, if_pos, Bool-cases, Option-cases, inl, inr, arith,
}
use oqronkit.JsMap
use oqronkit.JsMap.{JsMap}
use oqronkit.Job.{Job, cancelled, delayed}
use oqronkit.Backoff.{Jitter}
use oqronkit.Broker.{Broker, ack, nack}
use oqronkit.Broker.Queued.{queued, nack-Once}
use oqronkit.Dependency.Evolution.{Outcomes→Keeps}
use oqronkit.Dependency.Cascade.{notify_children-Outcomes}
use oqronkit.Retention.Pruned.{get-prune_after_completion}
use oqronkit.Lock.{LockAdapter}
use oqronkit.Dependency.{Jobs, State, notify_children, is_waiting_children}
use oqronkit.Executor.{
  ExecutionContext, effective_max_retries, is_guaranteed, PreExecutionState,
  capture_pre_execution_state, restore_pre_execution_state, delay_job, Ending, succeeded, errored,
  finish_job, ending_status,
}
use oqronkit.Executor.Run.{
  Ended, not_acquired, skipped, retried, honoured, failed_call, finished, Listing, World, Ran, Code,
  cleanup, skip, retry, settle, finalize, is_cancelled, drop_key, notify, has_children, job_store,
  prune_options,
}

-- The fields that an execution restores are those of `before`.
abbrev pub AsBefore : PreExecutionState → Job → Type 0
AsBefore before j = capture_pre_execution_state j ≡ before

-- The two maps hold nothing of the job any more.
abbrev pub Forgotten : {L : LockAdapter} → ExecutionContext → Text → World L → Type 0
Forgotten ctx id w =
    (mem id w.controllers ≡ false)
    × ((if is_guaranteed ctx then mem id w.heartbeats else false) ≡ false)

abbrev pub Queued : {L : LockAdapter} → ExecutionContext → Text → World L → Type 0
Queued ctx id w = queued ctx.handler_config.name id w.broker ≡ 1

-- `before` is what the execution found, `n` the attempts made with this one, `most` the retries allowed.
abbrev pub Outcome :
    {L : LockAdapter}
    → ExecutionContext
    → Text
    → PreExecutionState
    → ℕ
    → ℕ
    → Jobs
    → Ended
    → World L
    → Type 0
Outcome ctx id before n most old not_acquired w = (w.jobs ≡ old) × Queued ctx id w
Outcome ctx id before n most old skipped w =
    ((j : Job) × (JsMap.get id w.jobs ≡ some j) × AsBefore before j)
    × Queued ctx id w
    × Forgotten ctx id w
Outcome ctx id before n most old retried w =
    ((j : Job) × (JsMap.get id w.jobs ≡ some j)
      × (j.status ≡ delayed)
      × (j.attempt_made ≡ n)
      × (effective_max_retries ctx j ≡ most)
      × (n ≤ most))
    × Queued ctx id w
    × Forgotten ctx id w
Outcome ctx id before n most old honoured w =
    ((j : Job) × (JsMap.get id w.jobs ≡ some j) × (j.status ≡ cancelled)) × Forgotten ctx id w
Outcome ctx id before n most old failed_call w = Unit {0}
Outcome ctx id before n most old (finished ending) w =
    ((JsMap.get id w.jobs ≡ none)
      ⊎ ((j : Job) × (JsMap.get id w.jobs ≡ some j)
          × (j.status ≡ ending_status ending)
          × (j.attempt_made ≡ n)))
    × Forgotten ctx id w

-- The same for an execution of `job`, with the attempts made that its record has.
abbrev pub Ends :
    {L : LockAdapter}
    → ExecutionContext
    → Job
    → PreExecutionState
    → ℕ
    → Jobs
    → World L × Ended
    → Type 0
Ends ctx job before most old r = Outcome ctx job.id before job.attempt_made most old r.1 r.0

-- What a hook or the handler leaves alone of the record.
abbrev pub SameAttempt : Job → Job → Type 0
SameAttempt j j' = (j'.id ≡ j.id) × (j'.attempt_made ≡ j.attempt_made) × (j'.attempts ≡ j.attempts)

-- The context that they are given has no way to change these.
pub record IsRespectful {L : LockAdapter} (code : Code L) : Type 0 where
  pub handler : (j : Job) (w : World L) → SameAttempt j (code.handler j w).job
  pub hook :
      (h : Job → World L → Ran L) (j : Job) (w : World L)
      → code.before_run ≡ some h
      → SameAttempt j (h j w).job

pub get-set_same :
    {V : Type 0} (k : Text) (v : V) (m : JsMap V) → JsMap.get k (JsMap.set k v m) ≡ some v
get-set_same k v m = JsMap.get-set k k v m ∙ if_pos (text_discrete k k) refl _ _

pub nack_once :
    (name id : Text) (delay priority : Option ℕ) (now : ℕ) (b : Broker)
    → queued name id (nack name id delay priority now b) ≡ 1
nack_once name id delay priority now b =
    nack-Once name id delay priority now b name id
    ∙ if_pos (text_discrete name name) refl _ _
    ∙ if_pos (text_discrete id id) refl _ _

mem-drop_key : (id : Text) (ids : List Text) → mem id (drop_key id ids) ≡ false
unfolding drop_key
mem-drop_key id [] = refl
mem-drop_key id (x ∷ xs) = ground (arith, mem-drop_key id xs)

module _ (L : LockAdapter) (list : Listing) (parse : Text → Option ℕ) (jitter : Jitter)
    (ctx : ExecutionContext) (code : Code L) where
  cleanup-Forgotten :
      (job : Job) (w : World L) → Forgotten ctx job.id (cleanup L list parse jitter ctx code job w)
  unfolding cleanup
  cleanup-Forgotten job w =
      (mem-drop_key job.id w.controllers, ground (arith, mem-drop_key job.id w.heartbeats))

  pub skip-Outcome :
      (job : Job) (before : PreExecutionState) (delay now n most : ℕ) (old : Jobs) (w : World L)
      → Outcome ctx job.id before n most old skipped
          (skip L list parse jitter ctx code job before delay now w)
  unfolding skip restore_pre_execution_state capture_pre_execution_state cleanup
  skip-Outcome job before delay now n most old w = (
    (restore_pre_execution_state job before, get-set_same job.id _ _, refl),
    nack_once ctx.handler_config.name job.id (some delay) job.priority now w.broker,
    cleanup-Forgotten job w,
  )

  pub retry-Outcome :
      (job : Job) (message : Text) (before : PreExecutionState) (now delay most : ℕ) (old : Jobs)
      (w : World L)
      → effective_max_retries ctx job ≡ most
      → job.attempt_made ≤ most
      → Outcome ctx job.id before job.attempt_made most old retried
          (retry L list parse jitter ctx code job message now delay w)
  unfolding retry delay_job cleanup
  retry-Outcome job message before now delay most old w limit le = (
    (delay_job message now delay job, get-set_same job.id _ _, refl, refl, limit, le),
    nack_once ctx.handler_config.name job.id (some delay) job.priority now w.broker,
    cleanup-Forgotten job w,
  )

  -- The parents' record is left alone when the children are told.
  get-notify :
      (now : ℕ) (id : Text) (s : State) (j : Job)
      → JsMap.get id s.jobs ≡ some j
      → is_waiting_children j.status ≡ false
      → JsMap.get id (notify now id s).jobs ≡ some j
  unfolding notify
  get-notify now id s j found over =
      elim (Option-cases (notify_children (suc (length s.jobs)) now id s)) [
        | inl out ↦ rw (out, notify) found
        | inr (s', ran) ↦
            rw (ran, notify)
              (Outcomes→Keeps now s.jobs s'.jobs
                (notify_children-Outcomes (suc (length s.jobs)) now id s s' ran) id j found over)
      ]

  get-told :
      (now : ℕ) (id : Text) (s : State) (j : Job) (tells : Bool)
      → JsMap.get id s.jobs ≡ some j
      → is_waiting_children j.status ≡ false
      → JsMap.get id (if tells then notify now id s else s).jobs ≡ some j
  get-told now id s j true found over = get-notify now id s j found over
  get-told now id s j false found over = found

  ending_status-is_waiting_children :
      (ending : Ending) → is_waiting_children (ending_status ending) ≡ false
  ending_status-is_waiting_children (succeeded v) = refl
  ending_status-is_waiting_children (errored m) = refl

  -- The record is there as it was saved, or it is pruned.
  pub get-settle :
      (job : Job) (ending : Ending) (now : ℕ) (w : World L)
      → job.status ≡ ending_status ending
      → (JsMap.get job.id (settle L list parse jitter ctx code job ending now w).jobs ≡ none)
        ⊎ (JsMap.get job.id (settle L list parse jitter ctx code job ending now w).jobs ≡ some job)
  unfolding settle
  get-settle job ending now w e =
      let acked = ack ctx.handler_config.name job.id w.broker in
      let saved : State = record { jobs = JsMap.set job.id job w.jobs; broker = acked } in
      let over : is_waiting_children job.status ≡ false =
        rw e (ending_status-is_waiting_children ending) in
      let found =
        get-told now job.id saved job (has_children job.children_ids)
          (get-set_same job.id job w.jobs) over in
      elim (get-prune_after_completion parse (job_store list) (prune_options ctx job ending) now _
        job.id) [ inl gone ↦ inl gone | inr same ↦ inr (same ∙ found) ]

  settle-Outcome :
      (job : Job) (ending : Ending) (before : PreExecutionState) (now most : ℕ) (old : Jobs)
      (w : World L)
      → job.status ≡ ending_status ending
      → Forgotten ctx job.id w
      → Outcome ctx job.id before job.attempt_made most old
          (finished ending)
          (settle L list parse jitter ctx code job ending now w)
  unfolding settle
  settle-Outcome job ending before now most old w e forgotten =
      elim (get-settle job ending now w e) [
        | inl gone ↦ (inl gone, forgotten)
        | inr found ↦ (inr (job, found, e, refl), forgotten)
      ]

  finished-Ends :
      (job : Job) (ending : Ending) (before : PreExecutionState) (now most : ℕ) (old : Jobs)
      (w : World L)
      → Forgotten ctx job.id w
      → Ends ctx job before most old (
        settle L list parse jitter ctx code (finish_job ending now job) ending now w,
        finished ending,
      )
  unfolding finish_job
  finished-Ends job (succeeded v) before now most old w f =
      settle-Outcome (finish_job (succeeded v) now job) (succeeded v) before now most old w refl f
  finished-Ends job (errored m) before now most old w f =
      settle-Outcome (finish_job (errored m) now job) (errored m) before now most old w refl f

  pub is_cancelled-record :
      (o : Option Job)
      → is_cancelled L list parse jitter ctx code o ≡ true
      → (j : Job) × (o ≡ some j) × (j.status ≡ cancelled)
  is_cancelled-record none h = ground arith
  is_cancelled-record (some j) h = (j, refl, ground arith)

  pub finalize-Ends :
      (job : Job) (ending : Ending) (aborted : Bool) (before : PreExecutionState) (now most : ℕ)
      (old : Jobs) (w : World L)
      → Ends ctx job before most old
          (finalize L list parse jitter ctx code job ending aborted now w)
  unfolding finalize
  finalize-Ends job ending false before now most old w =
      finished-Ends job ending before now most old (cleanup L list parse jitter ctx code job w)
        (cleanup-Forgotten job w)
  finalize-Ends job ending true before now most old w =
      let cleaned : World L = cleanup L list parse jitter ctx code job w in
      elim (Bool-cases
        (is_cancelled L list parse jitter ctx code (JsMap.get job.id cleaned.jobs))) [
          | inl gone ↦
              rw (gone, finalize)
                (is_cancelled-record (JsMap.get job.id cleaned.jobs) gone, cleanup-Forgotten job w)
          | inr kept ↦
              rw (kept, finalize)
                (finished-Ends job ending before now most old cleaned (cleanup-Forgotten job w))
        ]
