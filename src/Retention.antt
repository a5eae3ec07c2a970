-- ===== src/Retention.antt =====
-- engine/utils/job-retention.ts, over any storage. Times are in milliseconds; `parse` is
-- `new Date(s).getTime()`, `none` where that is NaN. The storage's calls do not throw here.
pub mod Newest
pub mod Pruned
use oqronkit.Prelude.{
  ℕ, zero, suc, ◌+◌, ◌*◌, ◌≡◌, Bool, true, false, Option, none, some, List, [], ◌∷◌, Text, text,
  or_else, leb, ltb, ite, if◌then◌else◌, text_discrete, map,
}
use oqronkit.JsMap
use oqronkit.JsMap.{JsMap}

pub data FinalStatus : Type 0 where
  completed failed : FinalStatus

pub record KeepJobs : Type 0 where
  pub age : Option ℕ
  pub count : Option ℕ

pub data RemoveOnConfig : Type 0 where
  flag : Bool → RemoveOnConfig
  number : ℕ → RemoveOnConfig
  limits : KeepJobs → RemoveOnConfig

-- `KeepJobs | "remove" | "keep"`
pub data Normalized : Type 0 where
  remove keep : Normalized
  keep_jobs : KeepJobs → Normalized

-- A value that may stand for a time: a `Date`, a number, a string, a serialised `Date`, or another.
pub data TimeValue : Type 0 where
  date instant : ℕ → TimeValue
  string tagged : Text → TimeValue
  other : TimeValue

pub record StoredJob : Type 0 where
  pub id : Text
  pub status : FinalStatus
  -- the record's value at the filter key of the call
  pub scope : Text
  pub finished_on : TimeValue
  pub finished_at : TimeValue
  pub timestamp : TimeValue
  pub created_at : TimeValue

pub record PruneOptions : Type 0 where
  pub job_id : Text
  pub status : FinalStatus
  pub job_remove_config : Option RemoveOnConfig
  pub module_remove_config : Option RemoveOnConfig
  pub global_remove_config : Option RemoveOnConfig
  -- `filterValue`, where both it and `filterKey` are given
  pub filter_value : Option Text

-- Both cases of the status read the same cascade.
unfoldable pub resolve_config : PruneOptions → RemoveOnConfig
resolve_config opts = elim opts.job_remove_config [
  | some config ↦ config
  | none ↦ elim opts.module_remove_config [
    | some config ↦ config
    | none ↦ or_else opts.global_remove_config (flag false)
  ]
]

abbrev pub normalize_keep_jobs : RemoveOnConfig → Normalized
normalize_keep_jobs (flag true) = remove
normalize_keep_jobs (flag false) = keep
normalize_keep_jobs (number n) = keep_jobs (record { age = none; count = some n })
normalize_keep_jobs (limits config) = keep_jobs config

abbrev pub keep_history_to_remove_config : Option RemoveOnConfig → RemoveOnConfig
keep_history_to_remove_config none = flag false
keep_history_to_remove_config (some (flag true)) = flag false
keep_history_to_remove_config (some (flag false)) = flag true
keep_history_to_remove_config (some (number n)) = limits (record { age = none; count = some n })
keep_history_to_remove_config (some (limits config)) = limits config

-- `x || y` on numbers
abbrev pub or_zero : ℕ → ℕ → ℕ
or_zero zero y = y
or_zero (suc x) y = suc x

-- `!x` of an optional number, negated
abbrev pub truthy : Option ℕ → Bool
truthy none = false
truthy (some zero) = false
truthy (some (suc n)) = true

-- `count !== undefined && i >= count`
abbrev pub over_count : Option ℕ → ℕ → Bool
over_count none i = false
over_count (some count) i = leb count i

-- `age !== undefined` and `now - recordTime > age * 1000`
abbrev pub over_age : Option ℕ → ℕ → ℕ → Bool
over_age none now time = false
over_age (some age) now time = ltb (time + age * 1000) now

-- `record.id` as a condition: the empty string is false.
abbrev pub has_id : Text → Bool
has_id [] = false
has_id (_ ∷ _) = true

-- What the pruning calls of the storage, in the namespace that it is given.
pub record JobStore : Type 1 where
  pub Store : Type 0
  pub Record : Type 0
  pub list : FinalStatus → Option Text → Store → List StoredJob
  pub get : Text → Store → Option Record
  pub delete : Text → Store → Store
  pub get-delete :
      (j k : Text) (s : Store) → get j (delete k s) ≡ ite (text_discrete k j) none (get j s)

module _ (parse : Text → Option ℕ) where
  abbrev pub to_epoch_ms : TimeValue → ℕ
  to_epoch_ms (date t) = t
  to_epoch_ms (instant t) = t
  to_epoch_ms (string s) = or_else (parse s) 0
  to_epoch_ms (tagged s) = or_else (parse s) 0
  to_epoch_ms other = 0

  unfoldable pub get_finished_time : StoredJob → ℕ
  get_finished_time job = or_zero (to_epoch_ms job.finished_on) (
      or_zero (to_epoch_ms job.finished_at)
        (or_zero (to_epoch_ms job.timestamp) (to_epoch_ms job.created_at)))

  -- `statusRecords.sort`: latest first, and stable.
  unfoldable pub insert_newest : StoredJob → List StoredJob → List StoredJob
  insert_newest x [] = x ∷ []
  insert_newest x (y ∷ ys) =
      if leb (get_finished_time y) (get_finished_time x) then x ∷ y ∷ ys else y ∷ insert_newest x ys

  unfoldable pub sort_newest : List StoredJob → List StoredJob
  sort_newest [] = []
  sort_newest (x ∷ xs) = insert_newest x (sort_newest xs)

  -- `shouldDelete` for the record at index `i`.
  abbrev pub should_delete : Option ℕ → Option ℕ → ℕ → ℕ → StoredJob → Bool
  should_delete age count now i job =
      if over_count count i then true else over_age age now (get_finished_time job)

  -- The loop that fills `toDelete`, from index `i`.
  unfoldable pub to_delete : Option ℕ → Option ℕ → ℕ → ℕ → List StoredJob → List Text
  to_delete age count now i [] = []
  to_delete age count now i (job ∷ jobs) =
      let rest = to_delete age count now (i + 1) jobs in
      if should_delete age count now i job
      then (if has_id job.id then job.id ∷ rest else rest)
      else rest

  module _ (S : JobStore) where
    unfoldable pub delete_all : List Text → S.Store → S.Store
    delete_all [] store = store
    delete_all (id ∷ ids) store = delete_all ids (S.delete id store)

    -- The part that prunes by count and by age.
    unfoldable pub prune_by : PruneOptions → KeepJobs → ℕ → S.Store → S.Store
    prune_by opts config now store =
        if truthy config.age then pruned else if truthy config.count then pruned else store
      where
        pruned : S.Store
        pruned =
            delete_all
              (to_delete config.age config.count now 0
                (sort_newest (S.list opts.status opts.filter_value store)))
              store

    unfoldable pub prune_after_completion : PruneOptions → ℕ → S.Store → S.Store
    prune_after_completion opts now store = elim (normalize_keep_jobs (resolve_config opts)) [
      | keep ↦ store
      | remove ↦ S.delete opts.job_id store
      | keep_jobs config ↦ prune_by opts config now store
    ]
