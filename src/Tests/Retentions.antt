-- ===== src/Tests/Retentions.antt =====
-- engine/utils/job-retention.ts at small inputs.
use oqronkit.Prelude.{
  ℕ, ◌≡◌, refl, none, some, [], ◌∷◌, List, Option, Text, text, text_discrete, ℕ_discrete, map, mem,
  take, drop, if◌then◌else◌,
}
use oqronkit.JsMap
use oqronkit.JsMap.{JsMap}
use oqronkit.Retention.{
  completed, StoredJob, PruneOptions, JobStore, number, instant, other, sort_newest, to_delete,
  delete_all, prune_by, prune_after_completion, insert_newest, get_finished_time, resolve_config,
  string,
}
use oqronkit.Retention.Pruned.{prune_oldest, ids_after, AllFit, NoneFit}

program : Unit {0}
unfolding text_discrete ℕ_discrete JsMap.get JsMap.delete sort_newest to_delete delete_all prune_by
    prune_after_completion insert_newest get_finished_time resolve_config
program = tt

abbrev job_map : JobStore
job_map = record {
  Store = JsMap StoredJob;
  Record = StoredJob;
  list = λ status scope jobs. map (λ e. e.1) jobs;
  get = JsMap.get;
  delete = JsMap.delete;
  get-delete = JsMap.get-delete;
}

abbrev job : Text → ℕ → StoredJob
job id t = record {
  id = id;
  status = completed;
  scope = [];
  finished_on = string (text "2024");
  finished_at = instant t;
  timestamp = other;
  created_at = other;
}

abbrev no_dates : Text → Option ℕ
no_dates s = none

abbrev jobs : JsMap StoredJob
jobs =
    (text "a", job (text "a") 5) ∷ (text "b", job (text "b") 9) ∷ (text "c", job (text "c") 7) ∷ []

abbrev opts : PruneOptions
opts = record {
  job_id = text "b";
  status = completed;
  job_remove_config = none;
  module_remove_config = some (number 2);
  global_remove_config = none;
  filter_value = none;
}

two_kept :
    prune_after_completion no_dates job_map opts 10 jobs
    ≡ (text "b", job (text "b") 9) ∷ (text "c", job (text "c") 7) ∷ []
unfolding program
two_kept = refl

abbrev newest : List StoredJob
newest = sort_newest no_dates (map (λ e. e.1) jobs)

prune_oldest_example :
    (m : ℕ) × ((k : Text)
      → JsMap.get k (prune_after_completion no_dates job_map opts 10 jobs)
        ≡ (if mem k (ids_after m newest) then none else JsMap.get k jobs))
    × AllFit no_dates none (some 2) 10 0 (take m newest)
    × NoneFit no_dates none (some 2) 10 m (drop m newest)
unfolding program
prune_oldest_example =
    prune_oldest no_dates job_map opts (record { age = none; count = some 2 }) 10 jobs refl refl
      (refl, (refl, (refl, tt)))
