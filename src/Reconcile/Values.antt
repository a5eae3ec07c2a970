-- ===== src/Reconcile/Values.antt =====
-- The records of a table, as a list.
use oqronkit.Prelude.{
  ◌≡◌, refl, sym, ap, ◌∙◌, subst, false, some, List, [], ◌∷◌, map, mem, Text, text_discrete, ite,
  arith,
}
use oqronkit.JsMap
use oqronkit.Job.{Job}
use oqronkit.Dependency.{Jobs}
use oqronkit.StallScanner.Orphans.{DistinctIds}
use oqronkit.Reconcile.Passes.{find, ids}
use oqronkit.Reconcile.Recovered.{Keyed, IsTable}

abbrev pub values : Jobs → List Job
values = map (λ e. e.1)

pub find-values : (k : Text) (jobs : Jobs) → Keyed jobs → find k (values jobs) ≡ JsMap.get k jobs
unfolding find JsMap.get
find-values k [] d = refl
find-values k ((j, job) ∷ jobs) (e, d) =
    ap (λ i. ite (text_discrete i k) (some job) (find k (values jobs))) e
    ∙ ap (ite (text_discrete j k) (some job)) (find-values k jobs d)

mem-values :
    (k : Text) (jobs : Jobs)
    → Keyed jobs
    → JsMap.has k jobs ≡ false
    → mem k (ids (values jobs)) ≡ false
unfolding JsMap.get
mem-values k [] d h = refl
mem-values k ((j, job) ∷ jobs) (e, d) h = ground (arith, e, mem-values k jobs d)

pub values-DistinctIds : (jobs : Jobs) → IsTable jobs → DistinctIds (values jobs)
values-DistinctIds [] t = tt
values-DistinctIds ((j, job) ∷ jobs) ((e, d), (absent, rest)) = (
  subst (λ k. mem k (ids (values jobs)) ≡ false) (sym e) (mem-values j jobs d absent),
  values-DistinctIds jobs (d, rest),
)
