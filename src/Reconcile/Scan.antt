-- ===== src/Reconcile/Scan.antt =====
-- What one scan leaves: the stale jobs wait and are queued, and all else is as it was.
use oqronkit.Prelude.{
  ℕ, ◌≡◌, ◌≤◌, inl, inr, refl, sym, ap, ◌∙◌, Bool, Option, none, some, List, [], ◌∷◌, Text,
  text_discrete, if_pos, if_neg, length, arith, Bool-cases, or_else,
}
use oqronkit.JsMap
use oqronkit.JsMap.{JsMap, get-set, set-Distinct}
use oqronkit.Job.{Job}
use oqronkit.Broker.Queued.{queued}
use oqronkit.Dependency.{Jobs, State}
use oqronkit.Lock.{LockAdapter, granted}
use oqronkit.Reconcile.{
  ReconciliationConfig, Stats, Query, waiting_before, all_delayed, all_stalled, Listing,
  mark_waiting, mark_delayed, mark_stalled, is_due, is_allowed, select, republish, republish_all,
  always, reconcile_waiting, reconcile_delayed, reconcile_stalled, reconcile, run_scan,
  after_acquire, leader_lock_key, lock_ttl,
}
use oqronkit.StallScanner.Orphans.{DistinctIds}
use oqronkit.Reconcile.Passes.{
  find, keep, find-select, select-DistinctIds, republished, requeued, republish_all-Passed,
  length-republish_all, Stored,
}
use oqronkit.Reconcile.Recovered.{
  Keyed, IsTable, IsListing, matches, recover, queue_after, taken, pass, cutoff, passes-recover,
  first_pass, second_pass, third_pass,
}

Keyed-set : (k : Text) (v : Job) (m : Jobs) → v.id ≡ k → Keyed m → Keyed (JsMap.set k v m)
unfolding JsMap.set
Keyed-set k v [] e d = (e, tt)
Keyed-set k v ((j, w) ∷ m) e d = elim (text_discrete j k) [
  | yes here ↦ rw (if_pos (text_discrete j k) here) (e ∙ sym here, d.1)
  | no away ↦ rw (if_neg (text_discrete j k) away) (d.0, Keyed-set k v m e d.1)
]

keep-some : (ok : Job → Bool) (o : Option Job) (j : Job) → keep ok o ≡ some j → o ≡ some j
keep-some ok none j e = e
keep-some ok (some x) j e = ground arith

module _ (mark : Job → Job) (same : (j : Job) → (mark j).id ≡ j.id) (now : ℕ)
    (due : Job → Bool) where
  republish_all-IsTable :
      (jobs : List Job) (s : State)
      → IsTable s.jobs
      → IsTable (republish_all due mark now jobs s).0.jobs
  unfolding republish_all republish
  republish_all-IsTable [] s t = t
  republish_all-IsTable (job ∷ jobs) s t = elim (Bool-cases (due job)) [
    | inr passed ↦ rw passed (republish_all-IsTable jobs s t)
    | inl good ↦ rw good (
        republish_all-IsTable jobs (republish mark now job s) (
          Keyed-set job.id (mark job) s.jobs (same job) t.0,
          set-Distinct job.id (mark job) s.jobs t.1,
        ))
  ]

  module _ (list : Listing) (listing : IsListing list) (config : ReconciliationConfig) (q : Query)
      (batch : ℕ) where
    abbrev run_pass : State → State
    run_pass s =
        (republish_all due mark now (select (is_allowed config.queue_names) (list q batch s.jobs))
          s).0

    -- What one pass does, and that it leaves a table of the same size.
    pass_lem :
        (s : State)
        → IsTable s.jobs
        → length s.jobs ≤ batch
        → IsTable (run_pass s).jobs
          × (length (run_pass s).jobs ≡ length s.jobs)
          × ((k : Text)
              → (JsMap.get k (run_pass s).jobs ≡ pass config now due q mark (JsMap.get k s.jobs))
                × ((name : Text)
                    → queued name k (run_pass s).broker
                      ≡ requeued name
                          (taken config now due q (JsMap.get k s.jobs))
                          (queued name k s.broker)))
    pass_lem s t fits =
        let allowed = is_allowed config.queue_names in
        let listed = list q batch s.jobs in
        let d : DistinctIds listed = listing.list-DistinctIds q batch s.jobs t fits in
        let d' = select-DistinctIds allowed listed d in
        let found : (k : Text)
            → find k (select allowed listed)
              ≡ keep allowed (keep (matches q) (JsMap.get k s.jobs)) =
          λ k.
            find-select k allowed listed d
            ∙ ap (keep allowed) (listing.find-list q batch s.jobs k t fits) in
        let stored : Stored mark now (select allowed listed) s = λ k j e.
          let there =
            keep-some (matches q) (JsMap.get k s.jobs) j
              (keep-some allowed _ j (sym (found k) ∙ e)) in
          rw (there, JsMap.has) refl in
        let passed = republish_all-Passed mark now due (select allowed listed) s d' in
        let taken_eq : (k : Text)
            → find k (select due (select allowed listed))
              ≡ taken config now due q (JsMap.get k s.jobs) =
          λ k. find-select k due (select allowed listed) d' ∙ ap (keep due) (found k) in
        (
          republish_all-IsTable (select allowed listed) s t,
          length-republish_all mark now due (select allowed listed) s stored d',
          λ k. (
            (passed k).0 ∙ ap (λ o. republished mark o (JsMap.get k s.jobs)) (taken_eq k),
            λ name.
                (passed k).1 name ∙ ap (λ o. requeued name o (queued name k s.broker)) (taken_eq k),
          ),
        )

module _ (list : Listing) (listing : IsListing list) (config : ReconciliationConfig) (now : ℕ)
    (s : State) where
  reconcile-recover :
      IsTable s.jobs
      → length s.jobs ≤ or_else config.batch_size 500
      → (k : Text)
      → (JsMap.get k (reconcile list config now s).0.jobs ≡ recover config now (JsMap.get k s.jobs))
        × ((name : Text)
            → queued name k (reconcile list config now s).0.broker
              ≡ queue_after config now name (JsMap.get k s.jobs) (queued name k s.broker))
  unfolding reconcile reconcile_waiting reconcile_delayed reconcile_stalled
  reconcile-recover t fits k =
      let batch = or_else config.batch_size 500 in
      let early = waiting_before (cutoff config now) in
      let s1 : State =
        run_pass (mark_waiting now) (λ j. refl) now always list listing config early batch s in
      let (t1, l1, p1) =
        pass_lem (mark_waiting now) (λ j. refl) now always list listing config early batch s t
          fits in
      let s2 : State =
        run_pass (mark_delayed now) (λ j. refl) now (is_due config now) list listing config
          all_delayed batch s1 in
      let (t2, l2, p2) =
        pass_lem (mark_delayed now) (λ j. refl) now (is_due config now) list listing config
          all_delayed batch s1 t1 (omega arith) in
      let (t3, l3, p3) =
        pass_lem (mark_stalled now) (λ j. refl) now always list listing config all_stalled batch s2
          t2 (omega arith) in
      let o = JsMap.get k s.jobs in
      let e1 : JsMap.get k s1.jobs ≡ first_pass config now o = (p1 k).0 in
      let e2 : JsMap.get k s2.jobs ≡ second_pass config now (first_pass config now o) =
        (p2 k).0 ∙ ap (second_pass config now) e1 in
      let (whole, queues) = passes-recover config now o in
      (
        (p3 k).0 ∙ ap (third_pass config now) e2 ∙ whole,
        λ name.
            (p3 k).1 name
            ∙ (λ i. requeued name (taken config now always all_stalled (e2 i)) (
                ((p2 k).1 name ∙ (λ l.
                    requeued name (taken config now (is_due config now) all_delayed (e1 l))
                      ((p1 k).1 name l)))
                  i))
            ∙ queues name (queued name k s.broker),
      )

  pub run_scan-recover :
      (L : LockAdapter) (owner : Text) (done : ℕ) (stats : Stats) (lock : L.State)
      → (L.acquire leader_lock_key owner (lock_ttl config) now lock).1 ≡ granted
      → IsTable s.jobs
      → length s.jobs ≤ or_else config.batch_size 500
      → (k : Text)
      → let s' = (run_scan list config L owner now done s stats lock).state in
        (JsMap.get k s'.jobs ≡ recover config now (JsMap.get k s.jobs))
        × ((name : Text)
            → queued name k s'.broker
              ≡ queue_after config now name (JsMap.get k s.jobs) (queued name k s.broker))
  unfolding run_scan after_acquire
  run_scan-recover L owner done stats lock won t fits k =
      rw (won, after_acquire) (reconcile-recover t fits k)
