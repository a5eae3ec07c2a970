-- ===== src/Dependency/Registration.antt =====
-- `registerDependencies`: each parent's record gets the child's id, under a lock per parent. The
-- clock is read at every attempt; between two of them it moves by the pause.
use oqronkit.Prelude.{
  ℕ, zero, suc, ◌+◌, ◌*◌, ◌≡◌, refl, ap, ite, Bool, true, false, Option, none, some, List, [], ◌∷◌,
  ◌++◌, Text, text, or_else, arith, Option-cases, inl, inr, if◌then◌else◌, text_discrete, mem,
}
use oqronkit.JsMap
use oqronkit.JsMap.{JsMap}
use oqronkit.Job.{Job}
use oqronkit.Lock.{LockAdapter, Reply, granted, refused, threw}
use oqronkit.Dependency.{Jobs}

abbrev pub list_child : Text → List Text → List Text
list_child child ids = if mem child ids then ids else ids ++ child ∷ []

-- What is saved in place of the parent's record.
abbrev pub link : Text → Job → Job
link child parent = record parent {
  children_ids = some (list_child child (or_else parent.children_ids []));
}

unfoldable pub link_parent : Text → Text → Jobs → Jobs
link_parent child p jobs = elim (JsMap.get p jobs) [
  | none ↦ jobs
  | some parent ↦ JsMap.set p (link child parent) jobs
]

abbrev pub lock_key : Text → Text
lock_key p = text "dep:parent:" ++ p

abbrev pub lock_owner : Text → Text
lock_owner child = text "dep-resolver-" ++ child

module _ (L : LockAdapter) where
  -- The loop over the attempts, `attempt` of which were made: `left` is what 3 leaves.
  unfoldable pub try_lock : ℕ → ℕ → Text → Text → ℕ → L.State → (L.State × ℕ) × Reply
  try_lock zero attempt key owner now lock = ((lock, now), refused)
  try_lock (suc left) attempt key owner now lock =
      let (lock', reply) = L.acquire key owner 5000 now lock in
      let rest = try_lock left (attempt + 1) key owner (now + 50 * (attempt + 1)) lock' in
      elim reply [
        | granted ↦ ((lock', now), granted)
        | refused ↦ rest
        | threw ↦ ((lock', now), threw)
      ]

  pub record Registered : Type 0 where
    pub jobs : Jobs
    pub lock : Option L.State
    -- whether the call returned; else it threw
    pub returned : Bool

  unfoldable pub register_dependencies : Text → List Text → ℕ → Jobs → Option L.State → Registered
  register_dependencies child [] now jobs lock = record {
    jobs = jobs;
    lock = lock;
    returned = true;
  }
  register_dependencies child (p ∷ ps) now jobs none =
      register_dependencies child ps now (link_parent child p jobs) none
  register_dependencies child (p ∷ ps) now jobs (some lock) =
      let ((lock', now'), reply) = try_lock 3 0 (lock_key p) (lock_owner child) now lock in
      let next = link_parent child p jobs in
      let held =
        register_dependencies child ps now' next
          (some (L.release (lock_key p) (lock_owner child) lock')) in
      let unheld = register_dependencies child ps now' next (some lock') in
      elim reply [
        | granted ↦ held
        | refused ↦ unheld
        | threw ↦ record { jobs = jobs; lock = some lock'; returned = false }
      ]

mem-append : (x : Text) (xs : List Text) → mem x (xs ++ x ∷ []) ≡ true
mem-append x [] = ground arith
mem-append x (y ∷ ys) = ground (arith, mem-append x ys)

mem-list_child : (child : Text) (ids : List Text) → mem child (list_child child ids) ≡ true
mem-list_child child ids = ground (arith, mem-append child ids)

link-link : (child : Text) (j : Job) → link child (link child j) ≡ link child j
link-link child j = rw (mem-list_child child (or_else j.children_ids []))

abbrev linked : Text → Option Job → Option Job
linked child none = none
linked child (some j) = some (link child j)

get-link_parent :
    (child p k : Text) (jobs : Jobs)
    → JsMap.get k (link_parent child p jobs)
      ≡ ite (text_discrete p k) (linked child (JsMap.get k jobs)) (JsMap.get k jobs)
unfolding link_parent
get-link_parent child p k jobs = elim (Option-cases (JsMap.get p jobs)) [
  | inl gone ↦ elim (text_discrete p k) [ yes here ↦ ground arith | no away ↦ ground arith ]
  | inr (j, found) ↦ ground (arith, JsMap.get-set k p (link child j) jobs)
]

linked-linked : (child : Text) (o : Option Job) → linked child (linked child o) ≡ linked child o
linked-linked child none = refl
linked-linked child (some j) = ap some (link-link child j)

link_again :
    {P : Type 0} (child : Text) (later : Bool) (here : Dec P) (o : Option Job)
    → (if later then linked child (ite here (linked child o) o) else ite here (linked child o) o)
      ≡ (if ite here true later then linked child o else o)
link_again child true (yes _) o = linked-linked child o
link_again child false (yes _) o = refl
link_again child later (no _) o = refl

-- The parents' records, every one linked in turn.
abbrev link_all : Text → List Text → Jobs → Jobs
link_all child [] jobs = jobs
link_all child (p ∷ ps) jobs = link_all child ps (link_parent child p jobs)

get-link_all :
    (child k : Text) (ps : List Text) (jobs : Jobs)
    → JsMap.get k (link_all child ps jobs)
      ≡ (if mem k ps then linked child (JsMap.get k jobs) else JsMap.get k jobs)
get-link_all child k [] jobs = refl
get-link_all child k (p ∷ ps) jobs = rw (get-link_all child k ps (link_parent child p jobs)) (
    rw (get-link_parent child p k jobs)
      (link_again child (mem k ps) (text_discrete p k) (JsMap.get k jobs)))

register_dependencies-link_all :
    (L : LockAdapter) (child : Text) (ps : List Text) (now : ℕ) (jobs : Jobs)
    (lock : Option L.State)
    → (register_dependencies L child ps now jobs lock).returned ≡ true
    → (register_dependencies L child ps now jobs lock).jobs ≡ link_all child ps jobs
unfolding register_dependencies
register_dependencies-link_all L child [] now jobs lock done = refl
register_dependencies-link_all L child (p ∷ ps) now jobs none done =
    register_dependencies-link_all L child ps now (link_parent child p jobs) none done
register_dependencies-link_all L child (p ∷ ps) now jobs (some lock) done = ground (
  arith,
  register_dependencies-link_all L child ps (tried.0.1) (link_parent child p jobs)
      (some (L.release (lock_key p) (lock_owner child) tried.0.0)),
  register_dependencies-link_all L child ps (tried.0.1) (link_parent child p jobs) (some tried.0.0),
)
  where
    tried : (L.State × ℕ) × Reply
    tried = try_lock L 3 0 (lock_key p) (lock_owner child) now lock

-- When `registerDependencies` returns, with a lock or without and whatever the lock answered, the
-- record of each parent that exists lists the child, once more if it did not before, and every
-- other job is as it was.
pub get-register_dependencies :
    (L : LockAdapter) (child k : Text) (ps : List Text) (now : ℕ) (jobs : Jobs)
    (lock : Option L.State)
    → (register_dependencies L child ps now jobs lock).returned ≡ true
    → JsMap.get k (register_dependencies L child ps now jobs lock).jobs
      ≡ (if mem k ps then linked child (JsMap.get k jobs) else JsMap.get k jobs)
get-register_dependencies L child k ps now jobs lock done =
    rw (register_dependencies-link_all L child ps now jobs lock done) (get-link_all child k ps jobs)
