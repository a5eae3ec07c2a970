-- ===== src/MemoryStore/Lists.antt =====
-- The order and the pages of `list`, and what `prune` leaves.
use oqronkit.Prelude.{
  ℕ, suc, ◌+◌, ◌≡◌, ◌≤◌, refl, sym, ap, ◌∙◌, false, Option, none, some, List, [], ◌∷◌, ◌++◌, Text,
  text_discrete, if_pos, if◌then◌else◌, or_else, length, arith, take-append-drop, leb, leb→le,
  leb→lt, if_holds,
}
use oqronkit.JsMap
use oqronkit.JsMap.{JsMap, get-set, Distinct}
use oqronkit.MemoryStore.{
  Value, Item, MemoryStore, namespace_map, get, put_namespace, matches_filter, filter_items, values,
  count, created_at, is_older, prune_map, prune, rank, insert_newest, sort_newest, list,
}

module _ (parse : Text → Option ℕ) where
  -- Every record is at least as late as the first date.
  abbrev pub AllBefore : ℕ → List Item → Type 0
  AllBefore t [] = Unit {0}
  AllBefore t (x ∷ xs) = (rank parse x ≤ t) × AllBefore t xs

  -- The latest first.
  abbrev pub NewestFirst : List Item → Type 0
  NewestFirst [] = Unit {0}
  NewestFirst (x ∷ xs) = AllBefore (rank parse x) xs × NewestFirst xs

  AllBefore-le : (t u : ℕ) (xs : List Item) → t ≤ u → AllBefore t xs → AllBefore u xs
  AllBefore-le t u [] le a = tt
  AllBefore-le t u (x ∷ xs) le (h, a) = (omega (arith, h, le), AllBefore-le t u xs le a)

  AllBefore-insert_newest :
      (t : ℕ) (x : Item) (ys : List Item)
      → rank parse x ≤ t
      → AllBefore t ys
      → AllBefore t (insert_newest parse x ys)
  unfolding insert_newest
  AllBefore-insert_newest t x [] h a = (h, tt)
  AllBefore-insert_newest t x (y ∷ ys) h (h', a) =
      if_holds (AllBefore t) (leb (rank parse y) (rank parse x)) _ _ (λ e. (h, (h', a)))
        (λ e. (h', AllBefore-insert_newest t x ys h a))

  NewestFirst-insert_newest :
      (x : Item) (ys : List Item) → NewestFirst ys → NewestFirst (insert_newest parse x ys)
  unfolding insert_newest
  NewestFirst-insert_newest x [] s = (tt, tt)
  NewestFirst-insert_newest x (y ∷ ys) (a, s) =
      if_holds NewestFirst (leb (rank parse y) (rank parse x)) _ _
        (λ e.
          let le = leb→le (rank parse y) (rank parse x) e in
          ((le, AllBefore-le _ _ ys le a), (a, s)))
        (λ e.
          let lt = leb→lt (rank parse y) (rank parse x) e in
          (
            AllBefore-insert_newest (rank parse y) x ys (omega (arith, lt)) a,
            NewestFirst-insert_newest x ys s,
          ))

  sort_newest-NewestFirst : (xs : List Item) → NewestFirst (sort_newest parse xs)
  unfolding sort_newest
  sort_newest-NewestFirst [] = tt
  sort_newest-NewestFirst (x ∷ xs) = NewestFirst-insert_newest x _ (sort_newest-NewestFirst xs)

  length-insert_newest :
      (x : Item) (ys : List Item) → length (insert_newest parse x ys) ≡ suc (length ys)
  unfolding insert_newest
  length-insert_newest x [] = refl
  length-insert_newest x (y ∷ ys) = ground (arith, length-insert_newest x ys)

  length-sort_newest : (xs : List Item) → length (sort_newest parse xs) ≡ length xs
  unfolding sort_newest
  length-sort_newest [] = refl
  length-sort_newest (x ∷ xs) =
      length-insert_newest x (sort_newest parse xs) ∙ ap suc (length-sort_newest xs)

  -- `list` with any filter and the default order: the first n records and the records from offset n
  -- on make up the whole list, which has the latest `createdAt` first and as many records as
  -- `count` says.
  pub list_pages :
      (name : Text) (filter : List (Text × Value)) (n : ℕ) (s : MemoryStore)
      → (list parse name filter none (some n) s ++ list parse name filter (some n) none s
          ≡ list parse name filter none none s)
        × NewestFirst (list parse name filter none none s)
        × (length (list parse name filter none none s) ≡ count name (some filter) s)
  unfolding list count
  list_pages name filter n s =
      let found = filter_items (matches_filter filter) (values (namespace_map name s)) in
      (
        take-append-drop n (sort_newest parse found),
        sort_newest-NewestFirst found,
        length-sort_newest found,
      )

  length-prune_map :
      (before : ℕ) (m : JsMap Item)
      → length (prune_map parse before m).0 + (prune_map parse before m).1 ≡ length m
  unfolding prune_map
  length-prune_map before [] = omega arith
  length-prune_map before ((id, item) ∷ m) = ground (arith, length-prune_map before m)

  abbrev pub unless_older : ℕ → Option Item → Option Item
  unless_older before none = none
  unless_older before (some item) =
      if is_older parse before (created_at parse item) then none else some item

  get-prune_absent :
      (before : ℕ) (k : Text) (m : JsMap Item)
      → JsMap.has k m ≡ false
      → JsMap.get k (prune_map parse before m).0 ≡ none
  unfolding prune_map JsMap.get
  get-prune_absent before k [] h = refl
  get-prune_absent before k ((id, item) ∷ m) h = ground (arith, get-prune_absent before k m)

  get-prune_map :
      (before : ℕ) (k : Text) (m : JsMap Item)
      → Distinct m
      → JsMap.get k (prune_map parse before m).0 ≡ unless_older before (JsMap.get k m)
  unfolding prune_map JsMap.get
  get-prune_map before k [] d = refl
  get-prune_map before k ((id, item) ∷ m) (absent, d) = elim (text_discrete id k) [
    | yes here ↦
        let gone : JsMap.get k (prune_map parse before m).0 ≡ none =
          get-prune_absent before k m (ap (λ i. JsMap.has i m) (sym here) ∙ absent) in
        ground (arith, here, gone)
    | no away ↦ ground (arith, away, get-prune_map before k m d)
  ]

  -- The number that `prune` returns, and the records that it leaves.
  pub prune_older :
      (name : Text) (before : ℕ) (s : MemoryStore)
      → Distinct (namespace_map name s)
      → (count name none (prune parse name before s).0 + (prune parse name before s).1
          ≡ count name none s)
        × ((id : Text)
            → get name id (prune parse name before s).0 ≡ unless_older before (get name id s))
  unfolding prune count get
  prune_older name before s d =
      let kept = (prune_map parse before (namespace_map name s)).0 in
      let there : namespace_map name (put_namespace name kept s) ≡ kept =
        ap (λ o. or_else o [])
          (get-set name name kept s ∙ if_pos (text_discrete name name) refl _ _) in
      (
        ap (λ (m : JsMap Item). length m + (prune_map parse before (namespace_map name s)).1) there
            ∙ length-prune_map before (namespace_map name s),
        λ id. ap (JsMap.get id) there ∙ get-prune_map before id (namespace_map name s) d,
      )
