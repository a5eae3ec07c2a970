-- ===== src/Tests/Stores.antt =====
-- engine/memory/memory-store.ts at small inputs.
use oqronkit.Prelude.{
  ℕ, ◌≡◌, ◌++◌, refl, none, some, [], ◌∷◌, Option, Text, text, text_discrete, ℕ_discrete, length,
}
use oqronkit.JsMap
use oqronkit.MemoryStore.{
  number, string, Item, MemoryStore, save, get, delete, save_if_absent, increment, matches_filter,
  filter_items, count, as_expected, patched, swap, compare_and_set, insert_newest, sort_newest,
  list, field,
}
use oqronkit.MemoryStore.Swaps.{contend, one_winner}
use oqronkit.MemoryStore.Lists.{NewestFirst, list_pages}

program : Unit {0}
unfolding text_discrete ℕ_discrete JsMap.get JsMap.set JsMap.delete save get delete save_if_absent
    increment matches_filter filter_items count as_expected patched swap compare_and_set
    insert_newest sort_newest list contend
program = tt

abbrev no_dates : Text → Option ℕ
no_dates s = none

abbrev item : ℕ → Item
item t = (text "createdAt", number t) ∷ (text "owner", string (text "none")) ∷ []

abbrev store : MemoryStore
store = (text "jobs", (text "a", item 1) ∷ (text "b", item 5) ∷ (text "c", item 3) ∷ []) ∷ []

by_date : list no_dates (text "jobs") [] none (some 2) store ≡ item 5 ∷ item 3 ∷ []
unfolding program
by_date = refl

counted : (increment no_dates (text "jobs") (text "a") (text "createdAt") 4 store).1 ≡ 5
unfolding program
counted = refl

one_winner_example :
    let owner = text "owner" in
    let free = string (text "none") in
    let bids = string (text "x") ∷ string (text "y") ∷ [] in
    ((contend no_dates (text "jobs") (text "a") owner free bids store).1 ≡ 1)
    × ((i : Item) × (get
            (text "jobs")
            (text "a")
            (contend no_dates (text "jobs") (text "a") owner free bids store).0
          ≡ some i)
        × (field owner i ≡ string (text "x")))
unfolding program
one_winner_example =
    one_winner no_dates (text "jobs") (text "a") (text "owner") (string (text "none"))
      (string (text "x")) (string (text "y") ∷ []) store (refl, (refl, tt)) (item 1, refl, refl)

list_pages_example :
    (list no_dates (text "jobs") [] none (some 2) store
        ++ list no_dates (text "jobs") [] (some 2) none store
      ≡ list no_dates (text "jobs") [] none none store)
    × NewestFirst no_dates (list no_dates (text "jobs") [] none none store)
    × (length (list no_dates (text "jobs") [] none none store)
        ≡ count (text "jobs") (some []) store)
list_pages_example = list_pages no_dates (text "jobs") [] 2 store
