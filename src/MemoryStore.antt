-- ===== src/MemoryStore.antt =====
-- engine/memory/memory-store.ts, `MemoryStore`. A record is the map of its fields. Values of the model are
-- never written in place, so that the copies which the store makes are the values themselves.
pub mod Swaps
pub mod Lists
use oqronkit.Prelude.{
  ℕ, zero, suc, ◌+◌, ◌==◌, Bool, true, false, ◌&&◌, ◌||◌, not, Option, none, some, List, [], ◌∷◌,
  ◌++◌, Text, text, text_discrete, ite, ltb, leb, if◌then◌else◌, or_else, length, take, drop, map,
}
use oqronkit.JsMap
use oqronkit.JsMap.{JsMap}

-- A field's value. Other objects are taken as what `JSON.stringify` prints.
pub data Value : Type 0 where
  undefined null : Value
  number date : ℕ → Value
  string object : Text → Value

abbrev pub Item : Type 0
Item = JsMap Value

abbrev pub MemoryStore : Type 0
MemoryStore = JsMap (JsMap Item)

-- `getNamespaceMap`: a namespace that is not there is empty.
abbrev pub namespace_map : Text → MemoryStore → JsMap Item
namespace_map name s = or_else (JsMap.get name s) []

abbrev pub put_namespace : Text → JsMap Item → MemoryStore → MemoryStore
put_namespace name m s = JsMap.set name m s

-- `item[key]`
abbrev pub field : Text → Item → Value
field key item = or_else (JsMap.get key item) undefined

unfoldable pub save : Text → Text → Item → MemoryStore → MemoryStore
save name id item s = put_namespace name (JsMap.set id item (namespace_map name s)) s

unfoldable pub save_if_absent : Text → Text → Item → MemoryStore → MemoryStore × Bool
save_if_absent name id item s =
    if JsMap.has id (namespace_map name s) then (s, false) else (save name id item s, true)

unfoldable pub get : Text → Text → MemoryStore → Option Item
get name id s = JsMap.get id (namespace_map name s)

unfoldable pub delete : Text → Text → MemoryStore → MemoryStore
delete name id s = put_namespace name (JsMap.delete id (namespace_map name s)) s

unfoldable pub bulk_save : Text → List (Text × Item) → MemoryStore → MemoryStore
bulk_save name [] s = s
bulk_save name ((id, item) ∷ records) s = bulk_save name records (save name id item s)

unfoldable pub bulk_delete : Text → List Text → MemoryStore → MemoryStore
bulk_delete name [] s = s
bulk_delete name (id ∷ ids) s = bulk_delete name ids (delete name id s)

abbrev same_text : Text → Text → Bool
same_text s t = ite (text_discrete s t) true false

-- `===` of values that were copied: no two dates or objects are the same.
abbrev pub strict_equal : Value → Value → Bool
strict_equal undefined undefined = true
strict_equal null null = true
strict_equal (number a) (number b) = a == b
strict_equal (string s) (string t) = same_text s t
strict_equal _ _ = false

-- The loop over the entries of a filter.
unfoldable pub matches_filter : List (Text × Value) → Item → Bool
matches_filter [] item = true
matches_filter ((key, v) ∷ filter) item =
    let rest = matches_filter filter item in if strict_equal (field key item) v then rest else false

unfoldable pub filter_items : (Item → Bool) → List Item → List Item
filter_items ok [] = []
filter_items ok (x ∷ xs) = let rest = filter_items ok xs in if ok x then x ∷ rest else rest

abbrev pub values : JsMap Item → List Item
values = map (λ e. e.1)

unfoldable pub count : Text → Option (List (Text × Value)) → MemoryStore → ℕ
count name none s = length (namespace_map name s)
count name (some filter) s =
    length (filter_items (matches_filter filter) (values (namespace_map name s)))

-- `new Date(text).getTime()`, which is none for text that is no date.
module _ (parse : Text → Option ℕ) where
  abbrev pub to_epoch_ms : Value → Option ℕ
  to_epoch_ms (date t) = some t
  to_epoch_ms (number n) = some n
  to_epoch_ms (string s) = parse s
  to_epoch_ms _ = none

  abbrev pub time_equal : Option ℕ → Option ℕ → Bool
  time_equal none none = true
  time_equal (some a) (some b) = a == b
  time_equal _ _ = false

  -- `valuesEqual`: dates by their time, the rest by what it prints.
  abbrev pub values_equal : Value → Value → Bool
  values_equal (date a) v = time_equal (some a) (to_epoch_ms v)
  values_equal v (date b) = time_equal (to_epoch_ms v) (some b)
  values_equal (object s) (object t) = same_text s t
  values_equal a b = strict_equal a b

  unfoldable pub as_expected : List (Text × Value) → Item → Bool
  as_expected [] item = true
  as_expected ((key, v) ∷ expected) item =
      let rest = as_expected expected item in
      if values_equal (field key item) v then rest else false

  -- `{ ...existing, ...patch }`
  unfoldable pub patched : List (Text × Value) → Item → Item
  patched [] item = item
  patched ((key, v) ∷ patch) item = patched patch (JsMap.set key v item)

  unfoldable pub swap :
      Text
      → Text
      → List (Text × Value)
      → List (Text × Value)
      → Option Item
      → MemoryStore
      → MemoryStore × Bool
  swap name id expected patch none s = (s, false)
  swap name id expected patch (some item) s =
      if as_expected expected item then (save name id (patched patch item) s, true) else (s, false)

  unfoldable pub compare_and_set :
      Text → Text → List (Text × Value) → List (Text × Value) → MemoryStore → MemoryStore × Bool
  compare_and_set name id expected patch s = swap name id expected patch (get name id s) s

  abbrev pub created_at : Item → Option ℕ
  created_at item = to_epoch_ms (field (text "createdAt") item)

  abbrev pub is_older : ℕ → Option ℕ → Bool
  is_older before none = false
  is_older before (some t) = ltb t before

  unfoldable pub prune_map : ℕ → JsMap Item → JsMap Item × ℕ
  prune_map before [] = ([], 0)
  prune_map before ((id, item) ∷ m) =
      let (kept, n) = prune_map before m in
      if is_older before (created_at item) then (kept, suc n) else ((id, item) ∷ kept, n)

  unfoldable pub prune : Text → ℕ → MemoryStore → MemoryStore × ℕ
  prune name before s =
      let (kept, n) = prune_map before (namespace_map name s) in (put_namespace name kept s, n)

  -- The default order: `createdAt`, latest first, and 0 for a record without a date.
  abbrev pub rank : Item → ℕ
  rank item = or_else (created_at item) 0

  unfoldable pub insert_newest : Item → List Item → List Item
  insert_newest x [] = x ∷ []
  insert_newest x (y ∷ ys) =
      let rest = insert_newest x ys in if leb (rank y) (rank x) then x ∷ y ∷ ys else y ∷ rest

  unfoldable pub sort_newest : List Item → List Item
  sort_newest [] = []
  sort_newest (x ∷ xs) = insert_newest x (sort_newest xs)

  abbrev page_from : ℕ → Option ℕ → List Item → List Item
  page_from offset (some limit) items = take limit (drop offset items)
  page_from offset none items = drop offset items

  abbrev pub page : Option ℕ → Option ℕ → List Item → List Item
  page offset limit items = page_from (or_else offset 0) limit items

  -- `list` with a filter and no order of one's own.
  unfoldable pub list : Text → List (Text × Value) → Option ℕ → Option ℕ → MemoryStore → List Item
  list name filter offset limit s =
      page offset limit
        (sort_newest (filter_items (matches_filter filter) (values (namespace_map name s))))

-- `Number(value ?? 0)`, 0 where it is no number; `to_number` is `Number` of a text.
abbrev pub current_of : (Text → Option ℕ) → Value → ℕ
current_of to_number undefined = 0
current_of to_number null = 0
current_of to_number (number n) = n
current_of to_number (date t) = t
current_of to_number (string s) = or_else (to_number s) 0
current_of to_number (object s) = 0

unfoldable pub increment :
    (Text → Option ℕ) → Text → Text → Text → ℕ → MemoryStore → MemoryStore × ℕ
increment to_number name id key by s =
    let existing = or_else (get name id s) [] in
    let next = current_of to_number (field key existing) + by in
    (save name id (JsMap.set key (number next) existing) s, next)
