-- ===== src/MemoryStore/Swaps.antt =====
-- `compareAndSet` as a lock: contenders that expect one value of a field and write another.
use oqronkit.Prelude.{
  ℕ, suc, ◌≡◌, refl, ap, ◌∙◌, Bool, true, false, Option, some, List, [], ◌∷◌, Text, text_discrete,
  if_pos, if◌then◌else◌, or_else,
}
use oqronkit.JsMap
use oqronkit.JsMap.{get-set}
use oqronkit.MemoryStore.{
  Value, undefined, Item, MemoryStore, namespace_map, field, save, get, values_equal, as_expected,
  patched, swap, compare_and_set,
}

pub get-save :
    (name id : Text) (item : Item) (s : MemoryStore) → get name id (save name id item s) ≡ some item
unfolding get save
get-save name id item s =
    ap (λ o. JsMap.get id (or_else o []))
      (get-set name name _ s ∙ if_pos (text_discrete name name) refl _ _)
    ∙ get-set id id item (namespace_map name s)
    ∙ if_pos (text_discrete id id) refl _ _

field-set : (key : Text) (v : Value) (item : Item) → field key (JsMap.set key v item) ≡ v
field-set key v item =
    ap (λ o. or_else o undefined) (get-set key key v item ∙ if_pos (text_discrete key key) refl _ _)

module _ (parse : Text → Option ℕ) (name id key : Text) (v : Value) where
  -- One after another each expects `v` in the field and writes a value of its own; how many succeed.
  unfoldable pub contend : List Value → MemoryStore → MemoryStore × ℕ
  contend [] s = (s, 0)
  contend (x ∷ xs) s =
      let (s', won) = compare_and_set parse name id ((key, v) ∷ []) ((key, x) ∷ []) s in
      let (s'', n) = contend xs s' in (s'', if won then suc n else n)

  -- None of the values written is the one that is expected.
  abbrev pub AllOther : List Value → Type 0
  AllOther [] = Unit {0}
  AllOther (x ∷ xs) = (values_equal parse x v ≡ false) × AllOther xs

  -- The stored field as the contenders find it.
  abbrev pub Holds : Bool → MemoryStore → Type 0
  Holds b s =
      (item : Item) × (get name id s ≡ some item) × (values_equal parse (field key item) v ≡ b)

  lost :
      (x : Value) (s : MemoryStore)
      → Holds false s
      → compare_and_set parse name id ((key, v) ∷ []) ((key, x) ∷ []) s ≡ (s, false)
  unfolding compare_and_set swap as_expected
  lost x s (item, there, other) = rw (there, swap) (rw other refl)

  won :
      (x : Value) (s : MemoryStore)
      → values_equal parse x v ≡ false
      → Holds true s
      → ((compare_and_set parse name id ((key, v) ∷ []) ((key, x) ∷ []) s).1 ≡ true)
        × Holds false (compare_and_set parse name id ((key, v) ∷ []) ((key, x) ∷ []) s).0
        × ((item : Item) × (get name id
                (compare_and_set parse name id ((key, v) ∷ []) ((key, x) ∷ []) s).0
              ≡ some item)
            × (field key item ≡ x))
  unfolding compare_and_set swap as_expected patched
  won x s other (item, there, same) =
      let new = JsMap.set key x item in
      let written = field-set key x item in
      rw (there, swap)
        (rw same (
          refl,
          (new, get-save name id new s, rw written other),
          (new, get-save name id new s, written),
        ))

  contend-lost : (xs : List Value) (s : MemoryStore) → Holds false s → contend xs s ≡ (s, 0)
  unfolding contend
  contend-lost [] s h = refl
  contend-lost (x ∷ xs) s h = rw (lost x s h, contend-lost xs s h) refl

  -- One or more contenders call `compareAndSet` one after another, each expecting one value in a
  -- field of a stored record that has it, and each writing another value than that: exactly one
  -- call succeeds, and the field keeps the value of the first.
  pub one_winner :
      (x : Value) (xs : List Value) (s : MemoryStore)
      → AllOther (x ∷ xs)
      → Holds true s
      → ((contend (x ∷ xs) s).1 ≡ 1)
        × ((item : Item) × (get name id (contend (x ∷ xs) s).0 ≡ some item) × (field key item ≡ x))
  unfolding contend
  one_winner x xs s (other, others) h =
      let (first, after, stored) = won x s other h in
      rw
        (
          first,
          contend-lost xs (compare_and_set parse name id ((key, v) ∷ []) ((key, x) ∷ []) s).0 after,
        )
        (refl, stored)
