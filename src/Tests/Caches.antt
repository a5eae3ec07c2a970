-- ===== src/Tests/Caches.antt =====
-- cache/lru.ts at small inputs.
use oqronkit.Prelude.{
  ℕ, ◌+◌, ◌≡◌, refl, [], ◌∷◌, ◌++◌, Text, text, text_discrete, arith, ℕ_discrete, length, min,
}
use oqronkit.JsMap
use oqronkit.Lru.{LruCache, get, set, put_last, evict, IsValid, set_evicts_oldest}

program : Unit {0}
unfolding text_discrete ℕ_discrete JsMap.get JsMap.set JsMap.delete get set put_last evict
program = tt

abbrev a : Text
a = text "a"

abbrev b : Text
b = text "b"

abbrev c : Text
c = text "c"

abbrev two : LruCache ℕ
two = record {
  entries =
      (a, record { value = 1; size_bytes = 8 }) ∷ (b, record { value = 2; size_bytes = 8 }) ∷ [];
  max_items = 2;
}

two-IsValid : IsValid two
unfolding program
two-IsValid = record { distinct = (refl, (refl, tt)); bounded = omega arith }

evicts_b : (set c 3 8 (get a two).0).1 ≡ b ∷ []
unfolding program
evicts_b = refl

set_evicts_oldest_example :
    (JsMap.keys (JsMap.delete c two.entries) ++ c ∷ []
      ≡ (set c 3 8 two).1 ++ JsMap.keys (set c 3 8 two).0.entries)
    × (length (set c 3 8 two).0.entries
        ≡ min 2 (length (JsMap.keys (JsMap.delete c two.entries)) + 1))
set_evicts_oldest_example = set_evicts_oldest c 3 8 two
