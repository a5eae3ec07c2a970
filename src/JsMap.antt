-- ===== src/JsMap.antt =====
-- `Map<string, V>` of JavaScript: the entries in order of insertion. Writing to a key that is there
-- keeps its place; a new key goes to the end.
use oqronkit.Prelude.{
  ◌+◌, ◌≡◌, refl, ite, List, [], ◌∷◌, Option, none, some, Bool, true, false, Text, text_discrete,
  length, map, arith,
}

abbrev pub JsMap {ℓ} : Type ℓ → Type ℓ
JsMap V = List (Text × V)

module _ {ℓ} {V : Type ℓ} where
  unfoldable pub get : Text → JsMap V → Option V
  get k [] = none
  get k ((j, v) ∷ m) = ite (text_discrete j k) (some v) (get k m)

  unfoldable pub set : Text → V → JsMap V → JsMap V
  set k v [] = (k, v) ∷ []
  set k v ((j, w) ∷ m) = ite (text_discrete j k) ((j, v) ∷ m) ((j, w) ∷ set k v m)

  unfoldable pub delete : Text → JsMap V → JsMap V
  delete k [] = []
  delete k ((j, w) ∷ m) = ite (text_discrete j k) (delete k m) ((j, w) ∷ delete k m)

  -- `m.has(k)`
  abbrev pub has : Text → JsMap V → Bool
  has k m = elim (get k m) [ none ↦ false | some _ ↦ true ]

  abbrev pub keys : JsMap V → List Text
  keys = map (λ e. e.0)

  pub get-set :
      (j k : Text) (v : V) (m : JsMap V)
      → get j (set k v m) ≡ ite (text_discrete k j) (some v) (get j m)
  unfolding get set
  get-set j k v [] = refl
  get-set j k v ((i, w) ∷ m) = ground (arith, get-set j k v m)

  pub get-delete :
      (j k : Text) (m : JsMap V) → get j (delete k m) ≡ ite (text_discrete k j) none (get j m)
  unfolding get delete
  get-delete j k [] = ground arith
  get-delete j k ((i, w) ∷ m) = ground (arith, get-delete j k m)

  -- A key stands in a map once at most.
  abbrev pub Distinct : JsMap V → Type 0
  Distinct [] = Unit {0}
  Distinct ((k, v) ∷ m) = (has k m ≡ false) × Distinct m

  pub set-Distinct : (k : Text) (v : V) (m : JsMap V) → Distinct m → Distinct (set k v m)
  unfolding set get
  set-Distinct k v [] d = (refl, tt)
  set-Distinct k v ((j, w) ∷ m) d = ground (arith, set-Distinct k v m d.1, get-set j k v m)

  pub delete-Distinct : (k : Text) (m : JsMap V) → Distinct m → Distinct (delete k m)
  unfolding delete
  delete-Distinct k [] d = tt
  delete-Distinct k ((j, w) ∷ m) d = ground (arith, delete-Distinct k m d.1, get-delete j k m)

  pub delete_absent : (k : Text) (m : JsMap V) → has k m ≡ false → delete k m ≡ m
  unfolding delete get
  delete_absent k [] h = refl
  delete_absent k ((j, w) ∷ m) h = ground (arith, delete_absent k m)

  pub length-delete :
      (k : Text) (m : JsMap V) → Distinct m → has k m ≡ true → length (delete k m) + 1 ≡ length m
  unfolding delete get
  length-delete k [] d h = cc
  length-delete k ((j, w) ∷ m) d h = ground (arith, length-delete k m d.1, delete_absent k m)

  pub length-set :
      (k : Text) (v : V) (m : JsMap V)
      → length (set k v m) ≡ (elim (get k m) [ none ↦ length m + 1 | some _ ↦ length m ])
  unfolding set get
  length-set k v [] = ground arith
  length-set k v ((j, w) ∷ m) = ground (arith, length-set k v m)
