-- ===== src/Lru.antt =====
-- cache/lru.ts, `LruCache`. The map holds the least recently used entry first.
use oqronkit.Prelude.{
  mem, ℕ, suc, ◌+◌, ◌≡◌, ◌≤◌, refl, ite, Bool, true, false, Option, none, some, List, [], ◌∷◌, ◌++◌,
  Text, text_discrete, ltb, if◌then◌else◌, arith, Option-cases, Bool-cases, inl, inr, sym, ◌∙◌, ap,
  length, min, length-append,
}
use oqronkit.JsMap
use oqronkit.JsMap.{
  JsMap, get-set, get-delete, Distinct, set-Distinct, delete-Distinct, has, delete_absent,
  length-delete, length-set,
}

pub record LruEntry (V : Type 0) : Type 0 where
  pub value : V
  pub size_bytes : ℕ

pub record LruCache (V : Type 0) : Type 0 where
  pub entries : JsMap (LruEntry V)
  pub max_items : ℕ

module _ {V : Type 0} where
  abbrev pub size : LruCache V → ℕ
  size c = length c.entries

  unfoldable pub approx_bytes : JsMap (LruEntry V) → ℕ
  approx_bytes [] = 0
  approx_bytes ((_, e) ∷ m) = e.size_bytes + approx_bytes m

  unfoldable pub get : Text → LruCache V → LruCache V × Option V
  get key c = elim (JsMap.get key c.entries) [
    | none ↦ (c, none)
    | some entry ↦
        (record c { entries = JsMap.set key entry (JsMap.delete key c.entries) }, some entry.value)
  ]

  -- The loop of `set`: the first key of a map is its oldest.
  unfoldable pub evict : ℕ → JsMap (LruEntry V) → JsMap (LruEntry V) × List Text
  evict max_items [] = ([], [])
  evict max_items ((k, e) ∷ m) =
      let rest = evict max_items m in
      if ltb max_items (length ((k, e) ∷ m)) then (rest.0, k ∷ rest.1) else ((k, e) ∷ m, [])

  -- `if (this.map.has(key)) this.map.delete(key); this.map.set(key, ...)`
  unfoldable pub put_last : Text → LruEntry V → JsMap (LruEntry V) → JsMap (LruEntry V)
  put_last key entry m =
      if has key m then JsMap.set key entry (JsMap.delete key m) else JsMap.set key entry m

  unfoldable pub set : Text → V → ℕ → LruCache V → LruCache V × List Text
  set key value size_bytes c =
      let (m, evicted) = evict c.max_items (put_last key entry c.entries) in
      (record c { entries = m }, evicted)
    where
      entry : LruEntry V
      entry = record { value = value; size_bytes = size_bytes }

  unfoldable pub delete : Text → LruCache V → LruCache V × Bool
  delete key c = (record c { entries = JsMap.delete key c.entries }, has key c.entries)

  unfoldable pub clear : LruCache V → LruCache V × ℕ
  clear c = (record c { entries = [] }, size c)

  -- A key stands once, and the cache is within its capacity.
  pub record IsValid (c : LruCache V) : Type 0 where
    pub distinct : Distinct c.entries
    pub bounded : length c.entries ≤ c.max_items

  -- What is evicted and what stays make up the map, oldest first.
  evict-split :
      (n : ℕ) (m : JsMap (LruEntry V)) → JsMap.keys m ≡ (evict n m).1 ++ JsMap.keys (evict n m).0
  unfolding evict
  evict-split n [] = refl
  evict-split n ((k, e) ∷ m) = ground (arith, evict-split n m)

  length-evict : (n : ℕ) (m : JsMap (LruEntry V)) → length (evict n m).0 ≡ min n (length m)
  unfolding evict
  length-evict n [] = omega arith
  length-evict n ((k, e) ∷ m) = ground (arith, length-evict n m)

  evict-Distinct : (n : ℕ) (m : JsMap (LruEntry V)) → Distinct m → Distinct (evict n m).0
  unfolding evict
  evict-Distinct n [] d = tt
  evict-Distinct n ((k, e) ∷ m) d = ground (arith, evict-Distinct n m d.1)

  -- What an evicted key reads as, and any other.
  get-evict :
      (j : Text) (n : ℕ) (m : JsMap (LruEntry V))
      → Distinct m
      → JsMap.get j (evict n m).0 ≡ (if mem j (evict n m).1 then none else JsMap.get j m)
  unfolding evict JsMap.get
  get-evict j n [] d = refl
  get-evict j n ((k, e) ∷ m) d = ground (arith, get-evict j n m d.1)

  put_last-Distinct :
      (k : Text) (e : LruEntry V) (m : JsMap (LruEntry V)) → Distinct m → Distinct (put_last k e m)
  unfolding put_last
  put_last-Distinct k e m d = elim (Bool-cases (has k m)) [
    | inl there ↦ rw (there, put_last) (set-Distinct k e _ (delete-Distinct k m d))
    | inr away ↦ rw (away, put_last) (set-Distinct k e m d)
  ]

  get-put_last :
      (j k : Text) (e : LruEntry V) (m : JsMap (LruEntry V))
      → JsMap.get j (put_last k e m) ≡ ite (text_discrete k j) (some e) (JsMap.get j m)
  unfolding put_last
  get-put_last j k e m =
      ground (arith, get-set j k e m, get-set j k e (JsMap.delete k m), get-delete j k m)

  -- `set` keeps a valid cache valid: no key twice, and no more entries than the capacity.
  pub lru_set-IsValid :
      (key : Text) (value : V) (size_bytes : ℕ) (c : LruCache V)
      → IsValid c
      → IsValid (set key value size_bytes c).0
  unfolding set
  lru_set-IsValid key value size_bytes c v = record {
    distinct = evict-Distinct c.max_items _ (put_last-Distinct key _ c.entries v.distinct);
    bounded = omega (
      arith,
      length-evict c.max_items
          (put_last key (record { value = value; size_bytes = size_bytes }) c.entries),
    );
  }

  pub get-IsValid : (key : Text) (c : LruCache V) → IsValid c → IsValid (get key c).0
  unfolding get
  get-IsValid key c v = elim (Option-cases (JsMap.get key c.entries)) [
    | inl e ↦ rw (e, get) v
    | inr (entry, e) ↦
        rw (e, get)
          (record {
            distinct = set-Distinct key entry _ (delete-Distinct key c.entries v.distinct);
            bounded = ground (
              arith,
              length-set key entry (JsMap.delete key c.entries),
              get-delete key key c.entries,
              length-delete key c.entries v.distinct,
              v.bounded,
            );
          })
  ]

  -- In a valid cache, after `set` an evicted key reads as undefined, the given key as its new value
  -- if it was not evicted, and any other key as before.
  pub value-set :
      (key : Text) (value : V) (size_bytes : ℕ) (c : LruCache V) (j : Text)
      → IsValid c
      → let (c', evicted) = set key value size_bytes c in
        (get j c').1
        ≡ (if mem j evicted then none else ite (text_discrete key j) (some value) (get j c).1)
  unfolding set get
  value-set key value size_bytes c j v =
      let entry : LruEntry V = record { value = value; size_bytes = size_bytes } in
      let m = put_last key entry c.entries in
      ground (
        arith,
        get-evict j c.max_items m (put_last-Distinct key entry c.entries v.distinct),
        get-put_last j key entry c.entries,
      )

  -- `get` changes no value that a later `get` reads.
  pub value-get : (key j : Text) (c : LruCache V) → (get j (get key c).0).1 ≡ (get j c).1
  unfolding get
  value-get key j c = elim (Option-cases (JsMap.get key c.entries)) [
    | inl e ↦ ground arith
    | inr (entry, e) ↦
        ground (arith, get-set j key entry (JsMap.delete key c.entries), get-delete j key c.entries)
  ]

  keys-set_absent :
      (k : Text) (e : LruEntry V) (m : JsMap (LruEntry V))
      → has k m ≡ false
      → JsMap.keys (JsMap.set k e m) ≡ JsMap.keys m ++ k ∷ []
  unfolding JsMap.set JsMap.get
  keys-set_absent k e [] h = refl
  keys-set_absent k e ((j, w) ∷ m) h = ground (arith, keys-set_absent k e m)

  keys-put_last :
      (k : Text) (e : LruEntry V) (m : JsMap (LruEntry V))
      → JsMap.keys (put_last k e m) ≡ JsMap.keys (JsMap.delete k m) ++ k ∷ []
  unfolding put_last
  keys-put_last k e m = elim (Bool-cases (has k m)) [
    | inl there ↦
        rw (there, put_last)
          (keys-set_absent k e (JsMap.delete k m) (ground (arith, get-delete k k m)))
    | inr away ↦ rw (away, put_last, delete_absent k m away) (keys-set_absent k e m away)
  ]

  length-keys : (m : JsMap (LruEntry V)) → length (JsMap.keys m) ≡ length m
  length-keys [] = refl
  length-keys (x ∷ m) = ap suc (length-keys m)

  -- `set` reports the evicted keys: they and then the keys that stay are the old keys without the
  -- given one, least recently used first, followed by that key; and the cache holds the lesser of
  -- its capacity and that number of keys.
  pub set_evicts_oldest :
      (key : Text) (value : V) (size_bytes : ℕ) (c : LruCache V)
      → let (c', evicted) = set key value size_bytes c in
        (JsMap.keys (JsMap.delete key c.entries) ++ key ∷ [] ≡ evicted ++ JsMap.keys c'.entries)
        × (length c'.entries
            ≡ min c.max_items (length (JsMap.keys (JsMap.delete key c.entries)) + 1))
  unfolding set
  set_evicts_oldest key value size_bytes c =
      let entry : LruEntry V = record { value = value; size_bytes = size_bytes } in
      let m = put_last key entry c.entries in
      (
        sym (keys-put_last key entry c.entries) ∙ evict-split c.max_items m,
        omega (
          arith,
          length-evict c.max_items m,
          length-keys m,
          ap length (keys-put_last key entry c.entries),
          length-append (JsMap.keys (JsMap.delete key c.entries)) (key ∷ []),
        ),
      )

  -- `get` of a key that is cached makes it the most recently used and keeps the order of the
  -- others.
  pub keys-get :
      (key : Text) (c : LruCache V)
      → has key c.entries ≡ true
      → JsMap.keys (get key c).0.entries ≡ JsMap.keys (JsMap.delete key c.entries) ++ key ∷ []
  unfolding get
  keys-get key c h = elim (Option-cases (JsMap.get key c.entries)) [
    | inl e ↦ absurd (ground arith)
    | inr (entry, e) ↦
        rw (e, get)
          (keys-set_absent key entry (JsMap.delete key c.entries)
            (ground (arith, get-delete key key c.entries)))
  ]
