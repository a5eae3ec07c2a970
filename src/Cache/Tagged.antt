-- ===== src/Cache/Tagged.antt =====
-- The index of the tags, and what the invalidation of tags removes.
use oqronkit.Prelude.{
  ℕ, ◌≡◌, inl, inr, refl, sym, ap, ◌∙◌, subst, true, false, ◌||◌, none, some, List, [], ◌∷◌, ◌++◌,
  Text, text_discrete, mem, if_pos, if_neg, arith, Bool-cases,
}
use oqronkit.JsMap
use oqronkit.JsMap.{JsMap, get-set, get-delete}
use oqronkit.Cache.{
  CacheConfig, Codec, CacheEntryRecord, CacheTagRecord, CacheState, entry_id, tag_id,
}
use oqronkit.Cache.Engine.{add_key, add_keys, delete_key_everywhere, delete_keys}
use oqronkit.Cache.Writes.{keys_of, collect_tags, invalidate_tags}

pub mem-append : (k : Text) (xs ys : List Text) → mem k (xs ++ ys) ≡ (mem k xs || mem k ys)
mem-append k [] ys = refl
mem-append k (x ∷ xs) ys = ground (arith, mem-append k xs ys)

-- A set keeps its members, and has the one that is added.
pub mem-add_key :
    (k key : Text) (keys : List Text) → mem k keys ≡ true → mem k (add_key key keys) ≡ true
mem-add_key k key keys h = ground (arith, h, mem-append k keys (key ∷ []))

pub added_key : (key : Text) (keys : List Text) → mem key (add_key key keys) ≡ true
added_key key keys = ground (arith, mem-append key keys (key ∷ []))

mem-add_keys :
    (k : Text) (ks keys : List Text) → mem k keys ≡ true → mem k (add_keys ks keys) ≡ true
mem-add_keys k [] keys h = h
mem-add_keys k (x ∷ ks) keys h = mem-add_keys k ks (add_key x keys) (mem-add_key k x keys h)

added_keys : (k : Text) (ks keys : List Text) → mem k ks ≡ true → mem k (add_keys ks keys) ≡ true
added_keys k [] keys h = ground arith
added_keys k (x ∷ ks) keys h = elim (text_discrete x k) [
  | yes here ↦
      mem-add_keys k ks (add_key x keys)
        (subst (λ y. mem y (add_key x keys) ≡ true) here (added_key x keys))
  | no away ↦ added_keys k ks (add_key x keys) (rw (if_neg (text_discrete x k) away) at h)
]

module _ {V : Type 0} (config : CacheConfig V) (codec : Codec V) (now : ℕ) where
  abbrev pub keys_at : Text → JsMap CacheTagRecord → List Text
  keys_at tag index = keys_of config codec now (JsMap.get (tag_id config tag) index)

  -- Every stored entry stands under the id of its key, and each of its tags has the key in its record.
  abbrev pub IsIndexed : JsMap CacheEntryRecord → JsMap CacheTagRecord → Type 0
  IsIndexed entries index =
      (id : Text) (r : CacheEntryRecord)
      → JsMap.get id entries ≡ some r
      → (id ≡ entry_id config r.key)
        × ((t : Text) → mem t r.tags ≡ true → mem r.key (keys_at t index) ≡ true)

  mem-collect_tags :
      (k : Text) (ts keys : List Text) (index : JsMap CacheTagRecord)
      → mem k keys ≡ true
      → mem k (collect_tags config codec now ts keys index).0 ≡ true
  unfolding collect_tags
  mem-collect_tags k [] keys index h = h
  mem-collect_tags k (t ∷ ts) keys index h =
      mem-collect_tags k ts _ _ (mem-add_keys k (keys_at t index) keys h)

  -- The keys of every tag that is invalidated are collected.
  collected_tags :
      (k t : Text) (ts keys : List Text) (index : JsMap CacheTagRecord)
      → mem t ts ≡ true
      → mem k (keys_at t index) ≡ true
      → mem k (collect_tags config codec now ts keys index).0 ≡ true
  unfolding collect_tags
  collected_tags k t [] keys index there found = ground arith
  collected_tags k t (u ∷ ts) keys index there found =
      elim (text_discrete (tag_id config u) (tag_id config t)) [
        | yes same ↦
            let found' : mem k (keys_at u index) ≡ true =
              subst (λ i. mem k (keys_of config codec now (JsMap.get i index)) ≡ true) (sym same)
                found in
            mem-collect_tags k ts _ _ (added_keys k (keys_at u index) keys found')
        | no other ↦
            let kept : JsMap.get (tag_id config t) (JsMap.delete (tag_id config u) index)
                ≡ JsMap.get (tag_id config t) index =
              get-delete (tag_id config t) (tag_id config u) index
              ∙ if_neg (text_discrete (tag_id config u) (tag_id config t)) other _ _ in
            let away : u ≡ t → ⊥ = λ e. other (ap (tag_id config) e) in
            collected_tags k t ts _ _ (rw (if_neg (text_discrete u t) away) at there)
              (subst (λ o. mem k (keys_of config codec now o) ≡ true) (sym kept) found)
      ]

  -- What is left of the entries when some keys are deleted.
  pub get-delete_keys :
      (id : Text) (r : CacheEntryRecord) (keys : List Text) (s : CacheState V)
      → JsMap.get id (delete_keys config codec now keys s).entries ≡ some r
      → (JsMap.get id s.entries ≡ some r)
        × ((k : Text) → mem k keys ≡ true → (id ≡ entry_id config k) → ⊥)
  unfolding delete_keys delete_key_everywhere
  get-delete_keys id r [] s e = (e, λ k h same. ground arith)
  get-delete_keys id r (x ∷ keys) s e =
      let (before, apart) =
        get-delete_keys id r keys (delete_key_everywhere config codec now x s) e in
      elim (text_discrete (entry_id config x) id) [
        | yes here ↦
            let gone =
              get-delete id (entry_id config x) s.entries
              ∙ if_pos (text_discrete (entry_id config x) id) here _ _ in
            let never : none ≡ some r = sym gone ∙ before in
            (ground (arith, never), λ k h same. ground (arith, never))
        | no away ↦
            let kept =
              get-delete id (entry_id config x) s.entries
              ∙ if_neg (text_discrete (entry_id config x) id) away _ _ in
            (
              sym kept ∙ before,
              λ k h same. elim (text_discrete x k) [
                | yes this ↦ away (ap (entry_id config) this ∙ sym same)
                | no that ↦ apart k (rw (if_neg (text_discrete x k) that) at h) same
              ],
            )
      ]

  pub invalidate_tags-removes :
      (tags : List Text) (s : CacheState V) (id : Text) (r : CacheEntryRecord)
      → IsIndexed s.entries s.tag_index
      → JsMap.get id (invalidate_tags config codec now tags s).0.entries ≡ some r
      → (JsMap.get id s.entries ≡ some r) × ((t : Text) → mem t tags ≡ true → mem t r.tags ≡ false)
  unfolding invalidate_tags
  invalidate_tags-removes tags s id r indexed e =
      let (keys, index) = collect_tags config codec now tags [] s.tag_index in
      let (before, apart) = get-delete_keys id r keys (record s { tag_index = index }) e in
      let (own, listed) = indexed id r before in
      (
        before,
        λ t there. elim (Bool-cases (mem t r.tags)) [
          | inr absent ↦ absent
          | inl present ↦
              elim (apart r.key
                (collected_tags r.key t tags [] s.tag_index there (listed t present)) own) [ ]
        ],
      )
