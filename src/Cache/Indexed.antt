-- ===== src/Cache/Indexed.antt =====
-- Every call keeps the index of the tags complete.
use oqronkit.Prelude.{
  ℕ, ◌≡◌, inl, inr, refl, sym, ap, ◌∙◌, subst, true, none, some, List, [], ◌∷◌, ◌++◌, Text, text,
  text_discrete, mem, if_pos, if_neg, arith, Option-cases, tail_eq,
}
use oqronkit.JsMap
use oqronkit.JsMap.{JsMap, get-set, get-delete}
use oqronkit.Cache.{CacheConfig, Codec, CacheTagRecord, CacheState, L1Entry, entry_id, tag_id}
use oqronkit.Cache.Engine.{
  drop_text, write_tag, remove_key_from_tag, remove_key_from_tags, delete_key_everywhere,
}
use oqronkit.Cache.Writes.{keys_of, index_tag, update_tag_index, entry_record, write_l2}
use oqronkit.Cache.Tagged.{mem-add_key, added_key, keys_at, IsIndexed}

pub append_cancel : (xs ys zs : Text) → xs ++ ys ≡ xs ++ zs → ys ≡ zs
append_cancel [] ys zs e = e
append_cancel (x ∷ xs) ys zs e = append_cancel xs ys zs (tail_eq e)

mem-drop_text :
    (k key : Text) (keys : List Text)
    → (key ≡ k → ⊥)
    → mem k keys ≡ true
    → mem k (drop_text key keys) ≡ true
unfolding drop_text
mem-drop_text k key [] away h = h
mem-drop_text k key (x ∷ xs) away h = elim (text_discrete x key) [
  | yes here ↦
      let apart : x ≡ k → ⊥ = λ e. away (sym here ∙ e) in
      rw (if_pos (text_discrete x key) here)
        (mem-drop_text k key xs away (rw (if_neg (text_discrete x k) apart) at h))
  | no other ↦ elim (text_discrete x k) [
    | yes this ↦ rw (if_neg (text_discrete x key) other) (if_pos (text_discrete x k) this _ _)
    | no that ↦ rw (if_neg (text_discrete x key) other) (
        if_neg (text_discrete x k) that _ _
        ∙ mem-drop_text k key xs away (rw (if_neg (text_discrete x k) that) at h))
  ]
]

module _ {V : Type 0} (config : CacheConfig V) (codec : Codec V) (now : ℕ) where
  -- A cancelled prefix: the ids of two keys, or of two tags.
  pub id_injective : (a b : Text) → tag_id config a ≡ tag_id config b → a ≡ b
  id_injective a b e =
      let e1 = append_cancel config.name _ _ e in
      let e2 = append_cancel (text ":") _ _ e1 in
      let e3 = append_cancel config.version _ _ e2 in append_cancel (text ":") a b e3

  -- Whether the tag's record has the key.
  abbrev pub Listed : Text → Text → JsMap CacheTagRecord → Type 0
  Listed t k index = mem k (keys_at config codec now t index) ≡ true

  index_tag-Listed :
      (t k key tag : Text) (index : JsMap CacheTagRecord)
      → Listed t k index
      → Listed t k (index_tag config codec now key tag index)
  unfolding index_tag
  index_tag-Listed t k key tag index h =
      elim (text_discrete (tag_id config tag) (tag_id config t)) [
        | yes same ↦
            let old : Listed tag k index =
              subst (λ i. mem k (keys_of config codec now (JsMap.get i index)) ≡ true) (sym same)
                h in
            rw
              (
                get-set (tag_id config t) (tag_id config tag) _ index,
                if_pos (text_discrete (tag_id config tag) (tag_id config t)) same,
              )
              (mem-add_key k key (keys_at config codec now tag index) old)
        | no other ↦
            rw
              (
                get-set (tag_id config t) (tag_id config tag) _ index,
                if_neg (text_discrete (tag_id config tag) (tag_id config t)) other,
              )
              h
      ]

  index_tag-new :
      (key tag : Text) (index : JsMap CacheTagRecord)
      → Listed tag key (index_tag config codec now key tag index)
  unfolding index_tag
  index_tag-new key tag index =
      rw
        (
          get-set (tag_id config tag) (tag_id config tag) _ index,
          if_pos (text_discrete (tag_id config tag) (tag_id config tag)) refl,
        )
        (added_key key (keys_at config codec now tag index))

  update_tag_index-Listed :
      (t k key : Text) (tags : List Text) (index : JsMap CacheTagRecord)
      → Listed t k index
      → Listed t k (update_tag_index config codec now key tags index)
  unfolding update_tag_index
  update_tag_index-Listed t k key [] index h = h
  update_tag_index-Listed t k key (u ∷ tags) index h =
      update_tag_index-Listed t k key tags _ (index_tag-Listed t k key u index h)

  update_tag_index-new :
      (t key : Text) (tags : List Text) (index : JsMap CacheTagRecord)
      → mem t tags ≡ true
      → Listed t key (update_tag_index config codec now key tags index)
  unfolding update_tag_index
  update_tag_index-new t key [] index h = ground arith
  update_tag_index-new t key (u ∷ tags) index h = elim (text_discrete u t) [
    | yes here ↦ update_tag_index-Listed t key key tags _ (
        subst (λ x. Listed x key (index_tag config codec now key u index)) here
          (index_tag-new key u index))
    | no away ↦ update_tag_index-new t key tags _ (rw (if_neg (text_discrete u t) away) at h)
  ]

  abbrev pub Indexed : CacheState V → Type 0
  Indexed s = IsIndexed config codec now s.entries s.tag_index

  pub write_l2-Indexed :
      (key : Text) (e : L1Entry V) (s : CacheState V)
      → Indexed s
      → Indexed (write_l2 config codec now key e s)
  unfolding write_l2
  write_l2-Indexed key e s indexed id r found = elim (text_discrete (entry_id config key) id) [
    | yes here ↦
        let same : some (entry_record config codec now key e) ≡ some r =
          sym (
            get-set id (entry_id config key) _ s.entries
            ∙ if_pos (text_discrete (entry_id config key) id) here _ _)
          ∙ found in
        let eq : entry_record config codec now key e ≡ r = cc in
        subst
          (λ x.
            (id ≡ entry_id config x.key)
            × ((t : Text)
                → mem t x.tags ≡ true
                → Listed t x.key (update_tag_index config codec now key e.tags s.tag_index)))
          eq (sym here, λ t h. update_tag_index-new t key e.tags s.tag_index h)
    | no away ↦
        let old =
          sym (
            get-set id (entry_id config key) _ s.entries
            ∙ if_neg (text_discrete (entry_id config key) id) away _ _)
          ∙ found in
        let (own, listed) = indexed id r old in
        (own, λ t h. update_tag_index-Listed t r.key key e.tags s.tag_index (listed t h))
  ]

  -- Taking one key off the records leaves the others.
  write_tag-Listed :
      (t k id : Text) (r : CacheTagRecord) (keys : List Text) (index : JsMap CacheTagRecord)
      → (id ≡ tag_id config t → mem k keys ≡ true)
      → Listed t k index
      → Listed t k (write_tag config codec now id r keys index)
  write_tag-Listed t k id r [] index h listed = elim (text_discrete id (tag_id config t)) [
    | yes here ↦ let never = h here in ground (arith, never)
    | no away ↦
        rw (get-delete (tag_id config t) id index, if_neg (text_discrete id (tag_id config t)) away)
          listed
  ]
  write_tag-Listed t k id r (x ∷ xs) index h listed = elim (text_discrete id (tag_id config t)) [
    | yes here ↦
        rw (get-set (tag_id config t) id _ index, if_pos (text_discrete id (tag_id config t)) here)
          (h here)
    | no away ↦
        rw (get-set (tag_id config t) id _ index, if_neg (text_discrete id (tag_id config t)) away)
          listed
  ]

  remove_key_from_tag-Listed :
      (t k key tag : Text) (index : JsMap CacheTagRecord)
      → (key ≡ k → ⊥)
      → Listed t k index
      → Listed t k (remove_key_from_tag config codec now tag key index)
  unfolding remove_key_from_tag
  remove_key_from_tag-Listed t k key tag index away listed =
      elim (Option-cases (JsMap.get (tag_id config tag) index)) [
        | inl none_there ↦ rw (none_there, remove_key_from_tag) listed
        | inr (r, there) ↦
            rw (there, remove_key_from_tag)
              (write_tag-Listed t k (tag_id config tag) r (drop_text key r.keys) index
                (λ same. mem-drop_text k key r.keys away (
                  subst (λ o. mem k (keys_of config codec now o) ≡ true)
                    (ap (λ i. JsMap.get i index) (sym same) ∙ there) listed))
                listed)
      ]

  pub remove_key_from_tags-Listed :
      (t k key : Text) (tags : List Text) (index : JsMap CacheTagRecord)
      → (key ≡ k → ⊥)
      → Listed t k index
      → Listed t k (remove_key_from_tags config codec now tags key index)
  unfolding remove_key_from_tags
  remove_key_from_tags-Listed t k key [] index away listed = listed
  remove_key_from_tags-Listed t k key (u ∷ us) index away listed =
      remove_key_from_tags-Listed t k key us _ away
        (remove_key_from_tag-Listed t k key u index away listed)

  pub delete_key_everywhere-Indexed :
      (key : Text) (s : CacheState V)
      → Indexed s
      → Indexed (delete_key_everywhere config codec now key s)
  unfolding delete_key_everywhere
  delete_key_everywhere-Indexed key s indexed id r found =
      elim (text_discrete (entry_id config key) id) [
        | yes here ↦
            let gone =
              get-delete id (entry_id config key) s.entries
              ∙ if_pos (text_discrete (entry_id config key) id) here _ _ in
            let never : none ≡ some r = sym gone ∙ found in ground (arith, never)
        | no away ↦
            let old =
              sym (
                get-delete id (entry_id config key) s.entries
                ∙ if_neg (text_discrete (entry_id config key) id) away _ _)
              ∙ found in
            let (own, listed) = indexed id r old in
            (
              own,
              λ t h.
                  remove_key_from_tags-Listed t r.key key _ s.tag_index
                    (λ e. away (ap (entry_id config) e ∙ sym own)) (listed t h),
            )
      ]
