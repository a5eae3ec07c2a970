-- ===== src/Cache/History.antt =====
-- What the invalidation of tags removes, after any calls.
use oqronkit.Prelude.{
  if_holds, ℕ, ◌≡◌, inl, inr, refl, sym, ap, ◌∙◌, subst, Bool, true, false, some, List, [], ◌∷◌,
  Text, text_discrete, mem, if_pos, if_neg, arith, Bool-cases,
}
use oqronkit.JsMap
use oqronkit.JsMap.{JsMap, get-set, get-delete}
use oqronkit.Cache.{
  CacheConfig, Codec, CacheEntryRecord, CacheTagRecord, CacheState, key_message, prefix_message,
  tags_message, all_message, CacheStats, new_cache, tag_id,
}
use oqronkit.Cache.Engine.{delete_key_everywhere, delete_keys}
use oqronkit.Cache.Writes.{
  keys_of, delete, keys_where, collect_tags, invalidate_prefix, invalidate_tags, invalidate_all,
  handle_invalidation_message, cleanup_expired,
}
use oqronkit.Cache.Tagged.{get-delete_keys, invalidate_tags-removes}
use oqronkit.Cache.Indexed.{
  Listed, remove_key_from_tags-Listed, id_injective, delete_key_everywhere-Indexed,
}
use oqronkit.Cache.Calls.{
  Call, call_get, call_delete, call_invalidate_prefix, call_set, call_invalidate_tags,
  call_invalidate_all, call_cleanup_expired, receive, step, run,
}
use oqronkit.Cache.Complete.{
  Complete, delete_keys-Complete, count_evicted-Complete, get-Complete, set-Complete,
}

module _ {V : Type 0} (config : CacheConfig V) (codec : Codec V) where
  module _ (now : ℕ) where
    get-collect_tags :
        (t : Text) (tags keys : List Text) (index : JsMap CacheTagRecord)
        → mem t tags ≡ false
        → JsMap.get (tag_id config t) (collect_tags config codec now tags keys index).1
          ≡ JsMap.get (tag_id config t) index
    unfolding collect_tags
    get-collect_tags t [] keys index h = refl
    get-collect_tags t (u ∷ tags) keys index h = elim (text_discrete u t) [
      | yes here ↦
          let never : true ≡ false = rw (if_pos (text_discrete u t) here) at h in
          ground (arith, never)
      | no away ↦
          let apart : tag_id config u ≡ tag_id config t → ⊥ =
            λ e. away (id_injective config codec now u t e) in
          get-collect_tags t tags _ _ (rw (if_neg (text_discrete u t) away) at h)
          ∙ get-delete (tag_id config t) (tag_id config u) index
          ∙ if_neg (text_discrete (tag_id config u) (tag_id config t)) apart _ _
    ]

    delete_keys-Listed :
        (t k : Text) (keys : List Text) (s : CacheState V)
        → mem k keys ≡ false
        → Listed config codec now t k s.tag_index
        → Listed config codec now t k (delete_keys config codec now keys s).tag_index
    unfolding delete_keys delete_key_everywhere
    delete_keys-Listed t k [] s h listed = listed
    delete_keys-Listed t k (x ∷ keys) s h listed = elim (text_discrete x k) [
      | yes here ↦
          let never : true ≡ false = rw (if_pos (text_discrete x k) here) at h in
          ground (arith, never)
      | no away ↦
          delete_keys-Listed t k keys (delete_key_everywhere config codec now x s)
            (rw (if_neg (text_discrete x k) away) at h)
            (remove_key_from_tags-Listed config codec now t k x _ s.tag_index away listed)
    ]

    invalidate_tags-Complete :
        (tags : List Text) (s : CacheState V)
        → Complete config codec s
        → Complete config codec (invalidate_tags config codec now tags s).0
    unfolding invalidate_tags
    invalidate_tags-Complete tags s i id r found =
        let (keys, index) = collect_tags config codec now tags [] s.tag_index in
        let (before, untagged) = invalidate_tags-removes config codec now tags s id r i found in
        let (old, apart) =
          get-delete_keys config codec now id r keys (record s { tag_index = index }) found in
        let (own, listed) = i id r before in
        let kept : mem r.key keys ≡ false = elim (Bool-cases (mem r.key keys)) [
          | inr absent ↦ absent
          | inl present ↦ elim (apart r.key present own) [ ]
        ] in
        (
          own,
          λ t h.
              let outside : mem t tags ≡ false = elim (Bool-cases (mem t tags)) [
                | inr absent ↦ absent
                | inl present ↦
                    let never : true ≡ false = sym h ∙ untagged t present in ground (arith, never)
              ] in
              let same = get-collect_tags t tags [] s.tag_index outside in
              delete_keys-Listed t r.key keys (record s { tag_index = index }) kept
                (subst (λ o. mem r.key (keys_of config codec now o) ≡ true) (sym same)
                  (listed t h)),
        )

    mem-keys_where :
        (ok : CacheEntryRecord → Bool) (id : Text) (r : CacheEntryRecord)
        (entries : JsMap CacheEntryRecord)
        → JsMap.get id entries ≡ some r
        → ok r ≡ true
        → mem r.key (keys_where config codec now ok entries) ≡ true
    unfolding JsMap.get keys_where
    mem-keys_where ok id r [] found good = ground (arith, found)
    mem-keys_where ok id r ((j, x) ∷ entries) found good = elim (text_discrete j id) [
      | yes here ↦
          let e : some x ≡ some r = sym (if_pos (text_discrete j id) here _ _) ∙ found in
          let same : x ≡ r = cc in
          rw (ap ok same ∙ good)
            (if_pos (text_discrete x.key r.key) (ap (λ (y : CacheEntryRecord). y.key) same) _ _)
      | no away ↦
          let rest =
            mem-keys_where ok id r entries (sym (if_neg (text_discrete j id) away _ _) ∙ found)
              good in
          if_holds (λ ks. mem r.key ks ≡ true) (ok x) _ _ (λ h. ground (arith, rest)) (λ h. rest)
    ]

    invalidate_all-Complete :
        (s : CacheState V)
        → Complete config codec s
        → Complete config codec (invalidate_all config codec now s).0
    unfolding invalidate_all
    invalidate_all-Complete s i id r found =
        let (before, apart) = get-delete_keys config codec now id r _ s found in
        let (own, listed) = i id r before in
        elim (apart r.key (mem-keys_where (λ x. true) id r s.entries before refl) own) [ ]

    step-Complete :
        (c : Call V) (s : CacheState V)
        → Complete config codec s
        → Complete config codec (step config codec now c s)
    unfolding step delete invalidate_prefix handle_invalidation_message cleanup_expired
    step-Complete (call_get key) s i = get-Complete config codec now key s i
    step-Complete (call_delete key) s i = delete_key_everywhere-Indexed config codec now key s i
    step-Complete (call_set key value opts) s i = set-Complete config codec now key value opts s i
    step-Complete (call_invalidate_prefix prefix) s i = delete_keys-Complete config codec now _ s i
    step-Complete (call_invalidate_tags tags) s i = invalidate_tags-Complete tags s i
    step-Complete call_invalidate_all s i = invalidate_all-Complete s i
    step-Complete call_cleanup_expired s i =
        count_evicted-Complete config codec now _ _
          (delete_keys-Complete config codec now _ (record s { l1 = _ }) i)
    step-Complete (receive (key_message key)) s i = i
    step-Complete (receive (prefix_message prefix)) s i = i
    step-Complete (receive (tags_message tags keys)) s i = i
    step-Complete (receive all_message) s i = i

  run-Complete :
      (cs : List (ℕ × Call V)) (s : CacheState V)
      → Complete config codec s
      → Complete config codec (run config codec cs s)
  unfolding run
  run-Complete [] s i = i
  run-Complete ((now, c) ∷ cs) s i = run-Complete cs _ (step-Complete now c s i)

  -- After any sets, gets, deletes, invalidations, cleanups and messages of other nodes on a new
  -- cache, `invalidateTags` leaves in the storage only entries that were there before and that
  -- carry none of the tags.
  pub run-invalidate_tags :
      (calls : List (ℕ × Call V)) (max_items : ℕ) (stats : CacheStats) (now : ℕ) (tags : List Text)
      (id : Text) (r : CacheEntryRecord)
      → JsMap.get id
          (invalidate_tags config codec now tags
            (run config codec calls (new_cache max_items stats))).0.entries
        ≡ some r
      → (JsMap.get id (run config codec calls (new_cache max_items stats)).entries ≡ some r)
        × ((t : Text) → mem t tags ≡ true → mem t r.tags ≡ false)
  unfolding JsMap.get
  run-invalidate_tags calls max_items stats now tags id r found =
      let start : Complete config codec (new_cache max_items stats) =
        λ j x there. ground (arith, there) in
      invalidate_tags-removes config codec now tags
        (run config codec calls (new_cache max_items stats)) id r
        (run-Complete calls (new_cache max_items stats) start) found
