-- ===== src/Cache/Written.antt =====
-- A value that is read was written under its key by a call before, and may still be served.
use oqronkit.Prelude.{
  if_holds, ℕ, ◌+◌, ◌≤◌, ◌<◌, ◌⊎◌, inl, inr, ◌≡◌, refl, sym, ap, ◌∙◌, subst, ◌&&◌, not, Bool, true,
  false, Option, some, List, [], ◌∷◌, Text, text_discrete, if◌then◌else◌, if_pos, if_neg, arith,
}
use oqronkit.JsMap
use oqronkit.JsMap.{JsMap, get-set}
use oqronkit.Lru
use oqronkit.Cache.{
  CacheConfig, Codec, CacheEntryRecord, CacheState, CacheSetOptions, key_message, prefix_message,
  tags_message, all_message, L1Entry, CacheStats, new_cache, entry_id, grace,
}
use oqronkit.Cache.Engine.{check_circuit, is_circuit_open, get}
use oqronkit.Cache.Writes.{
  entry_record, write_l1, write_l2, new_entry, write_tiers, write_entry, set, delete, collect_tags,
  expired_keys, invalidate_prefix, invalidate_tags, invalidate_all, handle_invalidation_message,
  cleanup_expired,
}
use oqronkit.Cache.Indexed.{id_injective}
use oqronkit.Cache.Calls.{
  Call, call_get, call_delete, call_invalidate_prefix, call_set, call_invalidate_tags,
  call_invalidate_all, call_cleanup_expired, receive, step, run,
}
use oqronkit.Cache.Tiers.{Tier-delete, Tier-set, Tier-clear, Tier-evict_local}
use oqronkit.Cache.Served.{
  EntryOf, Served, get-Gets, delete_key_everywhere-Served, delete_keys-Served, count_evicted-Served,
}

-- What was encoded is decoded.
abbrev pub IsCodec : {V : Type 0} → Codec V → Type 0
IsCodec {V} codec =
    (v : Option V)
    → codec.encodes v ≡ true
    → codec.decode (codec.encode v).0 (codec.encode v).1 ≡ some v

and-right : (a b : Bool) → (a && b) ≡ true → b ≡ true
and-right true b h = h
and-right false b h = ground (arith, h)

module _ {V : Type 0} (config : CacheConfig V) (codec : Codec V) where
  -- The calls before wrote the value under the key, with these dates.
  abbrev pub WrittenBy : List (ℕ × Call V) → Text → Option V → ℕ → ℕ → Type 0
  WrittenBy [] k v x u = ⊥
  WrittenBy ((t, call_set key value opts) ∷ cs) k v x u =
      ((key ≡ k)
        × (value ≡ v)
        × (codec.encodes v ≡ true)
        × (x ≡ (new_entry config codec t key value opts).expires_at)
        × (u ≡ x + grace config))
      ⊎ WrittenBy cs k v x u
  WrittenBy ((t, _) ∷ cs) k v x u = WrittenBy cs k v x u

  module _ (W : Text → Option V → ℕ → ℕ → Type 0) (now : ℕ) where
    write_l1-Served :
        (key : Text) (e : L1Entry V) (s : CacheState V)
        → W key e.value e.expires_at e.stale_until
        → Served config codec W s
        → Served config codec W (write_l1 config codec now key e s)
    unfolding write_l1
    write_l1-Served key e s w i =
        count_evicted-Served config codec W now _ _
          (Tier-set (EntryOf config codec W) key e e.size_bytes s.l1 w i.0, i.1)

    write_l2-Served :
        IsCodec codec
        → (key : Text) (e : L1Entry V) (s : CacheState V) → codec.encodes e.value ≡ true
        → W key e.value e.expires_at e.stale_until
        → Served config codec W s
        → Served config codec W (write_l2 config codec now key e s)
    unfolding write_l2
    write_l2-Served law key e s sound w (t, stored) = (
      t,
      λ k r v found code. elim (text_discrete (entry_id config key) (entry_id config k)) [
        | yes here ↦
            let new : some (entry_record config codec now key e) ≡ some r =
              sym (
                get-set (entry_id config k) (entry_id config key) _ s.entries
                ∙ if_pos (text_discrete (entry_id config key) (entry_id config k)) here _ _)
              ∙ found in
            let same : entry_record config codec now key e ≡ r = cc in
            let read : some e.value ≡ some v =
              sym (law e.value sound)
              ∙ ap (λ (y : CacheEntryRecord). codec.decode y.payload y.encrypted) same
              ∙ code in
            let value : e.value ≡ v = cc in
            let keys : key ≡ k = id_injective config codec now key k here in
            subst (λ (y : CacheEntryRecord). W k v y.expires_at y.stale_until) same
              (subst (λ o. W k o e.expires_at e.stale_until) value
                (subst (λ x. W x e.value e.expires_at e.stale_until) keys w))
        | no away ↦
            stored k r v
              (sym (
                  get-set (entry_id config k) (entry_id config key) _ s.entries
                  ∙ if_neg (text_discrete (entry_id config key) (entry_id config k)) away _ _)
                ∙ found)
              code
      ],
    )

    write_tiers-Served :
        IsCodec codec
        → (key : Text) (e : L1Entry V) (opts : CacheSetOptions) (s : CacheState V)
        → codec.encodes e.value ≡ true
        → W key e.value e.expires_at e.stale_until
        → Served config codec W s
        → Served config codec W (write_tiers config codec now key e opts s)
    write_tiers-Served law key e opts s sound w i =
        let first : CacheState V =
          if config.l1_enabled && not opts.ignore_l1
          then write_l1 config codec now key e s
          else s in
        let i' : Served config codec W first =
          if_holds (Served config codec W) (config.l1_enabled && not opts.ignore_l1) _ _
            (λ on. write_l1-Served key e s w i) (λ off. i) in
        if_holds (Served config codec W) (config.l2_enabled && not opts.ignore_l2) _ _
          (λ on.
            if_holds (Served config codec W) (is_circuit_open config codec now first) _ _ (λ h. i')
              (λ h. write_l2-Served law key e (check_circuit config codec now first) sound w i'))
          (λ off. i')

    -- What a call must have written for the account to be right.
    abbrev Accounts : Call V → Type 0
    Accounts (call_set key value opts) =
        let e = new_entry config codec now key value opts in
        codec.encodes value ≡ true → W key value e.expires_at e.stale_until
    Accounts _ = Unit {0}

    step-Served :
        IsCodec codec
        → ((k : Text) (v : Option V) (x u : ℕ) → W k v x u → x ≤ u)
        → (c : Call V) (s : CacheState V) → Accounts c
        → Served config codec W s
        → Served config codec W (step config codec now c s)
    unfolding step delete set write_entry new_entry invalidate_prefix invalidate_tags invalidate_all
        handle_invalidation_message cleanup_expired
    step-Served law ordered (call_get key) s a i = (get-Gets config codec W now ordered key s i).0
    step-Served law ordered (call_delete key) s a i =
        delete_key_everywhere-Served config codec W now key s i
    step-Served law ordered (call_set key value opts) s a i =
        if_holds (Served config codec W) (s.enabled && codec.encodes value) _ _
          (λ on.
            let sound = and-right s.enabled (codec.encodes value) on in
            write_tiers-Served law key (new_entry config codec now key value opts) opts s sound
              (a sound) i)
          (λ off. i)
    step-Served law ordered (call_invalidate_prefix prefix) s a i =
        let (t, stored) = delete_keys-Served config codec W now _ s i in
        (Tier-evict_local config codec now (EntryOf config codec W) _ _ t, stored)
    step-Served law ordered (call_invalidate_tags tags) s a i =
        let (t, stored) =
          delete_keys-Served config codec W now _
            (record s { tag_index = (collect_tags config codec now tags [] s.tag_index).1 }) i in
        (Tier-evict_local config codec now (EntryOf config codec W) _ _ t, stored)
    step-Served law ordered call_invalidate_all s a i =
        let (t, stored) = delete_keys-Served config codec W now _ s i in
        (Tier-clear (EntryOf config codec W) _, stored)
    step-Served law ordered call_cleanup_expired s a i =
        let swept =
          Tier-evict_local config codec now (EntryOf config codec W)
            (expired_keys config codec now s.l1.entries) s.l1 i.0 in
        count_evicted-Served config codec W now _ _
          (delete_keys-Served config codec W now _ (record s { l1 = _ }) (swept, i.1))
    step-Served law ordered (receive (key_message key)) s a (t, stored) =
        (Tier-delete (EntryOf config codec W) key s.l1 t, stored)
    step-Served law ordered (receive (prefix_message prefix)) s a (t, stored) =
        (Tier-evict_local config codec now (EntryOf config codec W) _ s.l1 t, stored)
    step-Served law ordered (receive (tags_message tags keys)) s a (t, stored) =
        (Tier-evict_local config codec now (EntryOf config codec W) keys s.l1 t, stored)
    step-Served law ordered (receive all_message) s a (t, stored) =
        (Tier-clear (EntryOf config codec W) s.l1, stored)

  WrittenBy-cons :
      (t : ℕ) (c : Call V) (cs : List (ℕ × Call V)) (k : Text) (v : Option V) (x u : ℕ)
      → WrittenBy cs k v x u
      → WrittenBy ((t, c) ∷ cs) k v x u
  WrittenBy-cons t (call_set key value opts) cs k v x u w = inr w
  WrittenBy-cons t (call_get _) cs k v x u w = w
  WrittenBy-cons t (call_delete _) cs k v x u w = w
  WrittenBy-cons t (call_invalidate_prefix _) cs k v x u w = w
  WrittenBy-cons t (call_invalidate_tags _) cs k v x u w = w
  WrittenBy-cons t call_invalidate_all cs k v x u w = w
  WrittenBy-cons t call_cleanup_expired cs k v x u w = w
  WrittenBy-cons t (receive _) cs k v x u w = w

  WrittenBy-Accounts :
      (W : Text → Option V → ℕ → ℕ → Type 0) (t : ℕ) (c : Call V) (cs : List (ℕ × Call V))
      → ((k : Text) (v : Option V) (x u : ℕ) → WrittenBy ((t, c) ∷ cs) k v x u → W k v x u)
      → Accounts W t c
  unfolding new_entry
  WrittenBy-Accounts W t (call_set key value opts) cs h =
      λ sound. h key value _ _ (inl (refl, refl, sound, refl, refl))
  WrittenBy-Accounts W t (call_get _) cs h = tt
  WrittenBy-Accounts W t (call_delete _) cs h = tt
  WrittenBy-Accounts W t (call_invalidate_prefix _) cs h = tt
  WrittenBy-Accounts W t (call_invalidate_tags _) cs h = tt
  WrittenBy-Accounts W t call_invalidate_all cs h = tt
  WrittenBy-Accounts W t call_cleanup_expired cs h = tt
  WrittenBy-Accounts W t (receive _) cs h = tt

  run-Served :
      (W : Text → Option V → ℕ → ℕ → Type 0)
      → IsCodec codec
      → ((k : Text) (v : Option V) (x u : ℕ) → W k v x u → x ≤ u)
      → (cs : List (ℕ × Call V)) (s : CacheState V)
      → ((k : Text) (v : Option V) (x u : ℕ) → WrittenBy cs k v x u → W k v x u)
      → Served config codec W s
      → Served config codec W (run config codec cs s)
  unfolding run
  run-Served W law ordered [] s h i = i
  run-Served W law ordered ((t, c) ∷ cs) s h i =
      run-Served W law ordered cs _ (λ k v x u w. h k v x u (WrittenBy-cons t c cs k v x u w))
        (step-Served W t law ordered c s (WrittenBy-Accounts W t c cs h) i)

  pub WrittenBy-ordered :
      (cs : List (ℕ × Call V)) (k : Text) (v : Option V) (x u : ℕ) → WrittenBy cs k v x u → x ≤ u
  WrittenBy-ordered [] k v x u w = elim w [ ]
  WrittenBy-ordered ((t, call_set key value opts) ∷ cs) k v x u (inl (_, _, _, _, e)) =
      omega (arith, e)
  WrittenBy-ordered ((t, call_set key value opts) ∷ cs) k v x u (inr w) =
      WrittenBy-ordered cs k v x u w
  WrittenBy-ordered ((t, call_get _) ∷ cs) k v x u w = WrittenBy-ordered cs k v x u w
  WrittenBy-ordered ((t, call_delete _) ∷ cs) k v x u w = WrittenBy-ordered cs k v x u w
  WrittenBy-ordered ((t, call_invalidate_prefix _) ∷ cs) k v x u w = WrittenBy-ordered cs k v x u w
  WrittenBy-ordered ((t, call_invalidate_tags _) ∷ cs) k v x u w = WrittenBy-ordered cs k v x u w
  WrittenBy-ordered ((t, call_invalidate_all) ∷ cs) k v x u w = WrittenBy-ordered cs k v x u w
  WrittenBy-ordered ((t, call_cleanup_expired) ∷ cs) k v x u w = WrittenBy-ordered cs k v x u w
  WrittenBy-ordered ((t, receive _) ∷ cs) k v x u w = WrittenBy-ordered cs k v x u w

  pub calls-Served :
      (calls : List (ℕ × Call V)) (max_items : ℕ) (stats : CacheStats)
      → IsCodec codec
      → Served config codec (WrittenBy calls) (run config codec calls (new_cache max_items stats))
  unfolding Lru.get JsMap.get
  calls-Served calls max_items stats law =
      let W = WrittenBy calls in
      let start : Served config codec W (new_cache max_items stats) = (
        (record { distinct = tt; bounded = omega arith }, λ k e h. ground (arith, h)),
        λ k r o h c. ground (arith, h),
      ) in
      run-Served W law (WrittenBy-ordered calls) calls (new_cache max_items stats) (λ k o x u w. w)
        start

  -- After any sets, gets, deletes, invalidations, cleanups and messages of other nodes on a new
  -- cache, whose codec decodes what it encoded: if `get` returns a value, some `set` of the
  -- sequence gave that value for that key, and the time to live and the grace of that entry have
  -- not passed.
  pub get-WrittenBy :
      (calls : List (ℕ × Call V)) (max_items : ℕ) (stats : CacheStats) (now : ℕ) (key : Text)
      (v : V)
      → IsCodec codec
      → (get config codec now key (run config codec calls (new_cache max_items stats))).1 ≡ some v
      → (x : ℕ) × (u : ℕ) × WrittenBy calls key (some v) x u × (now < u)
  get-WrittenBy calls max_items stats now key v law found =
      (get-Gets config codec (WrittenBy calls) now (WrittenBy-ordered calls) key _
          (calls-Served calls max_items stats law)).1
        v found
