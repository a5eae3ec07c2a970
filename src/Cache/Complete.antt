-- ===== src/Cache/Complete.antt =====
-- Reads and writes keep the index of the tags complete.
use oqronkit.Prelude.{
  if_holds, ℕ, ◌&&◌, not, Option, none, some, List, [], ◌∷◌, Text, if◌then◌else◌, ltb, leb,
}
use oqronkit.JsMap
use oqronkit.JsMap.{JsMap, get-set, get-delete}
use oqronkit.Lru
use oqronkit.Lru.{LruCache}
use oqronkit.Cache.{
  CacheConfig, Codec, CacheEntryRecord, CacheState, CacheSetOptions, L1Entry, entry_id,
}
use oqronkit.Cache.Engine.{
  check_circuit, is_circuit_open, delete_keys, Hit, from_l1, get_l1, note_l2_failure, decoded,
  from_l2, get_l2, after_l1, after_l2, get,
}
use oqronkit.Cache.Writes.{count_evicted, write_l1, new_entry, write_tiers, write_entry, set}
use oqronkit.Cache.Indexed.{Indexed, write_l2-Indexed, delete_key_everywhere-Indexed}

module _ {V : Type 0} (config : CacheConfig V) (codec : Codec V) where
  -- The index does not depend on the clock.
  abbrev pub Complete : CacheState V → Type 0
  Complete = Indexed config codec 0

  module _ (now : ℕ) where
    pub delete_keys-Complete :
        (keys : List Text) (s : CacheState V)
        → Complete s
        → Complete (delete_keys config codec now keys s)
    unfolding delete_keys
    delete_keys-Complete [] s i = i
    delete_keys-Complete (k ∷ keys) s i =
        delete_keys-Complete keys _ (delete_key_everywhere-Indexed config codec now k s i)

    pub count_evicted-Complete :
        (ev : List Text) (s : CacheState V)
        → Complete s
        → Complete (count_evicted config codec now ev s)
    count_evicted-Complete [] s i = i
    count_evicted-Complete (k ∷ ks) s i = i

    -- What holds of the state beside a result.
    abbrev CompleteFst : {A : Type 0} → CacheState V × A → Type 0
    CompleteFst r = Complete r.0

    from_l1-Complete :
        (key : Text) (l1 : LruCache (L1Entry V)) (o : Option (L1Entry V)) (s : CacheState V)
        → Complete s
        → Complete (from_l1 config codec now key l1 o s).0
    unfolding from_l1
    from_l1-Complete key l1 none s i = i
    from_l1-Complete key l1 (some e) s i =
        if_holds CompleteFst (ltb now e.expires_at) _ _ (λ h. i)
          (λ h. if_holds CompleteFst (ltb now e.stale_until) _ _ (λ h'. i) (λ h'. i))

    decoded-Complete :
        (key : Text) (r : CacheEntryRecord) (o : Option (Option V)) (s : CacheState V)
        → Complete s
        → Complete (decoded config codec now key r o s).0
    unfolding decoded note_l2_failure
    decoded-Complete key r none s i = i
    decoded-Complete key r (some v) s i = i

    from_l2-Complete :
        (key : Text) (o : Option CacheEntryRecord) (s : CacheState V)
        → Complete s
        → Complete (from_l2 config codec now key o s).0
    unfolding from_l2
    from_l2-Complete key none s i = i
    from_l2-Complete key (some r) s i =
        if_holds CompleteFst (leb r.stale_until now) _ _
          (λ h. delete_key_everywhere-Indexed config codec now key s i)
          (λ h. decoded-Complete key r (codec.decode r.payload r.encrypted) s i)

    get_l2-Complete :
        (key : Text) (s : CacheState V) → Complete s → Complete (get_l2 config codec now key s).0
    unfolding get_l2
    get_l2-Complete key s i =
        if_holds CompleteFst config.l2_enabled _ _
          (λ on.
            if_holds CompleteFst (is_circuit_open config codec now s) _ _ (λ h. i)
              (λ h.
                from_l2-Complete key (JsMap.get (entry_id config key) s.entries)
                  (check_circuit config codec now s) i))
          (λ off. i)

    after_l2-Complete :
        (s : CacheState V) (hit : Hit config codec now)
        → Complete s
        → Complete (after_l2 config codec now s hit).0
    unfolding after_l2
    after_l2-Complete s none i = i
    after_l2-Complete s (some (e, stale)) i = i

    after_l1-Complete :
        (key : Text) (s : CacheState V) (hit : Hit config codec now)
        → Complete s
        → Complete (after_l1 config codec now key s hit).0
    unfolding after_l1
    after_l1-Complete key s none i = after_l2-Complete _ _ (get_l2-Complete key s i)
    after_l1-Complete key s (some (e, stale)) i = i

    get_l1-Complete :
        (key : Text) (s : CacheState V) → Complete s → Complete (get_l1 config codec now key s).0
    unfolding get_l1
    get_l1-Complete key s i =
        if_holds CompleteFst config.l1_enabled _ _
          (λ on. from_l1-Complete key (Lru.get key s.l1).0 (Lru.get key s.l1).1 s i) (λ off. i)

    pub get-Complete :
        (key : Text) (s : CacheState V) → Complete s → Complete (get config codec now key s).0
    unfolding get
    get-Complete key s i =
        if_holds CompleteFst s.enabled _ _
          (λ on.
            after_l1-Complete key (get_l1 config codec now key s).0
              (get_l1 config codec now key s).1 (get_l1-Complete key s i))
          (λ off. i)

    write_l1-Complete :
        (key : Text) (e : L1Entry V) (s : CacheState V)
        → Complete s
        → Complete (write_l1 config codec now key e s)
    unfolding write_l1
    write_l1-Complete key e s i = count_evicted-Complete _ _ i

    write_tiers-Complete :
        (key : Text) (e : L1Entry V) (opts : CacheSetOptions) (s : CacheState V)
        → Complete s
        → Complete (write_tiers config codec now key e opts s)
    write_tiers-Complete key e opts s i =
        let first : CacheState V =
          if config.l1_enabled && not opts.ignore_l1
          then write_l1 config codec now key e s
          else s in
        let i' : Complete first =
          if_holds Complete (config.l1_enabled && not opts.ignore_l1) _ _
            (λ on. write_l1-Complete key e s i) (λ off. i) in
        if_holds Complete (config.l2_enabled && not opts.ignore_l2) _ _
          (λ on.
            if_holds Complete (is_circuit_open config codec now first) _ _ (λ h. i')
              (λ h.
                write_l2-Indexed config codec now key e (check_circuit config codec now first) i'))
          (λ off. i')

    pub set-Complete :
        (key : Text) (value : Option V) (opts : CacheSetOptions) (s : CacheState V)
        → Complete s
        → Complete (set config codec now key value opts s)
    unfolding set write_entry
    set-Complete key value opts s i =
        if_holds Complete (s.enabled && codec.encodes value) _ _
          (λ on. write_tiers-Complete key (new_entry config codec now key value opts) opts s i)
          (λ off. i)
