-- ===== src/Cache/Served.antt =====
-- What is read was written: the invariant of the two tiers, for any account of what was written.
use oqronkit.Prelude.{
  if_holds, ℕ, ◌≤◌, ◌<◌, ◌≡◌, refl, sym, ◌∙◌, subst, Bool, Option, none, some, List, [], ◌∷◌, Text,
  text_discrete, if_pos, if_neg, arith, ltb, leb, leb→lt, ltb→lt,
}
use oqronkit.JsMap
use oqronkit.JsMap.{JsMap, get-set, get-delete}
use oqronkit.Lru
use oqronkit.Lru.{LruCache}
use oqronkit.Cache.{CacheConfig, Codec, CacheEntryRecord, CacheState, L1Entry, entry_id}
use oqronkit.Cache.Engine.{
  check_circuit, is_circuit_open, delete_key_everywhere, delete_keys, entry_of, from_l1, get_l1,
  note_l2_failure, decoded, from_l2, get_l2, after_l1, after_l2, get,
}
use oqronkit.Cache.Writes.{count_evicted}
use oqronkit.Cache.Tiers.{Tier, Tier-get, Tier-delete, Tier-set}

module _ {V : Type 0} (config : CacheConfig V) (codec : Codec V)
    (W : Text → Option V → ℕ → ℕ → Type 0) where
  -- An entry whose key, value and dates were written.
  abbrev pub EntryOf : Text → L1Entry V → Type 0
  EntryOf k e = W k e.value e.expires_at e.stale_until

  abbrev pub Stored : JsMap CacheEntryRecord → Type 0
  Stored entries =
      (k : Text) (r : CacheEntryRecord) (v : Option V)
      → JsMap.get (entry_id config k) entries ≡ some r
      → codec.decode r.payload r.encrypted ≡ some v
      → W k v r.expires_at r.stale_until

  abbrev pub Served : CacheState V → Type 0
  Served s = Tier EntryOf s.l1 × Stored s.entries

  module _ (now : ℕ) where
    -- The answer of a tier: a value that was written and may still be served.
    abbrev pub Answers : Text → Option (L1Entry V × Bool) → Type 0
    Answers key none = Unit {0}
    Answers key (some (e, stale)) = EntryOf key e × (now < e.stale_until)

    abbrev pub Reads : Text → CacheState V × Option (L1Entry V × Bool) → Type 0
    Reads key r = Served r.0 × Answers key r.1

    Stored-delete :
        (key : Text) (entries : JsMap CacheEntryRecord)
        → Stored entries
        → Stored (JsMap.delete (entry_id config key) entries)
    Stored-delete key entries stored k r v found code =
        elim (text_discrete (entry_id config key) (entry_id config k)) [
          | yes here ↦
              let gone =
                get-delete (entry_id config k) (entry_id config key) entries
                ∙ if_pos (text_discrete (entry_id config key) (entry_id config k)) here _ _ in
              let never : none ≡ some r = sym gone ∙ found in ground (arith, never)
          | no away ↦
              let kept =
                get-delete (entry_id config k) (entry_id config key) entries
                ∙ if_neg (text_discrete (entry_id config key) (entry_id config k)) away _ _ in
              stored k r v (sym kept ∙ found) code
        ]

    pub delete_key_everywhere-Served :
        (key : Text) (s : CacheState V)
        → Served s
        → Served (delete_key_everywhere config codec now key s)
    unfolding delete_key_everywhere
    delete_key_everywhere-Served key s (t, stored) =
        (Tier-delete EntryOf key s.l1 t, Stored-delete key s.entries stored)

    pub delete_keys-Served :
        (keys : List Text) (s : CacheState V)
        → Served s
        → Served (delete_keys config codec now keys s)
    unfolding delete_keys
    delete_keys-Served [] s i = i
    delete_keys-Served (k ∷ keys) s i =
        delete_keys-Served keys _ (delete_key_everywhere-Served k s i)

    pub count_evicted-Served :
        (ev : List Text) (s : CacheState V)
        → Served s
        → Served (count_evicted config codec now ev s)
    count_evicted-Served [] s i = i
    count_evicted-Served (k ∷ ks) s i = i

    -- Dates in order: what is fresh is not past its last date.
    module _ (ordered : (k : Text) (v : Option V) (x u : ℕ) → W k v x u → x ≤ u) where
      from_l1-Reads :
          (key : Text) (s : CacheState V) (c : LruCache (L1Entry V)) (o : Option (L1Entry V))
          → Served s
          → Tier EntryOf c
          → ((e : L1Entry V) → o ≡ some e → EntryOf key e)
          → Reads key (from_l1 config codec now key c o s)
      unfolding from_l1
      from_l1-Reads key s c none i t h = ((t, i.1), tt)
      from_l1-Reads key s c (some e) i t h =
          let w = h e refl in
          if_holds (Reads key) (ltb now e.expires_at) _ _
            (λ fresh.
              let before = ltb→lt now e.expires_at fresh in
              let order = ordered key e.value e.expires_at e.stale_until w in
              ((t, i.1), (w, omega arith)))
            (λ old.
              if_holds (Reads key) (ltb now e.stale_until) _ _
                (λ stale. ((t, i.1), (w, ltb→lt now e.stale_until stale)))
                (λ gone. ((Tier-delete EntryOf key c t, i.1), tt)))

      pub get_l1-Reads :
          (key : Text) (s : CacheState V) → Served s → Reads key (get_l1 config codec now key s)
      unfolding get_l1
      get_l1-Reads key s i =
          if_holds (Reads key) config.l1_enabled _ _
            (λ on.
              from_l1-Reads key s (Lru.get key s.l1).0 (Lru.get key s.l1).1 i
                (Tier-get EntryOf key s.l1 i.0) (λ e h. i.0.1 key e h))
            (λ off. (i, tt))

      decoded-Reads :
          (key : Text) (r : CacheEntryRecord) (o : Option (Option V)) (s : CacheState V)
          → Served s
          → now < r.stale_until
          → ((v : Option V) → o ≡ some v → W key v r.expires_at r.stale_until)
          → Reads key (decoded config codec now key r o s)
      unfolding decoded note_l2_failure
      decoded-Reads key r none s i live h = (i, tt)
      decoded-Reads key r (some v) s i live h =
          let w = h v refl in
          let e = entry_of config codec now key r v in
          (
            (
              if_holds (Tier EntryOf) config.l1_enabled _ _
                  (λ on. Tier-set EntryOf key e r.size_bytes s.l1 w i.0) (λ off. i.0),
              i.1,
            ),
            (w, live),
          )

      from_l2-Reads :
          (key : Text) (o : Option CacheEntryRecord) (s : CacheState V)
          → Served s
          → JsMap.get (entry_id config key) s.entries ≡ o
          → Reads key (from_l2 config codec now key o s)
      unfolding from_l2
      from_l2-Reads key none s i e = (i, tt)
      from_l2-Reads key (some r) s i e =
          if_holds (Reads key) (leb r.stale_until now) _ _
            (λ past. (delete_key_everywhere-Served key s i, tt))
            (λ live.
              decoded-Reads key r (codec.decode r.payload r.encrypted) s i
                (leb→lt r.stale_until now live) (λ v h. i.1 key r v e h))

      pub get_l2-Reads :
          (key : Text) (s : CacheState V) → Served s → Reads key (get_l2 config codec now key s)
      unfolding get_l2
      get_l2-Reads key s i =
          if_holds (Reads key) config.l2_enabled _ _
            (λ on.
              if_holds (Reads key) (is_circuit_open config codec now s) _ _ (λ h. (i, tt))
                (λ h.
                  from_l2-Reads key (JsMap.get (entry_id config key) s.entries)
                    (check_circuit config codec now s) i refl))
            (λ off. (i, tt))

      -- What `get` returns, and that the invariant is kept.
      abbrev pub Gets : Text → CacheState V × Option V → Type 0
      Gets key r =
          Served r.0 × ((v : V) → r.1 ≡ some v → (x : ℕ) × (u : ℕ) × W key (some v) x u × (now < u))

      answered :
          (key : Text) (e : L1Entry V) (v : V)
          → EntryOf key e
          → now < e.stale_until
          → e.value ≡ some v
          → (x : ℕ) × (u : ℕ) × W key (some v) x u × (now < u)
      answered key e v w live same = (
        e.expires_at,
        e.stale_until,
        subst (λ o. W key o e.expires_at e.stale_until) same w,
        live,
      )

      after_l2-Gets :
          (key : Text) (s : CacheState V) (hit : Option (L1Entry V × Bool))
          → Reads key (s, hit)
          → Gets key (after_l2 config codec now s hit)
      unfolding after_l2
      after_l2-Gets key s none (i, a) = (i, λ v h. ground (arith, h))
      after_l2-Gets key s (some (e, stale)) (i, (w, live)) = (i, λ v h. answered key e v w live h)

      after_l1-Gets :
          (key : Text) (s : CacheState V) (hit : Option (L1Entry V × Bool))
          → Reads key (s, hit)
          → Gets key (after_l1 config codec now key s hit)
      unfolding after_l1
      after_l1-Gets key s none (i, a) = after_l2-Gets key _ _ (get_l2-Reads key s i)
      after_l1-Gets key s (some (e, stale)) (i, (w, live)) = (i, λ v h. answered key e v w live h)

      pub get-Gets :
          (key : Text) (s : CacheState V) → Served s → Gets key (get config codec now key s)
      unfolding get
      get-Gets key s i =
          if_holds (Gets key) s.enabled _ _
            (λ on.
              after_l1-Gets key (get_l1 config codec now key s).0 (get_l1 config codec now key s).1
                (get_l1-Reads key s i))
            (λ off. (i, λ v h. ground (arith, h)))
