-- ===== src/Cache/Engine.antt =====
-- cache/cache-engine.ts: reading, writing and invalidating one cache on one node. The storage does not
-- throw; the clock is read once, as `now`. Hooks and events are left out.
use oqronkit.Prelude.{
  ℕ, ◌+◌, Bool, true, false, ◌||◌, ◌&&◌, Option, none, some, List, [], ◌∷◌, ◌++◌, Text,
  text_discrete, ltb, leb, if◌then◌else◌, or_else, mem, ite,
}
use oqronkit.JsMap
use oqronkit.JsMap.{JsMap}
use oqronkit.Lru
use oqronkit.Lru.{LruCache}
use oqronkit.Cache.{
  CacheConfig, Codec, L1Entry, CacheEntryRecord, CacheTagRecord, CacheStats, CacheState, entry_id,
  tag_id,
}

abbrev pub is_null : {V : Type 0} → Option V → Bool
is_null none = true
is_null (some v) = false

-- `Set.add`
abbrev pub add_key : Text → List Text → List Text
add_key key keys = if mem key keys then keys else keys ++ key ∷ []

abbrev pub add_keys : List Text → List Text → List Text
add_keys [] keys = keys
add_keys (k ∷ ks) keys = add_keys ks (add_key k keys)

-- `startsWith`
abbrev pub starts_with : Text → Text → Bool
starts_with [] s = true
starts_with (c ∷ cs) [] = false
starts_with (c ∷ cs) (d ∷ ds) = if leb c d && leb d c then starts_with cs ds else false

unfoldable pub drop_text : Text → List Text → List Text
drop_text key [] = []
drop_text key (k ∷ ks) = ite (text_discrete k key) (drop_text key ks) (k ∷ drop_text key ks)

module _ {V : Type 0} (config : CacheConfig V) (codec : Codec V) (now : ℕ) where
  -- `isCircuitOpen`: the date that has passed is forgotten.
  abbrev pub is_circuit_open : CacheState V → Bool
  is_circuit_open s = ltb now s.l2_circuit_open_until

  abbrev pub check_circuit : CacheState V → CacheState V
  check_circuit s = record s {
    l2_circuit_open_until = if is_circuit_open s then s.l2_circuit_open_until else 0;
  }

  abbrev pub update_stats : (CacheStats → CacheStats) → CacheState V → CacheState V
  update_stats mutate s = record (check_circuit s) {
    stats = record (mutate s.stats) {
      l1_size = Lru.size s.l1;
      l1_approx_bytes = Lru.approx_bytes s.l1.entries;
      circuit_open = is_circuit_open s;
      updated_at = now;
    };
  }

  abbrev pub record_hit : Bool → Bool → CacheState V → CacheState V
  record_hit in_l1 stale = update_stats (λ t. record t {
    hits = t.hits + 1;
    l1_hits = if in_l1 then t.l1_hits + 1 else t.l1_hits;
    l2_hits = if in_l1 then t.l2_hits else t.l2_hits + 1;
    stale_hits = if stale then t.stale_hits + 1 else t.stale_hits;
    last_access_at = now;
  })

  abbrev pub record_miss : CacheState V → CacheState V
  record_miss = update_stats (λ t. record t { misses = t.misses + 1; last_access_at = now })

  unfoldable pub note_l2_failure : CacheState V → CacheState V
  note_l2_failure s =
      let failures = s.l2_failures + 1 in
      update_stats (λ t. record t { last_error_at = some now })
        (record s {
          l2_failures = failures;
          l2_circuit_open_until =
              if leb (or_else config.failures_threshold 3) failures
              then now + or_else config.reset_timeout_ms 60000
              else s.l2_circuit_open_until;
        })

  -- What `removeKeyFromTag` leaves of a tag's record.
  abbrev pub write_tag :
      Text → CacheTagRecord → List Text → JsMap CacheTagRecord → JsMap CacheTagRecord
  write_tag id r [] tags = JsMap.delete id tags
  write_tag id r (k ∷ ks) tags = JsMap.set id (record r { keys = k ∷ ks; updated_at = now }) tags

  unfoldable pub remove_key_from_tag : Text → Text → JsMap CacheTagRecord → JsMap CacheTagRecord
  remove_key_from_tag tag key tags = elim (JsMap.get (tag_id config tag) tags) [
    | none ↦ tags
    | some r ↦ write_tag (tag_id config tag) r (drop_text key r.keys) tags
  ]

  unfoldable pub remove_key_from_tags :
      List Text → Text → JsMap CacheTagRecord → JsMap CacheTagRecord
  remove_key_from_tags [] key tags = tags
  remove_key_from_tags (t ∷ ts) key tags =
      remove_key_from_tags ts key (remove_key_from_tag t key tags)

  abbrev pub tags_of : Option CacheEntryRecord → List Text
  tags_of none = []
  tags_of (some r) = r.tags

  -- The second tier's part of `deleteKeyEverywhere`; without a record nothing is deleted.
  unfoldable pub delete_key_everywhere : Text → CacheState V → CacheState V
  delete_key_everywhere key s = record s {
    l1 = (Lru.delete key s.l1).0;
    entries = JsMap.delete (entry_id config key) s.entries;
    tag_index =
        remove_key_from_tags (tags_of (JsMap.get (entry_id config key) s.entries)) key s.tag_index;
  }

  abbrev pub existed : Text → CacheState V → Bool
  existed key s = (Lru.delete key s.l1).1 || JsMap.has (entry_id config key) s.entries

  unfoldable pub delete_keys : List Text → CacheState V → CacheState V
  delete_keys [] s = s
  delete_keys (k ∷ ks) s = delete_keys ks (delete_key_everywhere k s)

  -- A tier's answer: the entry and whether it is stale.
  abbrev pub Hit : Type 0
  Hit = Option (L1Entry V × Bool)

  unfoldable pub from_l1 :
      Text → LruCache (L1Entry V) → Option (L1Entry V) → CacheState V → CacheState V × Hit
  from_l1 key l1 none s = (record s { l1 = l1 }, none)
  from_l1 key l1 (some e) s =
      if ltb now e.expires_at
      then (record s { l1 = l1 }, some (e, false))
      else if ltb now e.stale_until
      then (record s { l1 = l1 }, some (e, true))
      else (record s { l1 = (Lru.delete key l1).0 }, none)

  unfoldable pub get_l1 : Text → CacheState V → CacheState V × Hit
  get_l1 key s =
      let (l1, e) = Lru.get key s.l1 in if config.l1_enabled then from_l1 key l1 e s else (s, none)

  abbrev pub entry_of : Text → CacheEntryRecord → Option V → L1Entry V
  entry_of key r value = record {
    value = value;
    key = key;
    tags = r.tags;
    negative = r.negative;
    created_at = r.created_at;
    expires_at = r.expires_at;
    stale_until = r.stale_until;
    size_bytes = r.size_bytes;
  }

  unfoldable pub decoded :
      Text → CacheEntryRecord → Option (Option V) → CacheState V → CacheState V × Hit
  decoded key r none s = (note_l2_failure s, none)
  decoded key r (some value) s =
      let e = entry_of key r value in
      (
        record s { l1 = if config.l1_enabled then (Lru.set key e r.size_bytes s.l1).0 else s.l1 },
        some (e, leb r.expires_at now),
      )

  unfoldable pub from_l2 : Text → Option CacheEntryRecord → CacheState V → CacheState V × Hit
  from_l2 key none s = (s, none)
  from_l2 key (some r) s =
      if leb r.stale_until now
      then (delete_key_everywhere key s, none)
      else decoded key r (codec.decode r.payload r.encrypted) s

  unfoldable pub get_l2 : Text → CacheState V → CacheState V × Hit
  get_l2 key s =
      if config.l2_enabled
      then if is_circuit_open s
        then (s, none)
        else from_l2 key (JsMap.get (entry_id config key) s.entries) (check_circuit s)
      else (s, none)

  unfoldable pub after_l2 : CacheState V → Hit → CacheState V × Option V
  after_l2 s none = (record_miss s, none)
  after_l2 s (some (e, stale)) = (record_hit false stale s, e.value)

  unfoldable pub after_l1 : Text → CacheState V → Hit → CacheState V × Option V
  after_l1 key s none = let (s', hit) = get_l2 key s in after_l2 s' hit
  after_l1 key s (some (e, stale)) = (record_hit true stale s, e.value)

  unfoldable pub get : Text → CacheState V → CacheState V × Option V
  get key s = let (s', hit) = get_l1 key s in if s.enabled then after_l1 key s' hit else (s, none)
