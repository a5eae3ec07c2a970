-- ===== src/Cache/Writes.antt =====
-- cache/cache-engine.ts: writing, invalidation and cleanup. `listEntries` is taken in the order of the
-- map; the order changes nothing, since every record of it is looked at.
use oqronkit.Prelude.{
  ℕ, ◌+◌, Bool, true, ◌&&◌, not, Option, none, some, List, [], ◌∷◌, ◌++◌, Text, leb, if◌then◌else◌,
  length,
}
use oqronkit.JsMap
use oqronkit.JsMap.{JsMap}
use oqronkit.Lru
use oqronkit.Lru.{LruCache}
use oqronkit.Cache.{
  CacheConfig, Codec, L1Entry, CacheEntryRecord, CacheTagRecord, CacheState, CacheSetOptions,
  CacheInvalidationMessage, key_message, prefix_message, tags_message, all_message, apply_jitter,
  entry_id, tag_id, resolve_ttl, grace,
}
use oqronkit.Cache.Engine.{
  is_null, add_key, add_keys, starts_with, check_circuit, is_circuit_open, update_stats,
  delete_key_everywhere, existed, delete_keys,
}

module _ {V : Type 0} (config : CacheConfig V) (codec : Codec V) (now : ℕ) where
  abbrev pub keys_of : Option CacheTagRecord → List Text
  keys_of none = []
  keys_of (some r) = r.keys

  -- `updateTagIndex` for one tag.
  unfoldable pub index_tag : Text → Text → JsMap CacheTagRecord → JsMap CacheTagRecord
  index_tag key tag index =
      let id = tag_id config tag in
      let existing = JsMap.get id index in
      JsMap.set id
        (record {
          id = id;
          tag = tag;
          keys = add_key key (keys_of existing);
          created_at = elim existing [ none ↦ now | some r ↦ r.created_at ];
          updated_at = now;
        })
        index

  unfoldable pub update_tag_index : Text → List Text → JsMap CacheTagRecord → JsMap CacheTagRecord
  update_tag_index key [] index = index
  update_tag_index key (t ∷ ts) index = update_tag_index key ts (index_tag key t index)

  abbrev pub all_tags : CacheSetOptions → List Text
  all_tags opts = add_keys (config.tags ++ opts.tags) []

  abbrev pub count_evicted : List Text → CacheState V → CacheState V
  count_evicted [] s = s
  count_evicted (k ∷ ks) s =
      update_stats config codec now (λ t. record t { evictions = t.evictions + length (k ∷ ks) }) s

  abbrev pub entry_record : Text → L1Entry V → CacheEntryRecord
  entry_record key e = record {
    id = entry_id config key;
    key = key;
    payload = (codec.encode e.value).0;
    encrypted = (codec.encode e.value).1;
    tags = e.tags;
    negative = e.negative;
    created_at = e.created_at;
    expires_at = e.expires_at;
    stale_until = e.stale_until;
    size_bytes = e.size_bytes;
  }

  unfoldable pub write_l1 : Text → L1Entry V → CacheState V → CacheState V
  write_l1 key e s =
      let (l1, evicted) = Lru.set key e e.size_bytes s.l1 in
      count_evicted evicted (record s { l1 = l1 })

  unfoldable pub write_l2 : Text → L1Entry V → CacheState V → CacheState V
  write_l2 key e s = record s {
    entries = JsMap.set (entry_id config key) (entry_record key e) s.entries;
    tag_index = update_tag_index key e.tags s.tag_index;
    l2_failures = 0;
  }

  unfoldable pub new_entry : Text → Option V → CacheSetOptions → L1Entry V
  new_entry key value opts =
      let expires_at =
        now
        + apply_jitter config.jitter (resolve_ttl config value key opts.ttl_ms (all_tags opts)) in
      record {
        value = value;
        key = key;
        tags = all_tags opts;
        negative = is_null value;
        created_at = now;
        expires_at = expires_at;
        stale_until = expires_at + grace config;
        size_bytes = codec.size value;
      }

  abbrev pub write_tiers : Text → L1Entry V → CacheSetOptions → CacheState V → CacheState V
  write_tiers key e opts s =
      let first : CacheState V =
        if config.l1_enabled && not opts.ignore_l1 then write_l1 key e s else s in
      if config.l2_enabled && not opts.ignore_l2
      then (if is_circuit_open config codec now first
          then first
          else write_l2 key e (check_circuit config codec now first))
      else first

  -- Of a value that can be encoded.
  unfoldable pub write_entry : Text → Option V → CacheSetOptions → CacheState V → CacheState V
  write_entry key value opts s = write_tiers key (new_entry key value opts) opts s

  -- It throws, before anything is written, where the value cannot be encoded.
  unfoldable pub set : Text → Option V → CacheSetOptions → CacheState V → CacheState V
  set key value opts s =
      if s.enabled && codec.encodes value
      then update_stats config codec now (λ t. record t { sets = t.sets + 1; last_access_at = now })
          (write_entry key value opts s)
      else s

  abbrev pub broadcast : CacheInvalidationMessage → CacheState V → CacheState V
  broadcast m s = record s { sent = s.sent ++ m ∷ [] }

  unfoldable pub delete : Text → CacheState V → CacheState V × Bool
  delete key s =
      let there = existed config codec now key s in
      (
        update_stats config codec now
            (λ t. record t {
              deletes = t.deletes + 1;
              invalidations = if there then t.invalidations + 1 else t.invalidations;
              last_access_at = now;
            })
            (broadcast (key_message key) (delete_key_everywhere config codec now key s)),
        there,
      )

  abbrev pub after_invalidation : ℕ → CacheState V → CacheState V
  after_invalidation n =
      update_stats config codec now
        (λ t. record t { invalidations = t.invalidations + n; last_access_at = now })

  -- The keys of the records that meet the test.
  unfoldable pub keys_where : (CacheEntryRecord → Bool) → JsMap CacheEntryRecord → List Text
  keys_where ok [] = []
  keys_where ok ((i, r) ∷ rs) = let rest = keys_where ok rs in if ok r then r.key ∷ rest else rest

  unfoldable pub evict_local : List Text → LruCache (L1Entry V) → LruCache (L1Entry V)
  evict_local [] l1 = l1
  evict_local (k ∷ ks) l1 = evict_local ks (Lru.delete k l1).0

  unfoldable pub keys_with_prefix : Text → List Text → List Text
  keys_with_prefix prefix [] = []
  keys_with_prefix prefix (k ∷ ks) =
      let rest = keys_with_prefix prefix ks in if starts_with prefix k then k ∷ rest else rest

  abbrev pub evict_local_prefix : Text → LruCache (L1Entry V) → LruCache (L1Entry V)
  evict_local_prefix prefix l1 = evict_local (keys_with_prefix prefix (JsMap.keys l1.entries)) l1

  unfoldable pub invalidate_prefix : Text → CacheState V → CacheState V × ℕ
  invalidate_prefix prefix s =
      let keys = keys_where (λ r. starts_with prefix r.key) s.entries in
      let deleted = delete_keys config codec now keys s in
      let evicted : CacheState V = record deleted { l1 = evict_local_prefix prefix deleted.l1 } in
      (after_invalidation (length keys) (broadcast (prefix_message prefix) evicted), length keys)

  -- The first loop of `invalidateTags`: the keys of the tags, whose records are deleted.
  unfoldable pub collect_tags :
      List Text → List Text → JsMap CacheTagRecord → List Text × JsMap CacheTagRecord
  collect_tags [] keys index = (keys, index)
  collect_tags (t ∷ ts) keys index =
      collect_tags ts (add_keys (keys_of (JsMap.get (tag_id config t) index)) keys)
        (JsMap.delete (tag_id config t) index)

  unfoldable pub invalidate_tags : List Text → CacheState V → CacheState V × ℕ
  invalidate_tags tags s =
      let (keys, index) = collect_tags tags [] s.tag_index in
      let deleted = delete_keys config codec now keys (record s { tag_index = index }) in
      let evicted : CacheState V = record deleted { l1 = evict_local keys deleted.l1 } in
      (after_invalidation (length keys) (broadcast (tags_message tags keys) evicted), length keys)

  unfoldable pub invalidate_all : CacheState V → CacheState V × ℕ
  invalidate_all s =
      let keys = keys_where (λ r. true) s.entries in
      let deleted = delete_keys config codec now keys s in
      let (cleared, dropped) = Lru.clear deleted.l1 in
      let emptied : CacheState V = record deleted { l1 = cleared; tag_index = [] } in
      (after_invalidation (dropped + length keys) (broadcast all_message emptied), length keys)

  -- The message of another node; one's own, and those of other caches, are dropped before.
  unfoldable pub handle_invalidation_message :
      CacheInvalidationMessage → CacheState V → CacheState V
  handle_invalidation_message (key_message key) s = record s { l1 = (Lru.delete key s.l1).0 }
  handle_invalidation_message (prefix_message prefix) s = record s {
    l1 = evict_local_prefix prefix s.l1;
  }
  handle_invalidation_message (tags_message tags keys) s = record s { l1 = evict_local keys s.l1 }
  handle_invalidation_message all_message s = record s { l1 = (Lru.clear s.l1).0 }

  unfoldable pub expired_keys : JsMap (Lru.LruEntry (L1Entry V)) → List Text
  expired_keys [] = []
  expired_keys ((k, e) ∷ es) =
      let rest = expired_keys es in if leb e.value.stale_until now then k ∷ rest else rest

  unfoldable pub cleanup_expired : CacheState V → CacheState V × ℕ
  cleanup_expired s =
      let local = expired_keys s.l1.entries in
      let swept : CacheState V = record s { l1 = evict_local local s.l1 } in
      let stored = keys_where (λ r. leb r.stale_until now) s.entries in
      let deleted = delete_keys config codec now stored swept in
      (count_evicted (local ++ stored) deleted, length (local ++ stored))
