-- ===== src/Cache.antt =====
-- cache/cache-engine.ts, `CacheEngine`: the configuration and the state of one cache, its first tier in
-- the process (cache/lru.ts) and its second in the storage. Child Engine has the reads, Writes the rest.
pub mod Engine
pub mod Writes
pub mod Tagged
pub mod Indexed
pub mod Calls
pub mod Complete
pub mod Tiers
pub mod Served
pub mod Written
pub mod Fetch
pub mod History
use oqronkit.Prelude.{
  ℕ, ◌+◌, Bool, true, false, Option, none, some, List, [], ◌++◌, Text, text, ltb, leb,
  if◌then◌else◌, max, or_else,
}
use oqronkit.JsMap.{JsMap}
use oqronkit.Lru.{LruCache}

-- A value is `none` for null. A function for the time to live is taken with what its context sets.
pub data Ttl (V : Type 0) : Type 0 where
  fixed : ℕ → Ttl V
  dynamic : (Option V → Text → List Text → ℕ) → Ttl V

pub record NegativeCache : Type 0 where
  pub enabled : Bool
  pub ttl_ms : Option ℕ

pub record CacheConfig (V : Type 0) : Type 0 where
  pub name : Text
  -- as it is printed
  pub version : Text
  pub ttl_ms : Ttl V
  pub tags : List Text
  pub stale_while_revalidate_ms : ℕ
  pub stale_if_error_ms : ℕ
  pub negative_cache : NegativeCache
  pub l1_enabled : Bool
  pub l2_enabled : Bool
  pub failures_threshold : Option ℕ
  pub reset_timeout_ms : Option ℕ
  -- the random part of `applyJitter`, if there is one
  pub jitter : Option (ℕ → ℕ)

-- cache/serializer.ts: JSON or the user's functions, compression and encryption, as a pair of functions.
-- Whether the value can be encoded: it is not too large, and nothing throws. Its code and whether it is
-- encrypted; its size; `none` where the decoding throws.
pub record Codec (V : Type 0) : Type 0 where
  pub encodes : Option V → Bool
  pub encode : Option V → Text × Bool
  pub size : Option V → ℕ
  pub decode : Text → Bool → Option (Option V)

pub record L1Entry (V : Type 0) : Type 0 where
  pub value : Option V
  pub key : Text
  pub tags : List Text
  pub negative : Bool
  pub created_at : ℕ
  pub expires_at : ℕ
  pub stale_until : ℕ
  pub size_bytes : ℕ

pub record CacheEntryRecord : Type 0 where
  pub id : Text
  pub key : Text
  pub payload : Text
  pub encrypted : Bool
  pub tags : List Text
  pub negative : Bool
  pub created_at : ℕ
  pub expires_at : ℕ
  pub stale_until : ℕ
  pub size_bytes : ℕ

pub record CacheTagRecord : Type 0 where
  pub id : Text
  pub tag : Text
  pub keys : List Text
  pub created_at : ℕ
  pub updated_at : ℕ

pub record CacheStats : Type 0 where
  pub hits : ℕ
  pub misses : ℕ
  pub stale_hits : ℕ
  pub l1_hits : ℕ
  pub l2_hits : ℕ
  pub sets : ℕ
  pub deletes : ℕ
  pub fetches : ℕ
  pub fetch_errors : ℕ
  pub invalidations : ℕ
  pub evictions : ℕ
  pub average_fetch_latency_ms : ℕ
  pub l1_size : ℕ
  pub l1_approx_bytes : ℕ
  pub circuit_open : Bool
  pub last_access_at : ℕ
  pub last_error_at : Option ℕ
  pub updated_at : ℕ

pub data CacheInvalidationMessage : Type 0 where
  key_message prefix_message : Text → CacheInvalidationMessage
  tags_message : List Text → List Text → CacheInvalidationMessage
  all_message : CacheInvalidationMessage

pub record CacheState (V : Type 0) : Type 0 where
  pub l1 : LruCache (L1Entry V)
  pub l2_failures : ℕ
  pub l2_circuit_open_until : ℕ
  -- the namespaces of the storage, as far as this cache goes
  pub entries : JsMap CacheEntryRecord
  pub tag_index : JsMap CacheTagRecord
  pub stats : CacheStats
  pub enabled : Bool
  -- the messages that were broadcast
  pub sent : List CacheInvalidationMessage

-- The constructor, over a storage with no record of the cache.
abbrev pub new_cache : {V : Type 0} → ℕ → CacheStats → CacheState V
new_cache max_items stats = record {
  l1 = record { entries = []; max_items = max_items };
  l2_failures = 0;
  l2_circuit_open_until = 0;
  entries = [];
  tag_index = [];
  stats = stats;
  enabled = true;
  sent = [];
}

pub record CacheSetOptions : Type 0 where
  pub ttl_ms : Option ℕ
  pub tags : List Text
  pub ignore_l1 : Bool
  pub ignore_l2 : Bool

abbrev pub apply_jitter : Option (ℕ → ℕ) → ℕ → ℕ
apply_jitter none ttl = ttl
apply_jitter (some random) ttl = max 1 (random ttl)

module _ {V : Type 0} (config : CacheConfig V) where
  abbrev pub entry_id : Text → Text
  entry_id key = config.name ++ (text ":" ++ (config.version ++ (text ":" ++ key)))

  abbrev pub tag_id : Text → Text
  tag_id tag = config.name ++ (text ":" ++ (config.version ++ (text ":" ++ tag)))

  abbrev static_ttl : Ttl V → Option V → Text → List Text → ℕ
  static_ttl (fixed ttl) value key tags = ttl
  static_ttl (dynamic f) value key tags = f value key tags

  abbrev null_ttl : Option V → Text → List Text → ℕ
  null_ttl none key tags =
      if config.negative_cache.enabled
      then or_else config.negative_cache.ttl_ms 30000
      else static_ttl config.ttl_ms none key tags
  null_ttl (some v) key tags = static_ttl config.ttl_ms (some v) key tags

  abbrev pub resolve_ttl : Option V → Text → Option ℕ → List Text → ℕ
  resolve_ttl value key override tags = or_else override (null_ttl value key tags)

  abbrev pub grace : ℕ
  grace = max config.stale_while_revalidate_ms config.stale_if_error_ms
