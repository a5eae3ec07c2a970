-- ===== src/Tests/Cached.antt =====
-- cache/cache-engine.ts at small inputs.
use oqronkit.Prelude.{
  ℕ, ◌<◌, ◌≡◌, refl, true, false, none, some, List, [], ◌∷◌, Option, Text, text, text_discrete,
  ℕ_discrete, mem,
}
use oqronkit.JsMap
use oqronkit.Lru
use oqronkit.Cache.{
  CacheConfig, Codec, CacheEntryRecord, CacheStats, CacheSetOptions, fixed, new_cache,
}
use oqronkit.Cache.Engine.{
  drop_text, note_l2_failure, remove_key_from_tag, remove_key_from_tags, delete_key_everywhere,
  delete_keys, from_l1, get_l1, decoded, from_l2, get_l2, after_l1, after_l2, get,
}
use oqronkit.Cache.Writes.{
  index_tag, update_tag_index, write_l1, write_l2, new_entry, write_entry, set, delete, keys_where,
  evict_local, collect_tags, invalidate_tags,
}
use oqronkit.Cache.Calls.{Call, call_set, step, run}
use oqronkit.Cache.History.{run-invalidate_tags}
use oqronkit.Cache.Written.{IsCodec, WrittenBy, WrittenBy-ordered, get-WrittenBy}
use oqronkit.Cache.Fetch.{
  recover, keep, fetch_failed, answered, Allowed, read_second, read_for_fetch, fetch_and_store,
  after_read, get_or_fetch, get_or_fetch-answer,
}

program : Unit {0}
unfolding text_discrete ℕ_discrete JsMap.get JsMap.set JsMap.delete Lru.get Lru.set Lru.delete
    Lru.evict Lru.put_last Lru.approx_bytes drop_text note_l2_failure remove_key_from_tag
    remove_key_from_tags delete_key_everywhere delete_keys from_l1 get_l1 decoded from_l2 get_l2
    after_l1 after_l2 get index_tag update_tag_index write_l1 write_l2 new_entry write_entry set
    delete keys_where evict_local collect_tags invalidate_tags step run read_second read_for_fetch
    recover keep fetch_and_store after_read get_or_fetch
program = tt

abbrev config : CacheConfig ℕ
config = record {
  name = text "c";
  version = text "1";
  ttl_ms = fixed 100;
  tags = [];
  stale_while_revalidate_ms = 0;
  stale_if_error_ms = 20;
  negative_cache = record { enabled = false; ttl_ms = none };
  l1_enabled = true;
  l2_enabled = true;
  failures_threshold = none;
  reset_timeout_ms = none;
  jitter = none;
}

abbrev to_text : Option ℕ → Text
to_text none = []
to_text (some n) = n ∷ []

abbrev from_text : Text → Option ℕ
from_text [] = none
from_text (n ∷ ns) = some n

abbrev codec : Codec ℕ
codec = record {
  encodes = λ v. true;
  encode = λ v. (to_text v, false);
  size = λ v. 1;
  decode = λ p e. some (from_text p);
}

codec-IsCodec : IsCodec codec
codec-IsCodec none h = refl
codec-IsCodec (some n) h = refl

abbrev no_stats : CacheStats
no_stats = record {
  hits = 0;
  misses = 0;
  stale_hits = 0;
  l1_hits = 0;
  l2_hits = 0;
  sets = 0;
  deletes = 0;
  fetches = 0;
  fetch_errors = 0;
  invalidations = 0;
  evictions = 0;
  average_fetch_latency_ms = 0;
  l1_size = 0;
  l1_approx_bytes = 0;
  circuit_open = false;
  last_access_at = 0;
  last_error_at = none;
  updated_at = 0;
}

abbrev with_tags : List Text → CacheSetOptions
with_tags tags = record { ttl_ms = none; tags = tags; ignore_l1 = false; ignore_l2 = false }

abbrev calls : List (ℕ × Call ℕ)
calls =
    (10, call_set (text "a") (some 7) (with_tags (text "t" ∷ [])))
    ∷ (20, call_set (text "b") (some 8) (with_tags []))
    ∷ []

-- The value is served after it expired, as long as the errors' grace lasts, though nothing failed.
served_stale :
    (get config codec 125 (text "a") (run config codec calls (new_cache 5 no_stats))).1 ≡ some 7
unfolding program
served_stale = refl

abbrev kept : CacheEntryRecord
kept = record {
  id = text "c:1:b";
  key = text "b";
  payload = 8 ∷ [];
  encrypted = false;
  tags = [];
  negative = false;
  created_at = 20;
  expires_at = 120;
  stale_until = 140;
  size_bytes = 1;
}

run-invalidate_tags_example :
    (JsMap.get (text "c:1:b") (run config codec calls (new_cache 5 no_stats)).entries ≡ some kept)
    × ((t : Text) → mem t (text "t" ∷ []) ≡ true → mem t kept.tags ≡ false)
unfolding program
run-invalidate_tags_example =
    run-invalidate_tags config codec calls 5 no_stats 30 (text "t" ∷ []) (text "c:1:b") kept refl

get-WrittenBy_example :
    (x : ℕ) × (u : ℕ) × WrittenBy config codec calls (text "a") (some 7) x u × (125 < u)
unfolding program
get-WrittenBy_example =
    get-WrittenBy config codec calls 5 no_stats 125 (text "a") 7 codec-IsCodec served_stale

-- A fetch that was forced and failed is answered with the stale value.
get_or_fetch-answer_example :
    Allowed config codec false 3 125
      (WrittenBy config codec calls)
      (WrittenBy-ordered config codec calls)
      (text "a")
      fetch_failed
      (answered (some 7))
unfolding program
get_or_fetch-answer_example =
    get_or_fetch-answer config codec false 3 125 calls 5 no_stats true (text "a")
      (record { force_refresh = true; ignore_cache_write = false }) fetch_failed codec-IsCodec
