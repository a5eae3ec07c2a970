-- ===== src/Cache/Fetch.antt =====
-- cache/cache-engine.ts, `getOrFetch` without the cluster lock, for a fetcher that is there: what it did
-- is an argument. A call that shares the fetch of another, and the refresh in the background of a stale
-- hit, which is a call of its own, are left out, and nothing else runs between the parts of one call.
use oqronkit.Prelude.{
  if_holds, ℕ, ◌+◌, ◌/◌, ◌<◌, ◌≤◌, ◌≡◌, ◌⊎◌, inl, inr, refl, Bool, true, false, ◌&&◌, not, Option,
  none, some, List, Text, leb, if◌then◌else◌,
}
use oqronkit.Cache.{CacheConfig, Codec, CacheState, CacheStats, CacheSetOptions, new_cache}
use oqronkit.Cache.Engine.{update_stats, record_hit, record_miss, Hit, get_l1, get_l2}
use oqronkit.Cache.Writes.{write_entry}
use oqronkit.Cache.Calls.{Call, run}
use oqronkit.Cache.Written.{IsCodec, WrittenBy, WrittenBy-ordered, calls-Served}
use oqronkit.Cache.Served.{Served, Answers, Reads, get_l1-Reads, get_l2-Reads}

pub record CacheFetchOptions : Type 0 where
  pub force_refresh : Bool
  pub ignore_cache_write : Bool

-- What the fetcher did: a value, with the tags and the time to live that it or the options set; or it
-- threw, or took too long.
pub data Fetched (V : Type 0) : Type 0 where
  fetched : Option V → List Text → Option ℕ → Fetched V
  fetch_failed : Fetched V

-- What the call returns; it throws in `fetch_threw`.
pub data Answer (V : Type 0) : Type 0 where
  answered : Option V → Answer V
  fetch_threw : Answer V

module _ {V : Type 0} (config : CacheConfig V) (codec : Codec V) (should_cache_null : Bool)
    (latency now : ℕ) where
  -- `readForFetch`: whether it is the first tier that hit, and the hit.
  unfoldable pub read_second :
      Text → CacheState V → Hit config codec now → CacheState V × (Bool × Hit config codec now)
  read_second key s none = let (s', hit) = get_l2 config codec now key s in (s', (false, hit))
  read_second key s (some h) = (s, (true, some h))

  unfoldable pub read_for_fetch : Text → CacheState V → CacheState V × (Bool × Hit config codec now)
  read_for_fetch key s = let (s', hit) = get_l1 config codec now key s in read_second key s' hit

  abbrev pub count_fetch : CacheState V → CacheState V
  count_fetch = update_stats config codec now (λ t. record t { fetches = t.fetches + 1 })

  -- Half of the sum, rounded up at the half as `Math.round` does.
  abbrev pub count_latency : CacheState V → CacheState V
  count_latency = update_stats config codec now (λ t. record t {
    average_fetch_latency_ms =
        if leb t.fetches 1 then latency else (t.average_fetch_latency_ms + latency + 1) / 2;
  })

  abbrev pub should_cache_value : Option V → Bool
  should_cache_value (some v) = true
  should_cache_value none = should_cache_null

  abbrev pub count_error : CacheState V → CacheState V
  count_error =
      update_stats config codec now
        (λ t. record t { fetch_errors = t.fetch_errors + 1; last_error_at = some now })

  abbrev pub stale_answer : Bool × Hit config codec now → Answer V
  stale_answer (first, none) = fetch_threw
  stale_answer (first, some (e, stale)) = if stale then answered e.value else fetch_threw

  -- The `catch`: the error is counted, and thrown again unless a stale entry is found.
  unfoldable pub recover : Text → CacheState V → CacheState V × Answer V
  recover key s = let (s', read) = read_for_fetch key (count_error s) in (s', stale_answer read)

  -- What was fetched is kept; a value that cannot be encoded ends in the `catch`.
  unfoldable pub keep : Text → Option V → CacheSetOptions → CacheState V → CacheState V × Answer V
  keep key v opts s =
      if codec.encodes v
      then (write_entry config codec now key v opts s, answered v)
      else recover key s

  -- `fetchAndStore`, and with `ignoreCacheWrite` or a disabled instance `fetchValue`.
  unfoldable pub fetch_and_store : Text → Bool → Fetched V → CacheState V → CacheState V × Answer V
  fetch_and_store key writes (fetched v tags ttl) s =
      let counted = count_latency (count_fetch s) in
      let opts : CacheSetOptions = record {
        ttl_ms = ttl;
        tags = tags;
        ignore_l1 = false;
        ignore_l2 = false;
      } in
      if writes && should_cache_value v then keep key v opts counted else (counted, answered v)
  fetch_and_store key writes fetch_failed s =
      if writes then recover key (count_fetch s) else (count_fetch s, fetch_threw)

  unfoldable pub after_read :
      Text
      → CacheFetchOptions
      → Fetched V
      → CacheState V
      → Bool × Hit config codec now
      → CacheState V × Answer V
  after_read key opts f s (first, none) =
      fetch_and_store key (not opts.ignore_cache_write) f (record_miss config codec now s)
  after_read key opts f s (first, some (e, stale)) =
      (record_hit config codec now first stale s, answered e.value)

  unfoldable pub get_or_fetch :
      Text → CacheFetchOptions → Fetched V → CacheState V → CacheState V × Answer V
  get_or_fetch key opts f s =
      let (s', read) = read_for_fetch key s in
      if s.enabled
      then if opts.force_refresh
        then fetch_and_store key (not opts.ignore_cache_write) f s
        else after_read key opts f s' read
      else fetch_and_store key false f s

  module _ (W : Text → Option V → ℕ → ℕ → Type 0)
      (ordered : (k : Text) (v : Option V) (x u : ℕ) → W k v x u → x ≤ u) where
    -- The fetch failed, or what it fetched cannot be encoded.
    abbrev Failed : Fetched V → Type 0
    Failed f =
        (f ≡ fetch_failed)
        ⊎ ((v : Option V) × (tags : List Text) × (ttl : Option ℕ) × (f ≡ fetched v tags ttl)
            × (codec.encodes v ≡ false))

    -- What may be answered: what was fetched, or what was written and may still be served.
    abbrev pub Allowed : Text → Fetched V → Answer V → Type 0
    Allowed key f fetch_threw = Failed f
    Allowed key f (answered v) =
        ((tags : List Text) × (ttl : Option ℕ) × (f ≡ fetched v tags ttl))
        ⊎ ((x : ℕ) × (u : ℕ) × W key v x u × (now < u))

    abbrev Found : Text → CacheState V × (Bool × Hit config codec now) → Type 0
    Found key r = Served config codec W r.0 × Answers config codec W now key r.1.1

    read_second-Found :
        (key : Text) (s : CacheState V) (hit : Hit config codec now)
        → Reads config codec W now key (s, hit)
        → Found key (read_second key s hit)
    unfolding read_second
    read_second-Found key s none (i, a) = get_l2-Reads config codec W now ordered key s i
    read_second-Found key s (some h) (i, a) = (i, a)

    read_for_fetch-Found :
        (key : Text) (s : CacheState V) → Served config codec W s → Found key (read_for_fetch key s)
    unfolding read_for_fetch
    read_for_fetch-Found key s i =
        read_second-Found key (get_l1 config codec now key s).0 (get_l1 config codec now key s).1
          (get_l1-Reads config codec W now ordered key s i)

    stale_answer-Allowed :
        (key : Text) (f : Fetched V) (read : Bool × Hit config codec now)
        → Failed f
        → Answers config codec W now key read.1
        → Allowed key f (stale_answer read)
    stale_answer-Allowed key f (first, none) failed a = failed
    stale_answer-Allowed key f (first, some (e, true)) failed (w, live) =
        inr (e.expires_at, e.stale_until, w, live)
    stale_answer-Allowed key f (first, some (e, false)) failed a = failed

    abbrev AllowedSnd : Text → Fetched V → CacheState V × Answer V → Type 0
    AllowedSnd key f r = Allowed key f r.1

    recover-Allowed :
        (key : Text) (f : Fetched V) (s : CacheState V)
        → Failed f
        → Served config codec W s
        → AllowedSnd key f (recover key s)
    unfolding recover
    recover-Allowed key f s failed i =
        stale_answer-Allowed key f (read_for_fetch key (count_error s)).1 failed
          (read_for_fetch-Found key (count_error s) i).1

    keep-Allowed :
        (key : Text) (v : Option V) (tags : List Text) (ttl : Option ℕ) (opts : CacheSetOptions)
        (s : CacheState V)
        → Served config codec W s
        → AllowedSnd key (fetched v tags ttl) (keep key v opts s)
    unfolding keep
    keep-Allowed key v tags ttl opts s i =
        if_holds (AllowedSnd key (fetched v tags ttl)) (codec.encodes v) _ _
          (λ sound. inl (tags, ttl, refl))
          (λ bad. recover-Allowed key (fetched v tags ttl) s (inr (v, tags, ttl, refl, bad)) i)

    fetch_and_store-Allowed :
        (key : Text) (writes : Bool) (f : Fetched V) (s : CacheState V)
        → Served config codec W s
        → AllowedSnd key f (fetch_and_store key writes f s)
    unfolding fetch_and_store
    fetch_and_store-Allowed key writes (fetched v tags ttl) s i =
        if_holds (AllowedSnd key (fetched v tags ttl)) (writes && should_cache_value v) _ _
          (λ on. keep-Allowed key v tags ttl _ (count_latency (count_fetch s)) i)
          (λ off. inl (tags, ttl, refl))
    fetch_and_store-Allowed key true fetch_failed s i =
        recover-Allowed key fetch_failed (count_fetch s) (inl refl) i
    fetch_and_store-Allowed key false fetch_failed s i = inl refl

    after_read-Allowed :
        (key : Text) (opts : CacheFetchOptions) (f : Fetched V) (s : CacheState V)
        (read : Bool × Hit config codec now)
        → Served config codec W s
        → Answers config codec W now key read.1
        → AllowedSnd key f (after_read key opts f s read)
    unfolding after_read
    after_read-Allowed key opts f s (first, none) i a =
        fetch_and_store-Allowed key (not opts.ignore_cache_write) f (record_miss config codec now s)
          i
    after_read-Allowed key opts f s (first, some (e, stale)) i (w, live) =
        inr (e.expires_at, e.stale_until, w, live)

    get_or_fetch-Allowed :
        (key : Text) (opts : CacheFetchOptions) (f : Fetched V) (s : CacheState V)
        → Served config codec W s
        → Allowed key f (get_or_fetch key opts f s).1
    unfolding get_or_fetch
    get_or_fetch-Allowed key opts f s i =
        let (served, found) = read_for_fetch-Found key s i in
        if_holds (AllowedSnd key f) s.enabled _ _
          (λ on.
            if_holds (AllowedSnd key f) opts.force_refresh _ _
              (λ h. fetch_and_store-Allowed key (not opts.ignore_cache_write) f s i)
              (λ h.
                after_read-Allowed key opts f (read_for_fetch key s).0 (read_for_fetch key s).1
                  served found))
          (λ off. fetch_and_store-Allowed key false f s i)

  -- After any sets, gets, deletes, invalidations, cleanups and messages of other nodes on a new
  -- cache, whose codec decodes what it encoded, with any options, with the instance enabled or not,
  -- where no function of the user throws but the fetcher and those of the codec: `getOrFetch`
  -- returns what its own fetch returned, or a value that some `set` of the sequence gave for that
  -- key and whose time to live and grace have not passed, and it throws only if the fetch failed or
  -- the value that it returned cannot be encoded.
  pub get_or_fetch-answer :
      (calls : List (ℕ × Call V)) (max_items : ℕ) (stats : CacheStats) (enabled : Bool) (key : Text)
      (opts : CacheFetchOptions) (f : Fetched V)
      → IsCodec codec
      → Allowed
          (WrittenBy config codec calls)
          (WrittenBy-ordered config codec calls)
          key
          f
          (get_or_fetch key opts f
            (record (run config codec calls (new_cache max_items stats)) { enabled = enabled })).1
  get_or_fetch-answer calls max_items stats enabled key opts f law =
      get_or_fetch-Allowed (WrittenBy config codec calls) (WrittenBy-ordered config codec calls) key
        opts f (record (run config codec calls (new_cache max_items stats)) { enabled = enabled })
        (calls-Served config codec calls max_items stats law)
