-- ===== src/Cache/Calls.antt =====
-- Any calls on one cache, at any times, with messages of other nodes in between.
use oqronkit.Prelude.{ℕ, Option, List, [], ◌∷◌, Text}
use oqronkit.Cache.{CacheConfig, Codec, CacheState, CacheSetOptions, CacheInvalidationMessage}
use oqronkit.Cache.Engine.{get}
use oqronkit.Cache.Writes.{
  set, delete, invalidate_prefix, invalidate_tags, invalidate_all, handle_invalidation_message,
  cleanup_expired,
}

pub data Call (V : Type 0) : Type 0 where
  call_get call_delete call_invalidate_prefix : Text → Call V
  call_set : Text → Option V → CacheSetOptions → Call V
  call_invalidate_tags : List Text → Call V
  call_invalidate_all call_cleanup_expired : Call V
  receive : CacheInvalidationMessage → Call V

module _ {V : Type 0} (config : CacheConfig V) (codec : Codec V) where
  unfoldable pub step : ℕ → Call V → CacheState V → CacheState V
  step now (call_get key) s = (get config codec now key s).0
  step now (call_delete key) s = (delete config codec now key s).0
  step now (call_set key value opts) s = set config codec now key value opts s
  step now (call_invalidate_prefix prefix) s = (invalidate_prefix config codec now prefix s).0
  step now (call_invalidate_tags tags) s = (invalidate_tags config codec now tags s).0
  step now call_invalidate_all s = (invalidate_all config codec now s).0
  step now call_cleanup_expired s = (cleanup_expired config codec now s).0
  step now (receive m) s = handle_invalidation_message config codec now m s

  unfoldable pub run : List (ℕ × Call V) → CacheState V → CacheState V
  run [] s = s
  run ((now, c) ∷ cs) s = run cs (step now c s)
