-- ===== src/Tests/Limits.antt =====
-- engine/utils/throttle-gate.ts and ratelimit/algorithms/ at small inputs.
use oqronkit.Prelude.{
  ◌+◌, ◌*◌, ◌-◌, ◌/◌, ◌≡◌, ◌≤◌, refl, List, [], ◌∷◌, Text, text, text_discrete, arith, ℕ_discrete,
}
use oqronkit.JsMap
use oqronkit.Storage.{memory_store}
use oqronkit.Window.{inside, prune, push_times}
use oqronkit.Throttle.{
  ThrottleConfig, Round, throttle_gate, rounds, get_available, record_dispatches,
  dispatches_bounded,
}
use oqronkit.RateLimit.Fixed.{FixedWindowState, spent, fixed_window_bounded, peek-consume}
use oqronkit.RateLimit.Fixed
use oqronkit.RateLimit.Sliding.{SlidingWindowState, sliding_window_bounded}
use oqronkit.RateLimit.Sliding
use oqronkit.RateLimit.Bucket.{BucketState, Refill, refilled, bucket_total_bounded}
use oqronkit.RateLimit.Bucket

program : Unit {0}
unfolding text_discrete ℕ_discrete JsMap.get JsMap.set prune push_times inside throttle_gate
    get_available record_dispatches spent refilled Fixed.consume Fixed.peek Sliding.consume
    Bucket.consume
program = tt

abbrev config : ThrottleConfig
config = record { max = 3; duration = 10 }

abbrev some_rounds : List Round
some_rounds =
    record { asked_at = 5; recorded_at = 6; offered = 2 }
    ∷ record { asked_at = 8; recorded_at = 8; offered = 4 }
    ∷ []

throttled :
    (rounds some_rounds (record { config = config; timestamps = [] }, [])).1 ≡ 6 ∷ 6 ∷ 8 ∷ []
unfolding program
throttled = refl

dispatches_bounded_example :
    inside 10 12 (rounds some_rounds (record { config = config; timestamps = [] }, [])).1 ≤ 3
unfolding program
dispatches_bounded_example =
    dispatches_bounded config (record { config = config; timestamps = [] }) some_rounds 12 refl
      (omega arith)

abbrev k : Text
k = text "k"

abbrev fixed_requests : List (Fixed.Request (memory_store FixedWindowState))
fixed_requests =
    record { key = k; cost = 2; at = 3 }
    ∷ record { key = k; cost = 2; at = 4 }
    ∷ record { key = k; cost = 3; at = 12 }
    ∷ []

fixed_run :
    (Fixed.serve_all (memory_store FixedWindowState) 3 10 fixed_requests ([], [])).1
    ≡ record { key = k; cost = 3; at = 12 } ∷ record { key = k; cost = 2; at = 3 } ∷ []
unfolding program
fixed_run = refl

fixed_window_bounded_example :
    spent
      (memory_store FixedWindowState)
      3
      10
      k
      1
      (Fixed.serve_all (memory_store FixedWindowState) 3 10 fixed_requests ([], [])).1
    ≤ 3
unfolding program
fixed_window_bounded_example =
    fixed_window_bounded (memory_store FixedWindowState) 3 10 k fixed_requests [] 1 refl
      (omega arith)

abbrev sliding_requests : List (Sliding.Request (memory_store SlidingWindowState))
sliding_requests =
    record { key = k; cost = 2; at = 3 }
    ∷ record { key = k; cost = 2; at = 4 }
    ∷ record { key = k; cost = 2; at = 13 }
    ∷ []

sliding_run :
    (Sliding.serve_all (memory_store SlidingWindowState) 3 10 k sliding_requests ([], [])).1
    ≡ 3 ∷ 3 ∷ 13 ∷ 13 ∷ []
unfolding program
sliding_run = refl

sliding_window_bounded_example :
    inside 10 13
      (Sliding.serve_all (memory_store SlidingWindowState) 3 10 k sliding_requests ([], [])).1
    ≤ 3
unfolding program
sliding_window_bounded_example =
    sliding_window_bounded (memory_store SlidingWindowState) 3 10 k sliding_requests [] 13 refl
      (omega arith)

abbrev refill : Refill
refill = record { rate = 1; interval = 10 }

abbrev bucket_requests : List (Bucket.Request (memory_store BucketState) refill)
bucket_requests =
    record { key = k; cost = 3; at = 3 }
    ∷ record { key = k; cost = 1; at = 4 }
    ∷ record { key = k; cost = 1; at = 13 }
    ∷ []

bucket_run : (Bucket.serve_all (memory_store BucketState) refill 3 k bucket_requests ([], 0)).1 ≡ 4
unfolding program
bucket_run = refl

bucket_total_bounded_example :
    (Bucket.serve_all (memory_store BucketState) refill 3 k bucket_requests ([], 0)).1
    ≤ 3 + (20 - 0) / 10 * 1
unfolding program
bucket_total_bounded_example =
    bucket_total_bounded (memory_store BucketState) refill 3 k 0 20 bucket_requests [] (omega arith)
      refl (omega arith)
