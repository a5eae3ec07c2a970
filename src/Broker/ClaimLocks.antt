-- ===== src/Broker/ClaimLocks.antt =====
-- The locks that `claim` takes and `extendLock` renews.
use oqronkit.Prelude.{
  mem, ℕ, ◌+◌, ◌≡◌, ◌≢◌, ◌≤◌, ◌<◌, ◌↔◌, ◌⊎◌, refl, some, List, [], ◌∷◌, Text, text_discrete, arith,
  Bool-cases, Option-cases, ap, inl, inr, sym, ◌∙◌, if_pos, if_neg, head_eq, tail_eq,
}
use oqronkit.JsMap
use oqronkit.JsMap.{JsMap, get-set, get-delete}
use oqronkit.Broker.{
  Broker, BrokerStrategy, lock_key, lock_claims, ClaimLock, claim, prepared, take_claims, extended,
  extend_lock,
}
use oqronkit.Broker.Queued.{occ, id_self}

-- The text has no U+0000.
abbrev pub NulFree : Text → Type 0
NulFree [] = Unit {0}
NulFree (c ∷ cs) = (c ≢ 0) × NulFree cs

-- The lock keys of two ids at two brokers whose names have no U+0000 are equal only if the names
-- and the ids are.
pub lock_key-injective :
    (a b i j : Text) → NulFree a → NulFree b → lock_key a i ≡ lock_key b j → (a ≡ b) × (i ≡ j)
lock_key-injective [] [] i j f g e = (refl, tail_eq e)
lock_key-injective [] (c ∷ b) i j f g e = absurd (g.0 (sym (head_eq e)))
lock_key-injective (c ∷ a) [] i j f g e = absurd (f.0 (head_eq e))
lock_key-injective (c ∷ a) (d ∷ b) i j f g e =
    let rest = lock_key-injective a b i j f.1 g.1 (tail_eq e) in
    (ground (arith, rest, head_eq e), rest.1)

-- The locks after step 3 of `claim`.
get-lock_claims :
    (name j : Text) (lock : ClaimLock) (ids : List Text) (m : JsMap ClaimLock)
    → ((0 < occ id_self j ids) ⊎ (JsMap.get (lock_key name j) m ≡ some lock))
    → JsMap.get (lock_key name j) (lock_claims name lock ids m) ≡ some lock
unfolding lock_claims occ
get-lock_claims name j lock [] m (inl h) = absurd (omega arith)
get-lock_claims name j lock [] m (inr h) = h
get-lock_claims name j lock (i ∷ ids) m h =
    get-lock_claims name j lock ids (JsMap.set (lock_key name i) lock m) (elim (text_discrete i j) [
      | yes here ↦ inr (
          get-set (lock_key name j) (lock_key name i) lock m
          ∙ if_pos (text_discrete (lock_key name i) (lock_key name j)) (ap (lock_key name) here) _
              _)
      | no away ↦ elim h [
        | inl more ↦ inl (rw (if_neg (text_discrete (id_self i) j) away) at more)
        | inr old ↦ inr (ground (arith, get-set (lock_key name j) (lock_key name i) lock m))
      ]
    ])

get-lock_claims_ne :
    (name other j : Text) (lock : ClaimLock) (ids : List Text) (m : JsMap ClaimLock)
    → NulFree name
    → NulFree other
    → name ≢ other
    → JsMap.get (lock_key other j) (lock_claims name lock ids m) ≡ JsMap.get (lock_key other j) m
unfolding lock_claims
get-lock_claims_ne name other j lock [] m f g ne = refl
get-lock_claims_ne name other j lock (i ∷ ids) m f g ne =
    get-lock_claims_ne name other j lock ids (JsMap.set (lock_key name i) lock m) f g ne
    ∙ get-set (lock_key other j) (lock_key name i) lock m
    ∙ if_neg (text_discrete (lock_key name i) (lock_key other j))
        (λ e. ne (lock_key-injective name other i j f g e).0) _ _

pub claim_locks :
    (s : BrokerStrategy) (name consumer : Text) (limit ttl now : ℕ) (b : Broker) (j : Text)
    → 0 < occ id_self j (claim s name consumer limit ttl now b).1
    → JsMap.get (lock_key name j) (claim s name consumer limit ttl now b).0.active_locks
      ≡ some (record { consumer_id = consumer; expires_at = now + ttl })
unfolding claim occ
claim_locks s name consumer limit ttl now b j h = elim (Bool-cases (mem name b.paused)) [
  | inl stopped ↦ absurd (ground arith)
  | inr running ↦ elim (Option-cases (take_claims s name limit (prepared s name now b))) [
    | inl stop ↦ absurd (ground arith)
    | inr (r, more) ↦ ground (
      arith,
      get-lock_claims name j (record { consumer_id = consumer; expires_at = now + ttl }) r.0
          r.1.active_locks,
    )
  ]
]

-- `extendLock` with the broker name succeeds exactly if there is a lock on the id at that broker,
-- it is of the given consumer, and its expiry is not before the present.
pub extend_lock_iff :
    (id consumer : Text) (ttl : ℕ) (name : Text) (now : ℕ) (b : Broker)
    → ((extend_lock id consumer ttl name now b).1 ≡ extended) ↔ (
        (l : ClaimLock) × (JsMap.get (lock_key name id) b.active_locks ≡ some l)
        × (l.consumer_id ≡ consumer)
        × (now ≤ l.expires_at))
unfolding extend_lock
extend_lock_iff id consumer ttl name now b = (λ h. ground arith, λ h. ground arith)

-- After a claim that returned an id, `extendLock` with the broker name succeeds on it exactly for
-- the claiming consumer and exactly until the claim ttl has passed.
pub claim-extend_lock :
    (s : BrokerStrategy) (name consumer other : Text) (limit ttl now ttl' later : ℕ) (b : Broker)
    (j : Text)
    → 0 < occ id_self j (claim s name consumer limit ttl now b).1
    → let b' = (claim s name consumer limit ttl now b).0 in
      ((extend_lock j other ttl' name later b').1 ≡ extended)
      ↔ ((other ≡ consumer) × (later ≤ now + ttl))
claim-extend_lock s name consumer other limit ttl now ttl' later b j h =
    let b' = (claim s name consumer limit ttl now b).0 in
    let held = claim_locks s name consumer limit ttl now b j h in
    let both = extend_lock_iff j other ttl' name later b' in
    (
      λ e. ground (arith, both.0 e, held),
      λ e. both.1 (record { consumer_id = consumer; expires_at = now + ttl }, held, sym e.0, e.1),
    )
