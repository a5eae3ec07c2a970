-- ===== src/Lock/Memory.antt =====
-- engine/memory/memory-lock.ts, `MemoryLock`. A call reads the clock once, as `now`.
use oqronkit.Prelude.{
  ℕ, ◌+◌, ◌<◌, ◌≡◌, ◌≢◌, refl, sym, ite, inl, inr, Bool, true, false, none, some, Text,
  text_discrete, ltb, leb, if◌then◌else◌, arith, Option-cases, Bool-cases, if_pos, if_neg, ltb→lt,
  ◌⊎◌, ◌↔◌,
}
use oqronkit.JsMap
use oqronkit.JsMap.{JsMap, get-set, get-delete}
use oqronkit.Lock.{Lease, Reply, granted, refused, Leases, Grants, Effect, Drops, LockAdapter}

abbrev pub Locks : Type 0
Locks = JsMap Lease

unfoldable pub acquire : Text → Text → ℕ → ℕ → Locks → Locks × Reply
acquire key owner ttl now locks = elim (JsMap.get key locks) [
  | none ↦ (JsMap.set key fresh locks, granted)
  | some existing ↦
      if ltb existing.expires_at now
      then (JsMap.set key fresh locks, granted)
      else ite (text_discrete existing.owner owner)
          (JsMap.set key (record existing { expires_at = now + ttl }) locks, granted)
          (locks, refused)
]
  where
    fresh : Lease
    fresh = record { owner = owner; expires_at = now + ttl }

unfoldable pub renew : Text → Text → ℕ → ℕ → Locks → Locks × Reply
renew key owner ttl now locks = elim (JsMap.get key locks) [
  | none ↦ (locks, refused)
  | some existing ↦
      ite (text_discrete existing.owner owner)
        (if leb now existing.expires_at
          then (JsMap.set key (record existing { expires_at = now + ttl }) locks, granted)
          else (locks, refused))
        (locks, refused)
]

unfoldable pub release : Text → Text → Locks → Locks
release key owner locks = elim (JsMap.get key locks) [
  | none ↦ locks
  | some existing ↦ ite (text_discrete existing.owner owner) (JsMap.delete key locks) locks
]

unfoldable pub is_owner : Text → Text → ℕ → Locks → Bool
is_owner key owner now locks = elim (JsMap.get key locks) [
  | none ↦ false
  | some existing ↦ ite (text_discrete existing.owner owner) (ltb now existing.expires_at) false
]

abbrev pub leases : Locks → Leases
leases locks key = JsMap.get key locks

module _ (key owner : Text) (ttl now : ℕ) (locks : Locks) where
  granted_set :
      (l : Lease)
      → l ≡ record { owner = owner; expires_at = now + ttl }
      → ((old : Lease) → JsMap.get key locks ≡ some old → old.owner ≢ owner → old.expires_at < now)
      → Grants key owner ttl now (leases locks) (leases (JsMap.set key l locks))
  granted_set l e fair = record {
    leased = ground (arith, get-set key key l locks);
    fair = fair;
    frame = λ j h. ground (arith, get-set j key l locks);
  }

  pub acquire-Effect :
      Effect
        (acquire key owner ttl now locks).1
        key
        owner
        ttl
        now
        (leases locks)
        (leases (acquire key owner ttl now locks).0)
  unfolding acquire
  acquire-Effect = elim (Option-cases (JsMap.get key locks)) [
    | inl e ↦ rw (e, acquire) (granted_set _ refl (λ old h _. cc))
    | inr (l, e) ↦ elim (Bool-cases (ltb l.expires_at now)) [
      | inl lapsed ↦
          rw (e, acquire, lapsed) (granted_set _ refl (λ old h _. ltb→lt _ _ (ground arith)))
      | inr live ↦ elim (text_discrete l.owner owner) [
        | yes own ↦
            let set : acquire key owner ttl now locks
                ≡ (JsMap.set key (record l { expires_at = now + ttl }) locks, granted) =
              ground arith in
            rw set (granted_set _ (ground arith) (λ old h other. absurd (ground arith)))
        | no other ↦
            let kept : acquire key owner ttl now locks ≡ (locks, refused) = ground arith in
            rw kept (λ j. refl)
      ]
    ]
  ]

  pub renew-Effect :
      Effect
        (renew key owner ttl now locks).1
        key
        owner
        ttl
        now
        (leases locks)
        (leases (renew key owner ttl now locks).0)
  unfolding renew
  renew-Effect = elim (Option-cases (JsMap.get key locks)) [
    | inl e ↦ rw (e, renew) (λ j. refl)
    | inr (l, e) ↦ elim (text_discrete l.owner owner) [
      | no other ↦
          let kept : renew key owner ttl now locks ≡ (locks, refused) = ground arith in
          rw kept (λ j. refl)
      | yes own ↦ elim (Bool-cases (leb now l.expires_at)) [
        | inl live ↦
            let set : renew key owner ttl now locks
                ≡ (JsMap.set key (record l { expires_at = now + ttl }) locks, granted) =
              ground arith in
            rw set (granted_set _ (ground arith) (λ old h other. absurd (ground arith)))
        | inr lapsed ↦
            let kept : renew key owner ttl now locks ≡ (locks, refused) = ground arith in
            rw kept (λ j. refl)
      ]
    ]
  ]

pub release-Drops :
    (key owner : Text) (locks : Locks)
    → Drops key owner (leases locks) (leases (release key owner locks))
unfolding release
release-Drops key owner locks j = elim (Option-cases (JsMap.get key locks)) [
  | inl e ↦ rw (e, release) (inl refl)
  | inr (l, e) ↦ elim (text_discrete l.owner owner) [
    | no other ↦ rw (e, release, if_neg _ other) (inl refl)
    | yes own ↦
        rw (e, release, if_pos _ own)
          (elim (text_discrete key j) [
            | yes here ↦
                inr (sym here, (λ old h. ground arith), ground (arith, get-delete j key locks))
            | no away ↦ inl (ground (arith, get-delete j key locks))
          ])
  ]
]

pub is_owner_lem :
    (key owner : Text) (now : ℕ) (locks : Locks)
    → is_owner key owner now locks ≡ true
    → (l : Lease) × (leases locks key ≡ some l) × (l.owner ≡ owner) × (now < l.expires_at)
unfolding is_owner
is_owner_lem key owner now locks h = ground arith

abbrev pub memory_lock : LockAdapter
memory_lock = record {
  State = Locks;
  acquire = acquire;
  renew = renew;
  release = release;
  is_owner = is_owner;
  leases = leases;
  acquire-Effect = acquire-Effect;
  renew-Effect = renew-Effect;
  release-Drops = release-Drops;
  is_owner_lem = is_owner_lem;
}

-- `MemoryLock.acquire` grants the key exactly if no other owner holds a lease on it that has not
-- lapsed.
pub acquire_granted_iff :
    (key owner : Text) (ttl now : ℕ) (locks : Locks)
    → ((acquire key owner ttl now locks).1 ≡ granted)
      ↔ ((l : Lease) → JsMap.get key locks ≡ some l → (l.owner ≡ owner) ⊎ (l.expires_at < now))
unfolding acquire
acquire_granted_iff key owner ttl now locks = (
  λ h l e. ground arith,
  λ h. elim (Option-cases (JsMap.get key locks)) [
    | inl e ↦ ground arith
    | inr (l, e) ↦ ground (arith, h l e)
  ],
)
