-- ===== src/Lock/Safety.antt =====
-- Any number of nodes that run `LeaderElection` on one key of one lock, with the calls of the lock and what
-- the nodes do after them in any interleaving. The calls of one node do not overlap.
use oqronkit.Prelude.{
  ℕ, ◌+◌, ◌<◌, ◌≤◌, ◌≡◌, ◌≢◌, ◌⊎◌, inl, inr, refl, sym, ite, Bool, true, false, Text, text_discrete,
  some, arith, ◌∙◌, subst, if_pos, if_neg, if◌then◌else◌,
}
use oqronkit.Lock.{
  LockAdapter, Lease, Leases, Reply, granted, refused, threw, Grants, Effect, Drops,
}
use oqronkit.Lock.Leader.{
  Election, Phase, idle, releasing, asked, won, ask, begin_stop, after_release,
}

abbrev update : {A : Type 0} → (Text → A) → Text → A → Text → A
update f n v m = ite (text_discrete n m) v (f m)

update_at : {A : Type 0} (v : A) (f : Text → A) (n : Text) → update f n v n ≡ v
update_at v f n = if_pos (text_discrete n n) refl _ _

-- Whether a node has a claim to the lease: it leads and has not begun to stop, or it was just granted.
abbrev claims : Bool → Phase → Bool
claims leads idle = leads
claims leads releasing = false
claims leads (asked granted) = true
claims leads (asked refused) = leads
claims leads (asked threw) = leads

abbrev pub is_stopping : Phase → Bool
is_stopping idle = false
is_stopping releasing = true
is_stopping (asked r) = false

leads-claims : (p : Phase) → is_stopping p ≡ false → claims true p ≡ true
leads-claims idle h = refl
leads-claims releasing h = sym h
leads-claims (asked granted) h = refl
leads-claims (asked refused) h = refl
leads-claims (asked threw) h = refl

fresh-claims : (leads : Bool) (p : Phase) → (leads ≡ false) × (p ≡ idle) → ¬ (claims leads p ≡ true)
fresh-claims leads p (l, e) h =
    let never : false ≡ true = sym (rw (l, e) refl) ∙ h in ground (arith, never)

module _ (L : LockAdapter) (key : Text) (ttl : ℕ) where
  open L use {State, leases, acquire-Effect, renew-Effect, release-Drops}

  abbrev pub election : Text → Election
  election n = record { leader_key = key; node_id = n; ttl_ms = ttl }

  -- `renewed n` is the time at which `n` was last granted the lease.
  pub record System : Type 0 where
    pub lock : State
    pub leader : Text → Bool
    pub phase : Text → Phase
    pub renewed : Text → ℕ
    pub now : ℕ

  abbrev pub after_ask : System → Text → System
  after_ask s n =
      let (lock', reply) = ask L (election n) s.now s.lock (s.leader n) in
      record s {
        lock = lock';
        phase = update s.phase n (asked reply);
        renewed = update s.renewed n (if won reply then s.now else s.renewed n);
      }

  abbrev pub after_reply : System → Text → Reply → System
  after_reply s n reply = record s {
    leader = update s.leader n (won reply);
    phase = update s.phase n idle;
  }

  abbrev pub after_begin : System → Text → System
  after_begin s n =
      let (lock', phase') = begin_stop L (election n) s.lock (s.leader n) in
      record s { lock = lock'; phase = update s.phase n phase' }

  abbrev after_end : System → Text → System
  after_end s n = record s {
    leader = update s.leader n after_release;
    phase = update s.phase n idle;
  }

  pub data Step (s : System) : System → Type 0 where
    tick : (d : ℕ) → Step s (record s { now = s.now + d })
    asks : (n : Text) → s.phase n ≡ idle → Step s (after_ask s n)
    replied : (n : Text) (reply : Reply) → s.phase n ≡ asked reply → Step s (after_reply s n reply)
    stops : (n : Text) → s.phase n ≡ idle → Step s (after_begin s n)
    stopped : (n : Text) → s.phase n ≡ releasing → Step s (after_end s n)

  pub data Reach (s : System) : System → Type 0 where
    here : Reach s s
    next : {t u : System} → Reach s t → Step t u → Reach s u

  -- The node holds a lease for the ttl since it was granted at `t`, unless that has passed.
  abbrev HoldsIn : Leases → ℕ → ℕ → Text → Type 0
  HoldsIn ls now t n =
      (t ≤ now)
      × (((l : Lease) × (ls key ≡ some l) × (l.owner ≡ n) × (t + ttl ≤ l.expires_at))
          ⊎ (t + ttl < now))

  abbrev Holds : System → Text → Type 0
  Holds s n = HoldsIn (leases s.lock) s.now (s.renewed n) n

  abbrev Inv : System → Type 0
  Inv s = (n : Text) → claims (s.leader n) (s.phase n) ≡ true → Holds s n

  ask-Effect :
      (e : Election) (now : ℕ) (s : State) (leads : Bool)
      → Effect
          (ask L e now s leads).1
          e.leader_key
          e.node_id
          e.ttl_ms
          now
          (leases s)
          (leases (ask L e now s leads).0)
  unfolding ask
  ask-Effect e now s true = renew-Effect e.leader_key e.node_id e.ttl_ms now s
  ask-Effect e now s false = acquire-Effect e.leader_key e.node_id e.ttl_ms now s

  -- A grant to `n` leaves another node's claim true.
  Grants-other :
      (n m : Text) (now t : ℕ) (before after : Leases)
      → Grants key n ttl now before after
      → n ≢ m
      → HoldsIn before now t m
      → HoldsIn after now t m
  Grants-other n m now t before after g ne (le, inr lapsed) = (le, inr lapsed)
  Grants-other n m now t before after g ne (le, inl (l, at, mine, long)) =
      let past : l.expires_at < now = g.fair l at (λ same. ne (sym same ∙ mine)) in
      (le, inr (omega arith))

  Effect-other :
      (n m : Text) (now t : ℕ) (before after : Leases) (r : Reply)
      → Effect r key n ttl now before after
      → n ≢ m
      → HoldsIn before now t m
      → HoldsIn after now t m
  Effect-other n m now t before after granted g ne h = Grants-other n m now t before after g ne h
  Effect-other n m now t before after refused g ne h = rw (g key) h
  Effect-other n m now t before after threw (inl g) ne h =
      Grants-other n m now t before after g ne h
  Effect-other n m now t before after threw (inr g) ne h = rw (g key) h

  -- The claim of the node that asked: a grant renews it, and nothing else ends it.
  Effect-self :
      (n : Text) (now t : ℕ) (before after : Leases) (r : Reply) (leads : Bool)
      → Effect r key n ttl now before after
      → (leads ≡ true → HoldsIn before now t n)
      → claims leads (asked r) ≡ true
      → HoldsIn after now (if won r then now else t) n
  Effect-self n now t before after granted leads g h c =
      (omega arith, inl (_, g.leased, refl, omega arith))
  Effect-self n now t before after refused leads g h c = rw (g key) (h c)
  Effect-self n now t before after threw leads (inr g) h c = rw (g key) (h c)
  Effect-self n now t before after threw leads (inl g) h c =
      (omega (arith, (h c).0), inl (_, g.leased, refl, omega (arith, (h c).0)))

  Drops-other :
      (n m : Text) (now t : ℕ) (before after : Leases)
      → Drops key n before after
      → n ≢ m
      → HoldsIn before now t m
      → HoldsIn after now t m
  Drops-other n m now t before after d ne (le, inr lapsed) = (le, inr lapsed)
  Drops-other n m now t before after d ne (le, inl (l, at, mine, long)) = elim (d key) [
    | inl kept ↦ (le, inl (l, kept ∙ at, mine, long))
    | inr (_, own, _) ↦ absurd (ne (sym (own l at) ∙ mine))
  ]

  ask-Inv : (s : System) (n : Text) → s.phase n ≡ idle → Inv s → Inv (after_ask s n)
  ask-Inv s n rests inv m h =
      let e = ask-Effect (election n) s.now s.lock (s.leader n) in
      elim (text_discrete n m) [
        | yes same ↦
            subst
              (λ k. claims (s.leader k) ((after_ask s n).phase k) ≡ true → Holds (after_ask s n) k)
              same
              (rw (update_at (asked _) s.phase n, update_at _ s.renewed n)
                (Effect-self n s.now (s.renewed n) (leases s.lock) _ _ (s.leader n) e
                  (λ leads. inv n (rw rests leads))))
              h
        | no other ↦ rw (if_neg (text_discrete n m) other) (
            Effect-other n m s.now (s.renewed m) (leases s.lock) _ _ e other
              (inv m (rw (if_neg (text_discrete n m) other) at h)))
      ]

  -- A step that changes no lease, after which `n` claims nothing that it did not claim before.
  settle-Inv :
      (s : System) (n : Text) (leads : Bool)
      → (leads ≡ true → claims (s.leader n) (s.phase n) ≡ true)
      → Inv s
      → Inv (record s { leader = update s.leader n leads; phase = update s.phase n idle })
  settle-Inv s n leads fair inv m h = elim (text_discrete n m) [
    | yes same ↦
        subst (Holds s) same (
          inv n (fair (rw (if_pos (text_discrete n m) same, if_pos (text_discrete n m) same) at h)))
    | no other ↦
        inv m (rw (if_neg (text_discrete n m) other, if_neg (text_discrete n m) other) at h)
  ]

  reply-fair :
      (r : Reply) (leads : Bool) (p : Phase) → p ≡ asked r → won r ≡ true → claims leads p ≡ true
  reply-fair granted leads p e w = rw e refl
  reply-fair refused leads p e w = cc
  reply-fair threw leads p e w = cc

  begin_stop-Drops :
      (n : Text) (s : State) (leads : Bool)
      → (claims leads (begin_stop L (election n) s leads).1 ≡ false)
        × Drops key n (leases s) (leases (begin_stop L (election n) s leads).0)
  unfolding begin_stop
  begin_stop-Drops n s true = (refl, release-Drops key n s)
  begin_stop-Drops n s false = (refl, λ j. inl refl)

  begin-Inv : (s : System) (n : Text) → Inv s → Inv (after_begin s n)
  begin-Inv s n inv m h =
      let (none_left, d) = begin_stop-Drops n s.lock (s.leader n) in
      elim (text_discrete n m) [
        | yes same ↦
            let back : claims (s.leader n) ((after_begin s n).phase n) ≡ true =
              subst (λ k. claims (s.leader k) ((after_begin s n).phase k) ≡ true) (sym same) h in
            let never : true ≡ false =
              sym (rw (if_pos (text_discrete n n) refl) at back) ∙ none_left in
            ground (arith, never)
        | no other ↦
            Drops-other n m s.now (s.renewed m) (leases s.lock) _ d other
              (inv m (rw (if_neg (text_discrete n m) other) at h))
      ]

  Step-Inv : {s t : System} → Step s t → Inv s → Inv t
  Step-Inv {s} (tick d) inv = λ m h. later (inv m h)
    where
      later : {m : Text} → Holds s m → Holds (record s { now = s.now + d }) m
      later (t, inl held) = (omega arith, inl held)
      later (t, inr lapsed) = (omega arith, inr (omega arith))
  Step-Inv {s} (asks n rests) inv = ask-Inv s n rests inv
  Step-Inv {s} (replied n r waits) inv =
      settle-Inv s n (won r) (reply-fair r (s.leader n) (s.phase n) waits) inv
  Step-Inv {s} (stops n rests) inv = begin-Inv s n inv
  Step-Inv {s} (stopped n waits) inv = settle-Inv s n after_release (λ h. cc) inv

  Reach-Inv : {s t : System} → Inv s → Reach s t → Inv t
  Reach-Inv inv here = inv
  Reach-Inv inv (next r st) = Step-Inv st (Reach-Inv inv r)

  -- A system in which no node has campaigned yet.
  abbrev pub Fresh : System → Type 0
  Fresh s = (n : Text) → (s.leader n ≡ false) × (s.phase n ≡ idle)

  -- The calls of the lock by any nodes on one key, the ends of their campaigns and stops, and
  -- passing time, in any interleaving in which the calls of one node do not overlap, over any lock
  -- that meets the adapter laws, starting with no leader: two nodes that both count themselves
  -- leader and have not begun to stop, within the ttl since they were last granted the lease, are
  -- the same node.
  pub leader_unique :
      {s t : System} (m n : Text)
      → Fresh s
      → Reach s t
      → t.leader m ≡ true
      → t.leader n ≡ true
      → is_stopping (t.phase m) ≡ false
      → is_stopping (t.phase n) ≡ false
      → t.now ≤ t.renewed m + ttl
      → t.now ≤ t.renewed n + ttl
      → m ≡ n
  leader_unique {s} {t} m n fresh r lm ln pm pn fm fn =
      let start : Inv s = λ k h. absurd (fresh-claims (s.leader k) (s.phase k) (fresh k) h) in
      let inv : Inv t = Reach-Inv start r in
      let cm : claims (t.leader m) (t.phase m) ≡ true = rw lm (leads-claims (t.phase m) pm) in
      let cn : claims (t.leader n) (t.phase n) ≡ true = rw ln (leads-claims (t.phase n) pn) in
      ground (arith, inv m cm, inv n cn)
