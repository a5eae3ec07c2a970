-- ===== src/Broker/Stranded.antt =====
-- `nack` with no delay puts the id on the wait list, whatever its priority. A consumer that claims by
-- priority never looks there.
use oqronkit.Prelude.{
  ℕ, ◌≡◌, ◌≤◌, ◌<◌, refl, Option, none, some, List, [], ◌∷◌, Text, arith, Option-cases, inl, inr,
  ap, ◌∙◌,
}
use oqronkit.JsMap.{get-set}
use oqronkit.Broker.{
  Broker, by_priority, list_at, promote, promote_to, take_claims, claim, prepared, nack,
  unshift_waiting, ack,
}
use oqronkit.Broker.Queued.{occ, id_self, queued, nack-Once}
use oqronkit.Broker.Claims.{ClaimCall, run_claims, queued-run_claims}

promote_waiting :
    (name : Text) (now : ℕ) (b : Broker)
    → (promote by_priority name now b).wait_lists ≡ b.wait_lists
unfolding promote promote_to
promote_waiting name now b = ground arith

take_claims_waiting :
    (name : Text) (limit : ℕ) (b : Broker) (r : List Text × Broker)
    → take_claims by_priority name limit b ≡ some r
    → r.1.wait_lists ≡ b.wait_lists
unfolding take_claims
take_claims_waiting name limit b r e = ground arith

claim_waiting :
    (name consumer : Text) (limit ttl now : ℕ) (b : Broker)
    → (claim by_priority name consumer limit ttl now b).0.wait_lists ≡ b.wait_lists
unfolding claim
claim_waiting name consumer limit ttl now b =
    let p = prepared by_priority name now b in
    let promoted : p.wait_lists ≡ b.wait_lists = promote_waiting name now _ in
    elim (Option-cases (take_claims by_priority name limit p)) [
      | inl stop ↦ ground (arith, promoted)
      | inr (r, more) ↦ ground (arith, promoted, take_claims_waiting name limit p r more)
    ]

-- Every call claims by priority.
abbrev pub ByPriority : List ClaimCall → Type 0
ByPriority [] = Unit {0}
ByPriority (c ∷ cs) = (c.strategy ≡ by_priority) × ByPriority cs

run_claims_waiting :
    (name : Text) (cs : List ClaimCall) (b : Broker)
    → ByPriority cs
    → (run_claims name cs b).0.wait_lists ≡ b.wait_lists
run_claims_waiting name [] b all = refl
run_claims_waiting name (c ∷ cs) b all =
    run_claims_waiting name cs (claim c.strategy name c.consumer c.limit c.ttl c.now b).0 all.1
    ∙ ap (λ s. (claim s name c.consumer c.limit c.ttl c.now b).0.wait_lists) all.0
    ∙ claim_waiting name c.consumer c.limit c.ttl c.now b

nacked_waiting :
    (name id : Text) (priority : Option ℕ) (now : ℕ) (b : Broker)
    → 0 < occ id_self id (list_at name (nack name id none priority now b).wait_lists)
unfolding nack unshift_waiting occ
nacked_waiting name id priority now b = ground (
  arith,
  get-set name name (id ∷ list_at name (ack name id b).wait_lists) (ack name id b).wait_lists,
)

queued_waiting :
    (name id : Text) (b : Broker) → occ id_self id (list_at name b.wait_lists) ≤ queued name id b
unfolding queued
queued_waiting name id b = omega arith

-- After a `nack` with no delay, of any priority, consumers that claim by priority are never handed
-- the id again, however often they claim and whatever the clock says.
pub nack_stranded :
    (name id : Text) (priority : Option ℕ) (now : ℕ) (b : Broker) (cs : List ClaimCall)
    → ByPriority cs
    → occ id_self id (run_claims name cs (nack name id none priority now b)).1 ≡ 0
nack_stranded name id priority now b cs all =
    let w = nack name id none priority now b in
    let end = (run_claims name cs w).0 in
    ground (
      arith,
      queued-run_claims name id cs w,
      nack-Once name id none priority now b name id,
      nacked_waiting name id priority now b,
      queued_waiting name id end,
      ap (λ m. occ id_self id (list_at name m)) (run_claims_waiting name cs w all),
    )
