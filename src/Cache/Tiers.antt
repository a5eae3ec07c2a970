-- ===== src/Cache/Tiers.antt =====
-- What every entry of the first tier satisfies, through the operations of the tier.
use oqronkit.Prelude.{
  ℕ, ◌≤◌, ◌≡◌, sym, ◌∙◌, subst, none, some, List, [], ◌∷◌, Text, text_discrete, if◌then◌else◌, mem,
  ite, if_pos, if_neg, arith, Bool-cases, inl, inr, length,
}
use oqronkit.JsMap
use oqronkit.JsMap.{JsMap, get-delete, delete-Distinct}
use oqronkit.Lru
use oqronkit.Lru.{LruCache, lru_set-IsValid, get-IsValid, value-set, value-get}
use oqronkit.Cache.{CacheConfig, Codec, L1Entry}
use oqronkit.Cache.Writes.{evict_local}

length-delete_le : {A : Type 0} (k : Text) (m : JsMap A) → length (JsMap.delete k m) ≤ length m
unfolding JsMap.delete
length-delete_le k [] = omega arith
length-delete_le k ((j, v) ∷ m) = ground (arith, length-delete_le k m)

module _ {E : Type 0} (P : Text → E → Type 0) where
  abbrev pub Tier : LruCache E → Type 0
  Tier c = Lru.IsValid c × ((k : Text) (e : E) → (Lru.get k c).1 ≡ some e → P k e)

  pub Tier-get : (key : Text) (c : LruCache E) → Tier c → Tier (Lru.get key c).0
  Tier-get key c (v, t) = (get-IsValid key c v, λ k e h. t k e (sym (value-get key k c) ∙ h))

  value-delete :
      (j k : Text) (c : LruCache E)
      → (Lru.get j (Lru.delete k c).0).1 ≡ ite (text_discrete k j) none (Lru.get j c).1
  unfolding Lru.get Lru.delete
  value-delete j k c = ground (arith, get-delete j k c.entries)

  delete-IsValid : (k : Text) (c : LruCache E) → Lru.IsValid c → Lru.IsValid (Lru.delete k c).0
  unfolding Lru.delete
  delete-IsValid k c v = record {
    distinct = delete-Distinct k c.entries v.distinct;
    bounded = omega (arith, length-delete_le k c.entries, v.bounded);
  }

  pub Tier-delete : (key : Text) (c : LruCache E) → Tier c → Tier (Lru.delete key c).0
  Tier-delete key c (v, t) = (
    delete-IsValid key c v,
    λ k e h. elim (text_discrete key k) [
      | yes here ↦
          let never : none ≡ some e =
            sym (value-delete k key c ∙ if_pos (text_discrete key k) here _ _) ∙ h in
          ground (arith, never)
      | no away ↦ t k e (sym (value-delete k key c ∙ if_neg (text_discrete key k) away _ _) ∙ h)
    ],
  )

  pub Tier-set :
      (key : Text) (e : E) (size : ℕ) (c : LruCache E)
      → P key e
      → Tier c
      → Tier (Lru.set key e size c).0
  Tier-set key e size c p (v, t) = (
    lru_set-IsValid key e size c v,
    λ k e' h.
        let read : (if mem k (Lru.set key e size c).1
              then none
              else ite (text_discrete key k) (some e) (Lru.get k c).1)
            ≡ some e' =
          sym (value-set key e size c k v) ∙ h in
        elim (Bool-cases (mem k (Lru.set key e size c).1)) [
          | inl evicted ↦ let never : none ≡ some e' = rw evicted at read in ground (arith, never)
          | inr kept ↦
              let read' : ite (text_discrete key k) (some e) (Lru.get k c).1 ≡ some e' =
                rw kept at read in
              elim (text_discrete key k) [
                | yes here ↦
                    let found : some e ≡ some e' =
                      sym (if_pos (text_discrete key k) here _ _) ∙ read' in
                    let same : e ≡ e' = cc in subst (P k) same (subst (λ x. P x e) here p)
                | no away ↦ t k e' (sym (if_neg (text_discrete key k) away _ _) ∙ read')
              ]
        ],
  )

  pub Tier-clear : (c : LruCache E) → Tier (Lru.clear c).0
  unfolding Lru.clear Lru.get JsMap.get
  Tier-clear c = (record { distinct = tt; bounded = omega arith }, λ k e h. ground (arith, h))

module _ {V : Type 0} (config : CacheConfig V) (codec : Codec V) (now : ℕ)
    (P : Text → L1Entry V → Type 0) where
  pub Tier-evict_local :
      (keys : List Text) (c : LruCache (L1Entry V))
      → Tier P c
      → Tier P (evict_local config codec now keys c)
  unfolding evict_local
  Tier-evict_local [] c t = t
  Tier-evict_local (k ∷ keys) c t = Tier-evict_local keys _ (Tier-delete P k c t)
