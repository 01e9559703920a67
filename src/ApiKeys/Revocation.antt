-- ===== src/ApiKeys/Revocation.antt =====
-- Revoked and deleted keys, and the uniqueness of the hash in the table.
use human_guard.Base.{
  String, ◌≡◌, refl, ◌≢◌, inl, inr, Bool, false, not, List, [], ◌∷◌, arith, ◌==◌, eq_iff,
  Bool-cases, keep, any_of, All,
}
use human_guard.Clock.{Time}
use human_guard.ApiKeys.{
  ApiKey, KeyFaults, has_id, revoke, revoke_api_key, map_keys, clashes_key, create_api_key,
  stamped_key, delete_api_key, update_api_key_last_used, use_at,
}

-- No two rows have the same identifier or the same hash.
abbrev pub AreUnique : List ApiKey → Type 0
AreUnique [] = Unit
AreUnique (k ∷ ks) = All (λ x. (x.id ≢ k.id) × (x.key_hash ≢ k.key_hash)) ks × AreUnique ks

-- A rewriting of a row that leaves its identifier and its hash.
abbrev KeepsNames : (ApiKey → ApiKey) → Type 0
KeepsNames f = (k : ApiKey) → ((f k).id ≡ k.id) × ((f k).key_hash ≡ k.key_hash)

map_keys-All :
    (i h id : String) (f : ApiKey → ApiKey) (ks : List ApiKey)
    → KeepsNames f
    → All (λ x. (x.id ≢ i) × (x.key_hash ≢ h)) ks
    → All (λ x. (x.id ≢ i) × (x.key_hash ≢ h)) (map_keys id f ks)
unfolding map_keys
map_keys-All i h id f [] names a = tt
map_keys-All i h id f (k ∷ ks) names a = elim (Bool-cases (k.id == id)) [
  | inl here ↦ rw here (ground (arith, names k), map_keys-All i h id f ks names a.1)
  | inr other ↦ rw other (a.0, map_keys-All i h id f ks names a.1)
]

map_keys-AreUnique :
    (id : String) (f : ApiKey → ApiKey) (ks : List ApiKey)
    → KeepsNames f
    → AreUnique ks
    → AreUnique (map_keys id f ks)
unfolding map_keys
map_keys-AreUnique id f [] names u = tt
map_keys-AreUnique id f (k ∷ ks) names u = elim (Bool-cases (k.id == id)) [
  | inl here ↦ rw here (
    rw ((names k).0, (names k).1) (map_keys-All k.id k.key_hash id f ks names u.0),
    map_keys-AreUnique id f ks names u.1,
  )
  | inr other ↦
      rw other
        (map_keys-All k.id k.key_hash id f ks names u.0, map_keys-AreUnique id f ks names u.1)
]

keep-All_unique :
    (i h : String) (p : ApiKey → Bool) (ks : List ApiKey)
    → All (λ x. (x.id ≢ i) × (x.key_hash ≢ h)) ks
    → All (λ x. (x.id ≢ i) × (x.key_hash ≢ h)) (keep p ks)
keep-All_unique i h p [] a = tt
keep-All_unique i h p (k ∷ ks) a = ground (arith, keep-All_unique i h p ks)

keep-AreUnique : (p : ApiKey → Bool) (ks : List ApiKey) → AreUnique ks → AreUnique (keep p ks)
keep-AreUnique p [] u = tt
keep-AreUnique p (k ∷ ks) u =
    ground (arith, keep-All_unique k.id k.key_hash p ks u.0, keep-AreUnique p ks u.1)

no_clash-All :
    (k : ApiKey) (ks : List ApiKey)
    → any_of (clashes_key k) ks ≡ false
    → All (λ x. (x.id ≢ k.id) × (x.key_hash ≢ k.key_hash)) ks
no_clash-All k [] e = tt
no_clash-All k (x ∷ ks) e =
    ground (arith, eq_iff x.id k.id, eq_iff x.key_hash k.key_hash, no_clash-All k ks)

-- Making, using, revoking and deleting keys, refused or not, keeps the identifiers and the hashes in
-- the table unique.
pub api_keys-AreUnique :
    (faults : KeyFaults) (now : Time) (fresh id : String) (key : ApiKey) (rows : List ApiKey)
    → AreUnique rows
    → AreUnique (create_api_key faults now fresh key rows).0
      × AreUnique (revoke_api_key faults id rows).0
      × AreUnique (update_api_key_last_used faults now id rows).0
      × AreUnique (delete_api_key faults id rows).0
unfolding create_api_key revoke_api_key update_api_key_last_used delete_api_key
api_keys-AreUnique faults now fresh id key rows u = (
  ground (arith, no_clash-All (stamped_key now fresh key) rows),
  ground (arith, map_keys-AreUnique id revoke rows (λ k. (refl, refl)) u),
  ground (arith, map_keys-AreUnique id (use_at now) rows (λ k. (refl, refl)) u),
  ground (arith, keep-AreUnique (λ k. not (has_id id k)) rows u),
)
