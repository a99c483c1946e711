-- ===== src/StorageMap.antt =====
-- A FRAME `StorageMap<_, Hasher, K, V, OptionQuery>` as the association list of its entries, read
-- and written by key. The hashers only place an entry in the trie; keys are compared as values.
use ismp_substrate.Base.{
  ◌≡◌, refl, Option, none, some, is_some, Bool, true, List, [], ◌∷◌, ite, arith, ℕ, ℕ_discrete,
}

-- The key types that storage is indexed by.
pub record Key {ℓ} (K : Type ℓ) : Type ℓ where
  pub dec : Discrete K

instance abbrev pub nat_key : Key ℕ
nat_key = record { dec = ℕ_discrete }

abbrev pub StorageMap {ℓ} : Type ℓ → Type ℓ → Type ℓ
StorageMap K V = List (K × V)

module _ {ℓ} {K V : Type ℓ} ⦃key : Key K⦄ where
  -- `get`
  unfoldable pub get : StorageMap K V → K → Option V
  get [] k = none
  get ((j, v) ∷ m) k = ite (key.dec j k) (some v) (get m k)

  -- `remove`
  unfoldable pub remove : StorageMap K V → K → StorageMap K V
  remove [] k = []
  remove ((j, v) ∷ m) k = let rest = remove m k in ite (key.dec j k) rest ((j, v) ∷ rest)

  -- `insert`
  unfoldable pub insert : StorageMap K V → K → V → StorageMap K V
  unfolding remove
  insert m k v = (k, v) ∷ remove m k

  -- `contains_key`
  unfoldable pub contains_key : StorageMap K V → K → Bool
  contains_key m k = is_some (get m k)

  remove-remove : (m : StorageMap K V) (k : K) → remove (remove m k) k ≡ remove m k
  unfolding remove
  remove-remove [] k = refl
  remove-remove ((j, v) ∷ m) k = ground (arith, remove-remove m k)

  pub get-remove :
      (m : StorageMap K V) (k j : K) → get (remove m k) j ≡ ite (key.dec k j) none (get m j)
  unfolding get remove
  get-remove [] k j = ground arith
  get-remove ((i, v) ∷ m) k j = ground (arith, get-remove m k j)

  pub get-insert :
      (m : StorageMap K V) (k j : K) (v : V)
      → get (insert m k v) j ≡ ite (key.dec k j) (some v) (get m j)
  unfolding get insert
  get-insert m k j v = ground (arith, get-remove m k j)

  -- An entry that is written and removed leaves what a removal alone does.
  pub remove-insert : (m : StorageMap K V) (k : K) (v : V) → remove (insert m k v) k ≡ remove m k
  unfolding insert remove
  remove-insert m k v = ground (arith, remove-remove m k)

  -- No key has two entries.
  abbrev pub IsMap : StorageMap K V → Type ℓ
  IsMap [] = Unit
  IsMap ((k, v) ∷ m) = (get m k ≡ none) × IsMap m

  pub remove-get_none : (m : StorageMap K V) (k : K) → get m k ≡ none → remove m k ≡ m
  unfolding get remove
  remove-get_none [] k e = refl
  remove-get_none ((j, v) ∷ m) k e = ground (arith, remove-get_none m k, e)

  pub remove-IsMap : (m : StorageMap K V) (k : K) → IsMap m → IsMap (remove m k)
  unfolding remove
  remove-IsMap [] k h = tt
  remove-IsMap ((j, v) ∷ m) k (new, h) = elim (key.dec j k) [
    | yes e ↦
        let gone : remove ((j, v) ∷ m) k ≡ remove m k = ground (arith, e) in
        rw gone (remove-IsMap m k h)
    | no ne ↦
        let left : remove ((j, v) ∷ m) k ≡ (j, v) ∷ remove m k = ground (arith, ne) in
        rw left (ground (arith, get-remove m k j, new), remove-IsMap m k h)
  ]

  pub insert-IsMap : (m : StorageMap K V) (k : K) (v : V) → IsMap m → IsMap (insert m k v)
  unfolding insert
  insert-IsMap m k v h = (ground (arith, get-remove m k k), remove-IsMap m k h)

  -- A key that is written has an entry, and no key loses its own.
  pub contains_key-inserted :
      (m : StorageMap K V) (k : K) (v : V) → contains_key (insert m k v) k ≡ true
  unfolding contains_key
  contains_key-inserted m k v = ground (arith, get-insert m k k v)

  pub contains_key-insert :
      (m : StorageMap K V) (k j : K) (v : V)
      → contains_key m j ≡ true
      → contains_key (insert m k v) j ≡ true
  unfolding contains_key
  contains_key-insert m k j v there = ground (arith, get-insert m k j v, there)
