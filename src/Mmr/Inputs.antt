-- ===== src/Mmr/Inputs.antt =====
-- What is hashed on the way to the root of a log, and collisions among it; the hash function is
-- that of pallet-ismp/primitives/src/mmr.rs.
use ismp_substrate.Base.{
  ◌≡◌, ◌≢◌, none, some, List, [], ◌∷◌, ◌++◌, ◌⊎◌, inl, inr, length, append_inj,
}
use ismp_substrate.Ismp.{Bytes, H256, bytes_key}
use ismp_substrate.Primitives.Leaves.{Leaf}
use ismp_substrate.Pallet.{Runtime}
use ismp_substrate.Mmr.Forest.{Tree, Forest, forest}
use ismp_substrate.Mmr.Trees.{tree_root}
use ismp_substrate.Mmr.Root.{bag_hashes, tree_roots}

module _ (r : Runtime) where
  -- the inputs for the joins of a tree, and of some trees
  abbrev pub InTree : Tree → Bytes → Type 0
  InTree (Tree.tip leaf) x = ⊥
  InTree (Tree.join t u) x = (x ≡ tree_root r t ++ tree_root r u) ⊎ (InTree t x ⊎ InTree u x)

  abbrev pub InForest : Forest → Bytes → Type 0
  InForest [] x = ⊥
  InForest (none ∷ f) x = InForest f x
  InForest (some t ∷ f) x = InForest f x ⊎ InTree t x

  -- the inputs for the bagging of roots
  abbrev pub InBag : H256 → List H256 → Bytes → Type 0
  InBag h [] x = ⊥
  InBag h (y ∷ hs) x = (x ≡ bag_hashes r y hs ++ h) ⊎ InBag y hs x

  abbrev pub InRoots : List H256 → Bytes → Type 0
  InRoots [] x = ⊥
  InRoots (h ∷ hs) x = InBag h hs x

  -- The inputs of the hash function on the way from the hashes of a log's leaves to its root.
  abbrev pub HashedFor : List Leaf → Bytes → Type 0
  HashedFor log x = InForest (forest log) x ⊎ InRoots (tree_roots r (forest log)) x

  -- two inputs, one of each kind, that differ and have one hash
  abbrev pub Collision : (Bytes → Type 0) → (Bytes → Type 0) → Type 0
  Collision P Q =
      (x : Bytes) × (y : Bytes) × P x × Q y × (x ≢ y) × (r.keccak_256 x ≡ r.keccak_256 y)

  -- a result, or a collision of wider kinds
  abbrev pub and_then :
      {A B : Type 0} {P Q P' Q' : Bytes → Type 0}
      → ((x : Bytes) → P x → P' x)
      → ((x : Bytes) → Q x → Q' x)
      → A ⊎ Collision P Q
      → (A → B ⊎ Collision P' Q')
      → B ⊎ Collision P' Q'
  and_then p q (inl a) f = f a
  and_then p q (inr (x, y, in_x, in_y, differ, same)) f =
      inr (x, y, p x in_x, q y in_y, differ, same)

  -- the hash of two parts of which the first has one length
  pub split_hash :
      (P Q : Bytes → Type 0) (a b c d : Bytes)
      → P (a ++ b)
      → Q (c ++ d)
      → length a ≡ length c
      → r.keccak_256 (a ++ b) ≡ r.keccak_256 (c ++ d)
      → ((a ≡ c) × (b ≡ d)) ⊎ Collision P Q
  split_hash P Q a b c d in_p in_q size e = elim (bytes_key.dec (a ++ b) (c ++ d)) [
    | yes same ↦ inl (append_inj a c b d size same)
    | no differ ↦ inr (a ++ b, c ++ d, in_p, in_q, differ, e)
  ]
