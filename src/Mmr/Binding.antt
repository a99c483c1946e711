-- ===== src/Mmr/Binding.antt =====
-- What a root says of the leaves under it: two logs of one length and one root have leaves of the
-- same hashes, unless two of the inputs that are hashed for the roots collide; the hash function is
-- that of pallet-ismp/primitives/src/mmr.rs.
use ismp_substrate.Base.{
  ◌≡◌, refl, sym, ap, ap₂, ◌∙◌, none, some, List, [], ◌∷◌, ◌++◌, ◌⊎◌, inl, inr, map, length,
  length-append, append_inj, All, All-append, arith,
}
use mathlib.Core.List.{map-append, head-eq_of_cons-eq}
use ismp_substrate.Ismp.{Bytes, H256}
use ismp_substrate.Primitives.Leaves.{Leaf, DataOrHash}
use ismp_substrate.Pallet.{Runtime}
use ismp_substrate.Mmr.Forest.{Tree, Forest, forest, fringe, fringes, forest_lem}
use ismp_substrate.Mmr.Trees.{tree_root}
use ismp_substrate.Mmr.Storage.Append.{node_hash}
use ismp_substrate.Mmr.Root.{bag_hashes, root_of, tree_roots, log_root}
use ismp_substrate.Mmr.Shapes.{SameTree, SameForest, grow-same}
use ismp_substrate.Mmr.Inputs.{
  InTree, InForest, InBag, InRoots, HashedFor, Collision, and_then, split_hash,
}

module _ (r : Runtime) where
  abbrev pub hash_of_leaf : Leaf → H256
  hash_of_leaf leaf = node_hash r (DataOrHash.data_of leaf)

  -- Hashes have 32 bytes, those of leaves too.
  pub record Has32Bytes : Type 0 where
    pub of_keccak : (x : Bytes) → length (r.keccak_256 x) ≡ 32
    pub of_leaf : (leaf : Leaf) → length (hash_of_leaf leaf) ≡ 32

  module _ (sizes : Has32Bytes) where
    length-tree_root : (t : Tree) → length (tree_root r t) ≡ 32
    length-tree_root (Tree.tip leaf) = sizes.of_leaf leaf
    length-tree_root (Tree.join t u) = sizes.of_keccak _

    tree-binding :
        {t t' : Tree}
        → SameTree t t'
        → tree_root r t ≡ tree_root r t'
        → (map hash_of_leaf (fringe t) ≡ map hash_of_leaf (fringe t'))
          ⊎ Collision r (InTree r t) (InTree r t')
    tree-binding (SameTree.tips leaf leaf') e = inl (ap (λ x. x ∷ []) e)
    tree-binding (SameTree.joins {t} {t'} {u} {u'} h k) e =
        and_then r (λ x p. p) (λ x p. p)
          (split_hash r (InTree r (Tree.join t u)) (InTree r (Tree.join t' u')) (tree_root r t)
            (tree_root r u) (tree_root r t') (tree_root r u') (inl refl) (inl refl)
            (length-tree_root t ∙ sym (length-tree_root t')) e)
          (λ same.
            and_then r (λ x p. inr (inl p)) (λ x p. inr (inl p)) (tree-binding h same.0)
              (λ left.
                and_then r (λ x p. inr (inr p)) (λ x p. inr (inr p)) (tree-binding k same.1)
                  (λ right. inl (
                    map-append hash_of_leaf (fringe t) (fringe u)
                    ∙ ap₂ (λ xs ys. xs ++ ys) left right
                    ∙ sym (map-append hash_of_leaf (fringe t') (fringe u'))))))

    length-roots :
        {f f' : Forest} → SameForest f f' → length (tree_roots r f) ≡ length (tree_roots r f')
    length-roots SameForest.nothing = refl
    length-roots (SameForest.no_trees hs) = length-roots hs
    length-roots (SameForest.trees {t} {t'} {f} {f'} h hs) = omega (
      arith,
      length-roots hs,
      length-append {0} (tree_roots r f) (tree_root r t ∷ []),
      length-append {0} (tree_roots r f') (tree_root r t' ∷ []),
    )

    forest-binding :
        {f f' : Forest}
        → SameForest f f'
        → tree_roots r f ≡ tree_roots r f'
        → (map hash_of_leaf (fringes f) ≡ map hash_of_leaf (fringes f'))
          ⊎ Collision r (InForest r f) (InForest r f')
    forest-binding SameForest.nothing e = inl refl
    forest-binding (SameForest.no_trees hs) e = forest-binding hs e
    forest-binding (SameForest.trees {t} {t'} {f} {f'} h hs) e =
        let (higher, this) =
          append_inj (tree_roots r f) (tree_roots r f') (tree_root r t ∷ []) (tree_root r t' ∷ [])
            (length-roots hs) e in
        and_then r (λ x p. inl p) (λ x p. inl p) (forest-binding hs higher)
          (λ left.
            and_then r (λ x p. inr p) (λ x p. inr p) (tree-binding h (head-eq_of_cons-eq this))
              (λ right. inl (
                map-append hash_of_leaf (fringes f) (fringe t)
                ∙ ap₂ (λ xs ys. xs ++ ys) left right
                ∙ sym (map-append hash_of_leaf (fringes f') (fringe t')))))

    tree_roots-All : (f : Forest) → All (λ h. length h ≡ 32) (tree_roots r f)
    tree_roots-All [] = tt
    tree_roots-All (none ∷ f) = tree_roots-All f
    tree_roots-All (some t ∷ f) =
        All-append (λ h. length h ≡ 32) (tree_roots r f) (tree_root r t ∷ []) (tree_roots-All f)
          (length-tree_root t, tt)

    length-bag_hashes :
        (h : H256) (hs : List H256) → length h ≡ 32 → length (bag_hashes r h hs) ≡ 32
    length-bag_hashes h [] size = size
    length-bag_hashes h (x ∷ hs) size = sizes.of_keccak _

    length-root_of : (hs : List H256) → All (λ h. length h ≡ 32) hs → length (root_of r hs) ≡ 32
    length-root_of [] a = refl
    length-root_of (h ∷ hs) a = length-bag_hashes h hs a.0

    pub length-log_root : (log : List Leaf) → length (log_root r log) ≡ 32
    length-log_root log = length-root_of (tree_roots r (forest log)) (tree_roots-All (forest log))

    bag_hashes-binding :
        (h h' : H256) (hs hs' : List H256)
        → length hs ≡ length hs'
        → All (λ h. length h ≡ 32) (h ∷ hs)
        → All (λ h. length h ≡ 32) (h' ∷ hs')
        → bag_hashes r h hs ≡ bag_hashes r h' hs'
        → (h ∷ hs ≡ h' ∷ hs') ⊎ Collision r (InBag r h hs) (InBag r h' hs')
    bag_hashes-binding h h' [] [] size a a' e = inl (ap (λ x. x ∷ []) e)
    bag_hashes-binding h h' [] (x ∷ hs') size a a' e = absurd (omega (arith, size))
    bag_hashes-binding h h' (x ∷ hs) [] size a a' e = absurd (omega (arith, size))
    bag_hashes-binding h h' (x ∷ hs) (x' ∷ hs') size a a' e =
        and_then r (λ x p. p) (λ x p. p)
          (split_hash r (InBag r h (x ∷ hs)) (InBag r h' (x' ∷ hs')) (bag_hashes r x hs) h
            (bag_hashes r x' hs') h' (inl refl) (inl refl)
            (length-bag_hashes x hs a.1.0 ∙ sym (length-bag_hashes x' hs' a'.1.0)) e)
          (λ same.
            and_then r (λ x p. inr p) (λ x p. inr p)
              (bag_hashes-binding x x' hs hs' (omega (arith, size)) a.1 a'.1 same.0)
              (λ rest. inl (ap₂ (λ y ys. y ∷ ys) same.1 rest)))

    root_of-binding :
        (hs hs' : List H256)
        → length hs ≡ length hs'
        → All (λ h. length h ≡ 32) hs
        → All (λ h. length h ≡ 32) hs'
        → root_of r hs ≡ root_of r hs'
        → (hs ≡ hs') ⊎ Collision r (InRoots r hs) (InRoots r hs')
    root_of-binding [] [] size a a' e = inl refl
    root_of-binding [] (x ∷ hs') size a a' e = absurd (omega (arith, size))
    root_of-binding (x ∷ hs) [] size a a' e = absurd (omega (arith, size))
    root_of-binding (h ∷ hs) (h' ∷ hs') size a a' e =
        bag_hashes-binding h h' hs hs' (omega (arith, size)) a a' e

    -- Where all hashes have 32 bytes, and two logs of one length have one root: the leaves of the
    -- two have the same hashes in the same order, or an input hashed for the one root and another
    -- hashed for the other collide.
    pub log_root-binding :
        (log log' : List Leaf)
        → length log ≡ length log'
        → log_root r log ≡ log_root r log'
        → (map hash_of_leaf log ≡ map hash_of_leaf log')
          ⊎ Collision r (HashedFor r log) (HashedFor r log')
    log_root-binding log log' size e =
        let same = grow-same [] [] log log' SameForest.nothing size in
        and_then r (λ x p. inr p) (λ x p. inr p)
          (root_of-binding (tree_roots r (forest log)) (tree_roots r (forest log'))
            (length-roots same) (tree_roots-All (forest log)) (tree_roots-All (forest log')) e)
          (λ roots.
            and_then r (λ x p. inl p) (λ x p. inl p) (forest-binding same roots)
              (λ leaves. inl (
                ap (map hash_of_leaf) (sym (forest_lem log).1)
                ∙ leaves
                ∙ ap (map hash_of_leaf) (forest_lem log').1)))
