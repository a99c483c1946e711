-- ===== src/Mmr/Shapes.antt =====
-- Trees and forests of one shape: the trees of two logs of one length.
use ismp_substrate.Base.{◌≡◌, none, some, List, [], ◌∷◌, length, arith}
use ismp_substrate.Primitives.Leaves.{Leaf}
use ismp_substrate.Mmr.Forest.{Tree, Forest, add_tree, grow}

-- trees and forests that differ in their leaves only
pub data SameTree : Tree → Tree → Type 0 where
  tips : (leaf leaf' : Leaf) → SameTree (Tree.tip leaf) (Tree.tip leaf')
  joins :
      {t t' u u' : Tree}
      → SameTree t t'
      → SameTree u u'
      → SameTree (Tree.join t u) (Tree.join t' u')

pub data SameForest : Forest → Forest → Type 0 where
  nothing : SameForest [] []
  no_trees : {f f' : Forest} → SameForest f f' → SameForest (none ∷ f) (none ∷ f')
  trees :
      {t t' : Tree} {f f' : Forest}
      → SameTree t t'
      → SameForest f f'
      → SameForest (some t ∷ f) (some t' ∷ f')

add_tree-same :
    {f f' : Forest}
    → SameForest f f'
    → (t t' : Tree) → SameTree t t'
    → SameForest (add_tree t f) (add_tree t' f')
add_tree-same SameForest.nothing t t' h = SameForest.trees h SameForest.nothing
add_tree-same (SameForest.no_trees hs) t t' h = SameForest.trees h hs
add_tree-same (SameForest.trees {t = u} {t' = u'} same hs) t t' h =
    SameForest.no_trees (add_tree-same hs (Tree.join u t) (Tree.join u' t') (SameTree.joins same h))

pub grow-same :
    (f f' : Forest) (log log' : List Leaf)
    → SameForest f f'
    → length log ≡ length log'
    → SameForest (grow f log) (grow f' log')
grow-same f f' [] [] h size = h
grow-same f f' [] (x ∷ log') h size = absurd (omega (arith, size))
grow-same f f' (x ∷ log) [] h size = absurd (omega (arith, size))
grow-same f f' (x ∷ log) (x' ∷ log') h size =
    grow-same (add_tree (Tree.tip x) f) (add_tree (Tree.tip x') f') log log'
      (add_tree-same h (Tree.tip x) (Tree.tip x') (SameTree.tips x x')) (omega (arith, size))
