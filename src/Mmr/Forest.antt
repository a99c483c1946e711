-- ===== src/Mmr/Forest.antt =====
-- The abstract view of the range: the log of its leaves, and the perfect binary trees over them,
-- one for each mountain. No position and no storage is in it.
use ismp_substrate.Base.{
  ℕ, zero, suc, ◌≡◌, refl, sym, ap, ◌∙◌, Option, none, some, List, [], ◌∷◌, ◌++◌,
}
use mathlib.Core.List.{append-nil, append_assoc}
use ismp_substrate.Ismp.{H256}
use ismp_substrate.Primitives.Leaves.{Leaf}

pub data Tree : Type 0 where
  tip : Leaf → Tree
  join : Tree → Tree → Tree

-- the leaves from left to right
abbrev pub fringe : Tree → List Leaf
fringe (Tree.tip leaf) = leaf ∷ []
fringe (Tree.join left right) = fringe left ++ fringe right

-- All leaves stand at one depth.
abbrev pub IsPerfect : ℕ → Tree → Type 0
IsPerfect zero (Tree.tip leaf) = Unit
IsPerfect (suc height) (Tree.join left right) = IsPerfect height left × IsPerfect height right
IsPerfect _ _ = ⊥

-- The tree of each height, the lowest first.
abbrev pub Forest : Type 0
Forest = List (Option Tree)

-- A new tree among those of its height and above: it is joined to the right of a tree of its
-- height.
abbrev pub add_tree : Tree → Forest → Forest
add_tree t [] = some t ∷ []
add_tree t (none ∷ f) = some t ∷ f
add_tree t (some u ∷ f) = none ∷ add_tree (Tree.join u t) f

-- the tree that comes of the joins
abbrev pub joined_tree : Tree → Forest → Tree
joined_tree t [] = t
joined_tree t (none ∷ f) = t
joined_tree t (some u ∷ f) = joined_tree (Tree.join u t) f

abbrev pub grow : Forest → List Leaf → Forest
grow f [] = f
grow f (leaf ∷ log) = grow (add_tree (Tree.tip leaf) f) log

-- The forest of a log, the oldest leaf first.
abbrev pub forest : List Leaf → Forest
forest log = grow [] log

-- the leaves of all trees, the highest tree first
abbrev pub fringes : Forest → List Leaf
fringes [] = []
fringes (none ∷ f) = fringes f
fringes (some t ∷ f) = fringes f ++ fringe t

-- Each tree is perfect, of the height of its place.
abbrev pub ArePerfect : ℕ → Forest → Type 0
ArePerfect height [] = Unit
ArePerfect height (none ∷ f) = ArePerfect (suc height) f
ArePerfect height (some t ∷ f) = IsPerfect height t × ArePerfect (suc height) f

pub grow-append :
    (f : Forest) (log : List Leaf) (leaf : Leaf)
    → grow f (log ++ leaf ∷ []) ≡ add_tree (Tree.tip leaf) (grow f log)
grow-append f [] leaf = refl
grow-append f (x ∷ log) leaf = grow-append (add_tree (Tree.tip x) f) log leaf

fringes-add_tree : (t : Tree) (f : Forest) → fringes (add_tree t f) ≡ fringes f ++ fringe t
fringes-add_tree t [] = refl
fringes-add_tree t (none ∷ f) = refl
fringes-add_tree t (some u ∷ f) =
    fringes-add_tree (Tree.join u t) f ∙ sym (append_assoc (fringes f) (fringe u) (fringe t))

fringes-grow : (f : Forest) (log : List Leaf) → fringes (grow f log) ≡ fringes f ++ log
fringes-grow f [] = sym (append-nil (fringes f))
fringes-grow f (leaf ∷ log) =
    fringes-grow (add_tree (Tree.tip leaf) f) log
    ∙ ap (λ ls. ls ++ log) (fringes-add_tree (Tree.tip leaf) f)
    ∙ append_assoc (fringes f) (leaf ∷ []) log

add_tree-ArePerfect :
    (height : ℕ) (t : Tree) (f : Forest)
    → IsPerfect height t
    → ArePerfect height f
    → ArePerfect height (add_tree t f)
add_tree-ArePerfect height t [] p h = (p, tt)
add_tree-ArePerfect height t (none ∷ f) p h = (p, h)
add_tree-ArePerfect height t (some u ∷ f) p h =
    add_tree-ArePerfect (suc height) (Tree.join u t) f (h.0, p) h.1

grow-ArePerfect : (f : Forest) (log : List Leaf) → ArePerfect 0 f → ArePerfect 0 (grow f log)
grow-ArePerfect f [] h = h
grow-ArePerfect f (leaf ∷ log) h =
    grow-ArePerfect (add_tree (Tree.tip leaf) f) log (add_tree-ArePerfect 0 (Tree.tip leaf) f tt h)

-- The trees of a log are perfect, of the heights of their places, and their leaves are the log.
pub forest_lem : (log : List Leaf) → ArePerfect 0 (forest log) × (fringes (forest log) ≡ log)
forest_lem log = (grow-ArePerfect [] log tt, fringes-grow [] log)

-- the hashes of trees, over a hash of leaves and of two hashes
module _ (hash_leaf : Leaf → H256) (combine : H256 → H256 → H256) where
  abbrev pub root : Tree → H256
  root (Tree.tip leaf) = hash_leaf leaf
  root (Tree.join left right) = combine (root left) (root right)

  -- those of a forest, the highest first
  abbrev pub roots : Forest → List H256
  roots [] = []
  roots (none ∷ f) = roots f
  roots (some t ∷ f) = roots f ++ root t ∷ []
