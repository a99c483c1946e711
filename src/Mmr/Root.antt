-- ===== src/Mmr/Root.antt =====
-- The root of the range as a function of the log of leaves alone, and `Mmr::finalize` of
-- pallet-ismp/src/mmr/mmr.rs, which computes it.
use ismp_substrate.Base.{
  ℕ, ◌*◌, ◌<◌, ◌≡◌, refl, Option, none, some, List, [], ◌∷◌, ◌++◌, map, length, length-append, ap,
  ok, u64_mod, arith,
}
use mathlib.Core.List.{map-append}
use ismp_substrate.StorageMap.{nat_key}
use ismp_substrate.Ismp.{H256}
use ismp_substrate.Primitives.Leaves.{Leaf, DataOrHash, hash, merge}
use ismp_substrate.Primitives.Digest.{zero_hash}
use ismp_substrate.Pallet.{State, Runtime, MmrLib, Elements}
use ismp_substrate.Mmr.Mountains.{Mountains, range, peaks}
use ismp_substrate.Mmr.Forest.{Forest, forest, fringes, forest_lem, roots}
use ismp_substrate.Mmr.Trees.{HoldsTrees, tree_root}
use ismp_substrate.Mmr.Sizes.{size_of-range}
use ismp_substrate.Mmr.Storage.{runtime_get_elem, get_node}
use ismp_substrate.Mmr.Storage.Append.{node_hash}
use ismp_substrate.Mmr.Operations.{new, finalize}

-- The elements at some positions, in order.
abbrev pub Reads : Elements → List ℕ → List DataOrHash → Type 0
Reads elems [] [] = Unit
Reads elems (p ∷ ps) (e ∷ es) = (elems p ≡ some e) × Reads elems ps es
Reads elems _ _ = ⊥

-- Peaks are bagged from the right: what the peaks right of one come to is merged with it, on its
-- left.
abbrev pub bag : (DataOrHash → DataOrHash → DataOrHash) → List DataOrHash → Option DataOrHash
bag merge_two [] = none
bag merge_two (left ∷ es) = elim (bag merge_two es) [
  | none ↦ some left
  | some right ↦ some (merge_two right left)
]

-- What the library documents of `get_root`: the bagged peaks.
pub record BagsPeaks (lib : MmrLib) : Type 0 where
  pub bag_root :
      (elems : Elements) (merge_two : DataOrHash → DataOrHash → DataOrHash) (n : ℕ)
      (es : List DataOrHash)
      → 0 < n
      → 2 * n < u64_mod
      → Reads elems (peaks (range n).mountains) es
      → lib.get_root elems merge_two (range n).nodes ≡ bag merge_two es

Reads-append :
    (elems : Elements) (p : ℕ) (e : DataOrHash) (ps : List ℕ) (es : List DataOrHash)
    → Reads elems ps es
    → elems p ≡ some e
    → Reads elems (ps ++ p ∷ []) (es ++ e ∷ [])
Reads-append elems p e [] [] h last = (last, tt)
Reads-append elems p e [] (x ∷ es) h last = elim h [ ]
Reads-append elems p e (q ∷ ps) [] h last = elim h [ ]
Reads-append elems p e (q ∷ ps) (x ∷ es) h last = (h.0, Reads-append elems p e ps es h.1 last)

module _ (r : Runtime) where
  -- the hash that some hashes come to, the last one first
  abbrev pub bag_hashes : H256 → List H256 → H256
  bag_hashes left [] = left
  bag_hashes left (h ∷ hs) = r.keccak_256 (bag_hashes h hs ++ left)

  abbrev pub root_of : List H256 → H256
  root_of [] = zero_hash
  root_of (h ∷ hs) = bag_hashes h hs

  -- the roots of some trees, the highest tree first
  abbrev pub tree_roots : Forest → List H256
  tree_roots =
      roots (λ leaf. node_hash r (DataOrHash.data_of leaf))
        (λ left right. r.keccak_256 (left ++ right))

  -- The root of a log; no state is in it.
  abbrev pub log_root : List Leaf → H256
  log_root log = root_of (tree_roots (forest log))

  HoldsTrees-Reads :
      (s : State) {ms : Mountains} {f : Forest}
      → HoldsTrees r s.nodes ms f
      → Reads (runtime_get_elem r s) (peaks ms) (map DataOrHash.hash_of (tree_roots f))
  unfolding runtime_get_elem get_node
  HoldsTrees-Reads s HoldsTrees.nothing = tt
  HoldsTrees-Reads s (HoldsTrees.no_mountain h) = HoldsTrees-Reads s h
  HoldsTrees-Reads s (HoldsTrees.mountain {q} {t} {ms} {f} e h) =
      rw (map-append DataOrHash.hash_of (tree_roots f) (tree_root r t ∷ [])) (
        Reads-append (runtime_get_elem r s) q (DataOrHash.hash_of (tree_root r t)) (peaks ms)
          (map DataOrHash.hash_of (tree_roots f)) (HoldsTrees-Reads s h) (ground (arith, e)))

  bag-hashes :
      (h : H256) (hs : List H256)
      → bag (merge r.ismp r.keccak_256) (map DataOrHash.hash_of (h ∷ hs))
        ≡ some (DataOrHash.hash_of (bag_hashes h hs))
  unfolding merge hash
  bag-hashes h [] = refl
  bag-hashes h (x ∷ hs) = ground (arith, bag-hashes x hs)

  -- A forest with leaves has a tree.
  some_root : (f : Forest) → 0 < length (fringes f) → 0 < length (tree_roots f)
  some_root [] some_leaf = some_leaf
  some_root (none ∷ f) some_leaf = some_root f some_leaf
  some_root (some t ∷ f) some_leaf =
      omega (arith, length-append {0} (tree_roots f) (tree_root r t ∷ []))

  -- Bagging the hashes that the chain holds gives the root of the log.
  bagged-root :
      (hs : List H256)
      → 0 < length hs
      → bag (merge r.ismp r.keccak_256) (map DataOrHash.hash_of hs)
        ≡ some (DataOrHash.hash_of (root_of hs))
  bagged-root [] some_peak = absurd (omega arith)
  bagged-root (h ∷ hs) some_peak = bag-hashes h hs

  module _ (bags : BagsPeaks r.mmr_lib) where
    -- Where the chain holds the trees of a log with leaves, `finalize` gives the log's root.
    pub finalize_lem :
        (s : State) (log : List Leaf)
        → HoldsTrees r s.nodes (range s.number_of_leaves).mountains (forest log)
        → s.number_of_leaves ≡ length log
        → 0 < length log
        → 2 * length log < u64_mod
        → finalize r (new s.number_of_leaves) s ≡ ok (log_root log)
    unfolding finalize new hash
    finalize_lem s log h counted some_leaf small = ground (
      arith,
      size_of-range s.number_of_leaves (omega (arith, counted)),
      bags.bag_root (runtime_get_elem r s) (merge r.ismp r.keccak_256) s.number_of_leaves
          (map DataOrHash.hash_of (tree_roots (forest log))) (omega (arith, counted))
          (omega (arith, counted)) (HoldsTrees-Reads s h),
      bagged-root (tree_roots (forest log))
          (some_root (forest log) (omega (arith, ap length (forest_lem log).1))),
    )
