-- ===== src/Mmr/Trees.antt =====
-- The hashes that the chain holds are the roots of the trees of the log.
use ismp_substrate.Base.{
  ℕ, suc, ◌+◌, ◌≡◌, refl, ap₂, ◌∙◌, true, none, some, List, [], ◌∷◌, ◌++◌, map, last, member,
  member-append, arith,
}
use ismp_substrate.StorageMap
use ismp_substrate.StorageMap.{StorageMap, nat_key}
use ismp_substrate.Ismp.{H256}
use ismp_substrate.Primitives.Leaves.{Leaf, DataOrHash, hash}
use ismp_substrate.Pallet.{State, Runtime}
use ismp_substrate.Mmr.Mountains.{
  Mountains, add_peak, range, peaks, joins, kept, member-joined-kept, member-peaks-lt,
  range-IsDescending, kept-IsDescending,
}
use ismp_substrate.Mmr.Forest.{Tree, Forest, add_tree, joined_tree, forest, grow-append, root}
use ismp_substrate.Mmr.Storage.{runtime_get_elem, get_node}
use ismp_substrate.Mmr.Storage.Append.{node_hash, new_peak}
use ismp_substrate.Mmr.Storage.Invariant.{appended, get-appended}
use ismp_substrate.Mmr.Push.{combine_nodes, join_hashes, elem_at, AppendsLeaf, pushed_joins}

module _ (r : Runtime) where
  -- The hash of a tree: that of its leaf, or of the two hashes below it, the left one first.
  abbrev pub tree_root : Tree → H256
  tree_root =
      root (λ leaf. node_hash r (DataOrHash.data_of leaf))
        (λ left right. r.keccak_256 (left ++ right))

  -- Each mountain's peak stands on chain with the hash of its tree.
  pub data HoldsTrees (m : StorageMap ℕ H256) : Mountains → Forest → Type 0 where
    nothing : HoldsTrees m [] []
    no_mountain :
        {ms : Mountains} {f : Forest} → HoldsTrees m ms f → HoldsTrees m (none ∷ ms) (none ∷ f)
    mountain :
        {q : ℕ} {t : Tree} {ms : Mountains} {f : Forest}
        → StorageMap.get m q ≡ some (tree_root t)
        → HoldsTrees m ms f
        → HoldsTrees m (some q ∷ ms) (some t ∷ f)

  -- The first map's entries at some positions are those of the second.
  abbrev pub AgreeOn : List ℕ → StorageMap ℕ H256 → StorageMap ℕ H256 → Type 0
  AgreeOn qs m' m = (q : ℕ) → member q qs ≡ true → StorageMap.get m' q ≡ StorageMap.get m q

  HoldsTrees-same :
      {m m' : StorageMap ℕ H256} {ms : Mountains} {f : Forest}
      → HoldsTrees m ms f
      → AgreeOn (peaks ms) m' m
      → HoldsTrees m' ms f
  HoldsTrees-same HoldsTrees.nothing same = HoldsTrees.nothing
  HoldsTrees-same (HoldsTrees.no_mountain h) same = HoldsTrees.no_mountain (HoldsTrees-same h same)
  HoldsTrees-same (HoldsTrees.mountain {q} {t} {ms} e h) same =
      HoldsTrees.mountain (same q (ground (arith, member-append q (peaks ms) (q ∷ []))) ∙ e) (
        HoldsTrees-same h
          (λ p in_ms. same p (ground (arith, in_ms, member-append p (peaks ms) (q ∷ [])))))

  HoldsTrees-add_tree :
      {m m' : StorageMap ℕ H256} {ms : Mountains} {f : Forest}
      → HoldsTrees m ms f
      → (p : ℕ) (t : Tree) → AgreeOn (peaks (kept ms)) m' m
      → StorageMap.get m' (p + joins ms) ≡ some (tree_root (joined_tree t f))
      → HoldsTrees m' (add_peak p ms) (add_tree t f)
  HoldsTrees-add_tree HoldsTrees.nothing p t same top =
      let at_end : p ≡ p + 0 = omega arith in HoldsTrees.mountain (rw at_end top) HoldsTrees.nothing
  HoldsTrees-add_tree (HoldsTrees.no_mountain h) p t same top =
      let at_end : p ≡ p + 0 = omega arith in
      HoldsTrees.mountain (rw at_end top) (HoldsTrees-same h same)
  HoldsTrees-add_tree (HoldsTrees.mountain {q} {t = u} {ms} e h) p t same top =
      let next : p + 1 + joins ms ≡ p + suc (joins ms) = omega arith in
      HoldsTrees.no_mountain (HoldsTrees-add_tree h (p + 1) (Tree.join u t) same (rw next top))

  elem_at-held :
      (s : State) (q : ℕ) (h : H256)
      → StorageMap.get s.nodes q ≡ some h
      → node_hash r (elem_at (runtime_get_elem r s) q) ≡ h
  unfolding runtime_get_elem get_node hash
  elem_at-held s q h e = ground arith

  -- The last hash of a push is the root of the joined tree.
  last_join_lem :
      (s : State) {ms : Mountains} {f : Forest}
      → HoldsTrees s.nodes ms f
      → (top : DataOrHash) (t : Tree) → node_hash r top ≡ tree_root t
      → node_hash r (
          last top
            (map DataOrHash.hash_of (join_hashes (runtime_get_elem r s) (combine_nodes r) top ms)))
        ≡ tree_root (joined_tree t f)
  unfolding hash
  last_join_lem s HoldsTrees.nothing top t e = e
  last_join_lem s (HoldsTrees.no_mountain h) top t e = e
  last_join_lem s (HoldsTrees.mountain {q} {t = u} held h) top t e =
      last_join_lem s h
        (DataOrHash.hash_of (combine_nodes r (elem_at (runtime_get_elem r s) q) top))
        (Tree.join u t)
        (ap₂ (λ left right. r.keccak_256 (left ++ right)) (elem_at-held s q (tree_root u) held) e)

  module _ (lib : AppendsLeaf r.mmr_lib) (leaf : Leaf) (s : State) where
    -- Where the chain holds the trees of a log, it holds those of the longer log after a push.
    pub appended-HoldsTrees :
        (log : List Leaf)
        → HoldsTrees s.nodes (range s.number_of_leaves).mountains (forest log)
        → HoldsTrees
            (appended r leaf (pushed_joins r lib leaf s) s).nodes
            (range (suc s.number_of_leaves)).mountains
            (forest (log ++ leaf ∷ []))
    unfolding range
    appended-HoldsTrees log h =
        let n = s.number_of_leaves in
        let ms = (range n).mountains in
        rw (grow-append [] log leaf) (
          HoldsTrees-add_tree h (range n).nodes (Tree.tip leaf)
            (λ q in_kept. ground (
              arith,
              get-appended r leaf (pushed_joins r lib leaf s) s q,
              member-joined-kept (range n).nodes q ms (range-IsDescending n),
              member-peaks-lt (range n).nodes q (kept ms)
                  (kept-IsDescending (range n).nodes ms (range-IsDescending n)) in_kept,
            ))
            (ground (
              arith,
              get-appended r leaf (pushed_joins r lib leaf s) s (new_peak n),
              member-joined-kept (range n).nodes (new_peak n) ms (range-IsDescending n),
              last_join_lem s h (DataOrHash.data_of leaf) (Tree.tip leaf) refl,
            )))
