-- ===== src/Mmr/Push.antt =====
-- Pushing a leaf, over a library that behaves as documented.
use ismp_substrate.Base.{
  ℕ, ◌+◌, ◌*◌, ◌<◌, suc, ◌≡◌, refl, ap, ◌∙◌, true, none, some, ◌++◌, List, [], ◌∷◌, length, member,
  is_some, ok, Result, u64_mod, arith,
}
use ismp_substrate.StorageMap
use ismp_substrate.StorageMap.{nat_key}
use ismp_substrate.Ismp.{H256}
use ismp_substrate.Primitives.Leaves.{Leaf, DataOrHash, hash, merge}
use ismp_substrate.Pallet.{State, Runtime, MmrLib, Elements, Append, Batch, StoreError}
use ismp_substrate.Mmr.Utils.{size_of}
use ismp_substrate.Mmr.Mountains.{Mountains, range, peaks, joins}
use ismp_substrate.Mmr.Sizes.{size_of-range}
use ismp_substrate.Mmr.Storage.{append, runtime_get_elem}
use ismp_substrate.Mmr.Storage.Append.{FindsPeaks}
use ismp_substrate.Mmr.Storage.Invariant.{
  new_nodes, appended, append_lem, appended-HoldsPeaks, HoldsPeaks,
}
use ismp_substrate.Mmr.Operations.{new, push, pushed, merge_nodes}

-- The elements of a store that holds every peak of the range of n leaves.
abbrev pub HasPeaks : ℕ → Elements → Type 0
HasPeaks n elems = (p : ℕ) → member p (peaks (range n).mountains) ≡ true → is_some (elems p) ≡ true

-- An element that the store holds; the empty hash is never read where it holds the peaks.
abbrev pub elem_at : Elements → ℕ → DataOrHash
elem_at elems q = elim (elems q) [ some e ↦ e | none ↦ DataOrHash.hash_of [] ]

-- The hashes that a push makes: while there is a mountain of the height that the new one has
-- reached, its peak and the new one's are merged, the peak on the left.
abbrev pub join_hashes :
    Elements → (DataOrHash → DataOrHash → H256) → DataOrHash → Mountains → List H256
join_hashes elems combine top [] = []
join_hashes elems combine top (none ∷ ms) = []
join_hashes elems combine top (some q ∷ ms) =
    let h = combine (elem_at elems q) top in h ∷ join_hashes elems combine (DataOrHash.hash_of h) ms

length-join_hashes :
    (elems : Elements) (combine : DataOrHash → DataOrHash → H256) (top : DataOrHash)
    (ms : Mountains)
    → length (join_hashes elems combine top ms) ≡ joins ms
length-join_hashes elems combine top [] = refl
length-join_hashes elems combine top (none ∷ ms) = refl
length-join_hashes elems combine top (some q ∷ ms) =
    ap suc
      (length-join_hashes elems combine (DataOrHash.hash_of (combine (elem_at elems q) top)) ms)

-- What the library documents of `push` and `commit`, for a merge that makes hashes. Pushing a leaf
-- on a store that holds the peaks gives it the next position, and leaves one run of new nodes: the
-- leaf, and a hash for each join. A commit hands a run to the store's `append`.
pub record AppendsLeaf (lib : MmrLib) : Type 0 where
  pub finds : FindsPeaks lib
  pub push_run :
      (elems : Elements) (combine : DataOrHash → DataOrHash → H256) (n : ℕ) (leaf : Leaf)
      → 2 * (n + 1) < u64_mod
      → HasPeaks n elems
      → lib.push elems
          (λ a b. DataOrHash.hash_of (combine a b))
          (range n).nodes
          (DataOrHash.data_of leaf)
        ≡ some (
          (range n).nodes,
          (
            (range n).nodes,
            new_nodes leaf
                (join_hashes elems combine (DataOrHash.data_of leaf) (range n).mountains),
          )
              ∷ [],
        )
  pub commit_run :
      (f : Append) (pos : ℕ) (elems : List DataOrHash) (s : State)
      → lib.commit f ((pos, elems) ∷ []) s ≡ f pos elems s

HoldsPeaks-HasPeaks :
    (r : Runtime) (s : State) → HoldsPeaks s → HasPeaks s.number_of_leaves (runtime_get_elem r s)
unfolding runtime_get_elem StorageMap.contains_key
HoldsPeaks-HasPeaks r s h p m = ground (arith, h.held p)

push_parts :
    (r : Runtime) (n : ℕ) (leaf : Leaf) (s : State) (pos : ℕ) (batch : Batch)
    (answer : Result StoreError Unit × State)
    → r.mmr_lib.push (runtime_get_elem r s) (merge_nodes r) (size_of n) (DataOrHash.data_of leaf)
      ≡ some (pos, batch)
    → r.mmr_lib.commit (append r) batch s ≡ some answer
    → push r (new n) leaf s ≡ some (pushed pos answer)
unfolding push new
push_parts r n leaf s pos batch answer p c = ground arith

-- the merge of the pallet, without the constructor around it
abbrev pub combine_nodes : Runtime → DataOrHash → DataOrHash → H256
combine_nodes r left right =
    r.keccak_256 (hash r.ismp r.keccak_256 left ++ hash r.ismp r.keccak_256 right)

module _ (r : Runtime) (lib : AppendsLeaf r.mmr_lib) (leaf : Leaf) (s : State) where
  -- the hashes that the push makes
  abbrev pub pushed_joins : List H256
  pushed_joins =
      join_hashes (runtime_get_elem r s) (combine_nodes r) (DataOrHash.data_of leaf)
        (range s.number_of_leaves).mountains

  -- Pushing a leaf returns the next free position, and leaves the state of `appended`.
  pub push_lem :
      HoldsPeaks s
      → 2 * (s.number_of_leaves + 1) < u64_mod
      → push r (new s.number_of_leaves) leaf s
        ≡ some (some (range s.number_of_leaves).nodes, appended r leaf pushed_joins s)
  unfolding merge
  push_lem h small =
      let n = s.number_of_leaves in
      let size : size_of n ≡ (range n).nodes = size_of-range n (omega arith) in
      push_parts r n leaf s (range n).nodes (((range n).nodes, new_nodes leaf pushed_joins) ∷ [])
        (ok tt, appended r leaf pushed_joins s)
        (rw size (
          lib.push_run (runtime_get_elem r s) (combine_nodes r) n leaf small
            (HoldsPeaks-HasPeaks r s h)))
        (lib.commit_run (append r) (range n).nodes (new_nodes leaf pushed_joins) s
          ∙ append_lem r leaf pushed_joins s lib.finds small (
              length-join_hashes (runtime_get_elem r s) (combine_nodes r) (DataOrHash.data_of leaf)
                (range n).mountains))

  -- Over a library that behaves as documented, and with twice one more leaf below 2^64, pushing a
  -- leaf on a chain that holds exactly its peaks returns, with the number of nodes so far as the
  -- leaf's position; the chain has one more leaf, and holds exactly the peaks again.
  pub push-HoldsPeaks :
      HoldsPeaks s
      → 2 * (s.number_of_leaves + 1) < u64_mod
      → (s' : State) × (push r (new s.number_of_leaves) leaf s
          ≡ some (some (range s.number_of_leaves).nodes, s'))
        × (s'.number_of_leaves ≡ s.number_of_leaves + 1)
        × HoldsPeaks s'
  push-HoldsPeaks h small = (
    appended r leaf pushed_joins s,
    push_lem h small,
    refl,
    appended-HoldsPeaks r leaf pushed_joins s h small,
  )
