-- ===== src/Mmr/Storage/Invariant.antt =====
-- The nodes on chain are the peaks of the range: what `append` makes of a state, in closed form,
-- and the invariant that it keeps.
use ismp_substrate.Base.{
  ℕ, suc, ◌+◌, ◌*◌, ◌<◌, ◌≡◌, ◌≢◌, ap, ◌∙◌, none, some, List, [], ◌∷◌, map, length, length-map,
  last, member, member-append, ok, err, if◌then◌else◌, ite, wrap64, u64_mod, arith, ℕ_discrete,
}
use mathlib.Core.Path.{ap₂}
use ismp_substrate.StorageMap
use ismp_substrate.StorageMap.{StorageMap, nat_key, get-remove, get-insert}
use ismp_substrate.Ismp.{H256, bytes_key}
use ismp_substrate.Primitives.Leaves.{Leaf, DataOrHash}
use ismp_substrate.Pallet.{State, Runtime, StoreError}
use ismp_substrate.Mmr.Utils.{size_of}
use ismp_substrate.Mmr.Mountains.{
  range, peaks, joins, joined, kept, peaks-split, peaks-range-suc, member-joined-kept,
  range-IsDescending, nodes-range, nodes-range-suc,
}
use ismp_substrate.Mmr.Sizes.{size_of-range}
use ismp_substrate.Mmr.Storage.{append, append_loop, store_new, append_new, set_num_leaves}
use ismp_substrate.Mmr.Storage.Peaks.{peaks_to_prune_and_store}
use ismp_substrate.Mmr.Storage.Append.{
  remove_all, get-remove_all, prune_nodes_lem, write_offchain, node_hash, append_loop_state,
  append_loop_leaves, FindsPeaks, new_peak, peaks_to_prune_and_store-push,
}

-- The nodes that one leaf and the joins after it append.
abbrev pub new_nodes : Leaf → List H256 → List DataOrHash
new_nodes leaf hs = DataOrHash.data_of leaf ∷ map DataOrHash.hash_of hs

module _ (r : Runtime) where
  -- The state with one more leaf: its node and the joins are in the offchain database, the joined
  -- peaks are gone from the chain, and the hash of the last node stands at the new peak.
  abbrev pub appended : Leaf → List H256 → State → State
  appended leaf hs s =
      let n = s.number_of_leaves in
      record s {
        number_of_leaves = n + 1;
        nodes = remove_all (joined (range n).mountains) (
            StorageMap.insert s.nodes (new_peak n)
              (node_hash r (last (DataOrHash.data_of leaf) (map DataOrHash.hash_of hs))));
        offchain = write_offchain r (range n).nodes (new_nodes leaf hs) s.offchain;
      }

  append_new-some :
      (leaves size : ℕ) (elems : List DataOrHash) (s : State) (prune store : List ℕ)
      → peaks_to_prune_and_store r.mmr_lib.get_peaks size (wrap64 (size + length elems))
        ≡ some (prune, store)
      → append_new r leaves size elems s ≡ some (store_new r leaves size elems s prune store)
  unfolding append_new
  append_new-some leaves size elems s prune store h = ground arith

  -- the new size, as the code computes it
  grown :
      (n : ℕ) (leaf : Leaf) (hs : List H256)
      → 2 * (n + 1) < u64_mod
      → length hs ≡ joins (range n).mountains
      → wrap64 ((range n).nodes + length (new_nodes leaf hs)) ≡ (range (suc n)).nodes
  grown n leaf hs small joins_hs =
      omega (arith, length-map DataOrHash.hash_of hs, nodes-range-suc n, nodes-range (suc n))

  store_new_lem :
      (leaf : Leaf) (hs : List H256) (s : State)
      → 2 * (s.number_of_leaves + 1) < u64_mod
      → length hs ≡ joins (range s.number_of_leaves).mountains
      → store_new r s.number_of_leaves
          (range s.number_of_leaves).nodes
          (new_nodes leaf hs)
          s
          (joined (range s.number_of_leaves).mountains)
          (new_peak s.number_of_leaves ∷ [])
        ≡ appended leaf hs s
  unfolding store_new set_num_leaves
  store_new_lem leaf hs s small joins_hs =
      let n = s.number_of_leaves in
      let store = new_peak n ∷ [] in
      let es = map DataOrHash.hash_of hs in
      let (k, t) = append_loop r (new_nodes leaf hs) store n (range n).nodes s in
      prune_nodes_lem (joined (range n).mountains) (set_num_leaves k t)
      ∙ ap₂
          (λ (k : ℕ) (t : State). record t {
            number_of_leaves = k;
            nodes = remove_all (joined (range n).mountains) t.nodes;
          })
          (append_loop_leaves r leaf hs store n (range n).nodes s (omega arith))
          (append_loop_state r (DataOrHash.data_of leaf) es (new_peak n) n (range n).nodes s
            (omega (arith, length-map DataOrHash.hash_of hs))
            (omega (arith, nodes-range-suc n, nodes-range (suc n))))

  append_new_lem :
      (leaf : Leaf) (hs : List H256) (s : State)
      → FindsPeaks r.mmr_lib
      → 2 * (s.number_of_leaves + 1) < u64_mod
      → length hs ≡ joins (range s.number_of_leaves).mountains
      → append_new r s.number_of_leaves (range s.number_of_leaves).nodes (new_nodes leaf hs) s
        ≡ some (appended leaf hs s)
  append_new_lem leaf hs s finds small joins_hs =
      append_new-some s.number_of_leaves (range s.number_of_leaves).nodes (new_nodes leaf hs) s _ _
        (ap (peaks_to_prune_and_store r.mmr_lib.get_peaks (range s.number_of_leaves).nodes)
            (grown s.number_of_leaves leaf hs small joins_hs)
          ∙ peaks_to_prune_and_store-push r.mmr_lib s.number_of_leaves finds small)
      ∙ ap some (store_new_lem leaf hs s small joins_hs)

  -- The runtime store takes the nodes of one more leaf and returns; its result is the state of
  -- `appended`.
  pub append_lem :
      (leaf : Leaf) (hs : List H256) (s : State)
      → FindsPeaks r.mmr_lib
      → 2 * (s.number_of_leaves + 1) < u64_mod
      → length hs ≡ joins (range s.number_of_leaves).mountains
      → append r (range s.number_of_leaves).nodes (new_nodes leaf hs) s
        ≡ some (ok tt, appended leaf hs s)
  unfolding append
  append_lem leaf hs s finds small joins_hs = ground (
    arith,
    size_of-range s.number_of_leaves (omega arith),
    append_new_lem leaf hs s finds small joins_hs,
  )

  -- Any other position is refused, and nothing is written.
  pub append_inconsistent :
      (pos : ℕ) (e : DataOrHash) (es : List DataOrHash) (s : State)
      → pos ≢ size_of s.number_of_leaves
      → append r pos (e ∷ es) s ≡ some (err StoreError.inconsistent_store, s)
  unfolding append
  append_inconsistent pos e es s h = ground arith

-- The nodes on chain are exactly the peaks of the range of the number of leaves, which stays in
-- bounds.
pub record HoldsPeaks (s : State) : Type 0 where
  pub bounded : 2 * s.number_of_leaves < u64_mod
  pub held :
      (p : ℕ)
      → StorageMap.contains_key s.nodes p ≡ member p (peaks (range s.number_of_leaves).mountains)

module _ (r : Runtime) (leaf : Leaf) (hs : List H256) (s : State) where
  pub get-appended :
      (p : ℕ)
      → StorageMap.get (appended r leaf hs s).nodes p ≡ (
          if member p (joined (range s.number_of_leaves).mountains)
          then none
          else ite
              (ℕ_discrete (new_peak s.number_of_leaves) p)
              (some (node_hash r (last (DataOrHash.data_of leaf) (map DataOrHash.hash_of hs))))
              (StorageMap.get s.nodes p))
  get-appended p =
      let n = s.number_of_leaves in
      let top = node_hash r (last (DataOrHash.data_of leaf) (map DataOrHash.hash_of hs)) in
      let more = StorageMap.insert s.nodes (new_peak n) top in
      get-remove_all (joined (range n).mountains) more p
      ∙ ap (λ o. if member p (joined (range n).mountains) then none else o)
          (get-insert s.nodes (new_peak n) p top)

  -- One more leaf keeps the nodes on chain exactly the peaks.
  pub appended-HoldsPeaks :
      HoldsPeaks s → 2 * (s.number_of_leaves + 1) < u64_mod → HoldsPeaks (appended r leaf hs s)
  unfolding StorageMap.contains_key
  appended-HoldsPeaks h small = record {
    bounded = small;
    held = λ p.
        let n = s.number_of_leaves in
        let ms = (range n).mountains in
        let more : n + 1 ≡ suc n = omega arith in
        rw more (
          ground (
            arith,
            get-appended p,
            h.held p,
            ap (member p) (peaks-range-suc n),
            ap (member p) (peaks-split ms),
            member-append p (peaks (kept ms)) (joined ms),
            member-append p (peaks (kept ms)) (new_peak n ∷ []),
            member-joined-kept (range n).nodes p ms (range-IsDescending n),
          ));
  }
