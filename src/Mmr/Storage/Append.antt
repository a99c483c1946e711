-- ===== src/Mmr/Storage/Append.antt =====
-- What the runtime store's `append` does with the nodes of one new leaf.
use ismp_substrate.Base.{
  ℕ, zero, suc, ◌+◌, ◌*◌, ◌<◌, ◌≤◌, ◌≡◌, refl, ap, ◌∙◌, Bool, true, false, none, some, List, [],
  ◌∷◌, map, length, last, member, if◌then◌else◌, ◌==◌, wrap64, u64_mod, arith,
}
use ismp_substrate.StorageMap
use ismp_substrate.StorageMap.{StorageMap, nat_key, get-remove, get-insert}
use ismp_substrate.Ismp.{Bytes, H256, text, bytes_key}
use ismp_substrate.Primitives.Leaves.{Leaf, DataOrHash, hash}
use ismp_substrate.Pallet.{State, Runtime, MmrLib}
use ismp_substrate.Mmr.Mountains.{
  Mountains, range, peaks, joins, joined, kept, peaks-split, peaks-range-suc, member-joined-kept,
  range-IsDescending, IsDescending,
}
use ismp_substrate.Mmr.Storage.{
  append_loop, prune_nodes, remove_node, next_if_eq, count_leaf, store_elem,
}
use ismp_substrate.Mmr.Storage.Peaks.{
  peeks_eq, peaks_before, peaks_to_prune_and_store, peaks_to_prune_and_store_split,
}

-- The entries of the nodes without those at the given positions.
abbrev pub remove_all : List ℕ → StorageMap ℕ H256 → StorageMap ℕ H256
remove_all [] m = m
remove_all (p ∷ ps) m = remove_all ps (StorageMap.remove m p)

pub get-remove_all :
    (ps : List ℕ) (m : StorageMap ℕ H256) (p : ℕ)
    → StorageMap.get (remove_all ps m) p ≡ (if member p ps then none else StorageMap.get m p)
get-remove_all [] m p = refl
get-remove_all (q ∷ ps) m p =
    ground (arith, get-remove_all ps (StorageMap.remove m q) p, get-remove m q p)

pub prune_nodes_lem :
    (ps : List ℕ) (s : State) → prune_nodes ps s ≡ record s { nodes = remove_all ps s.nodes }
unfolding prune_nodes
prune_nodes_lem [] s = refl
prune_nodes_lem (p ∷ ps) s = prune_nodes_lem ps (remove_node p s)

module _ (r : Runtime) where
  -- The offchain database with the encodings of some elements, from a position on.
  abbrev pub write_offchain : ℕ → List DataOrHash → StorageMap Bytes Bytes → StorageMap Bytes Bytes
  write_offchain i [] m = m
  write_offchain i (e ∷ es) m = write_offchain (i + 1) es (
      StorageMap.insert m (r.codec.encode_node_key r.indexing_prefix (text "leaves") i)
        (r.codec.encode_node e))

  abbrev pub node_hash : DataOrHash → H256
  node_hash e = hash r.ismp r.keccak_256 e

  append_loop_step :
      (e : DataOrHash) (es : List DataOrHash) (ps qs : List ℕ) (b : Bool) (l i : ℕ) (s : State)
      → next_if_eq ps i ≡ (qs, b)
      → wrap64 (i + 1) ≡ i + 1
      → append_loop r (e ∷ es) ps l i s
        ≡ append_loop r es qs (count_leaf e l) (i + 1) (store_elem r b i e s)
  unfolding append_loop
  append_loop_step e es ps qs b l i s h w =
      ap
        (λ (q : List ℕ × Bool).
          append_loop r es q.0 (count_leaf e l) (wrap64 (i + 1)) (store_elem r q.1 i e s))
        h
      ∙ ap (λ j. append_loop r es qs (count_leaf e l) j (store_elem r b i e s)) w

  -- Where the last of the new nodes is the one new peak, the loop stores its hash alone on chain,
  -- and every node in the offchain database.
  pub append_loop_state :
      (e : DataOrHash) (es : List DataOrHash) (target l i : ℕ) (s : State)
      → target ≡ i + length es
      → target < u64_mod
      → (append_loop r (e ∷ es) (target ∷ []) l i s).1 ≡ record s {
        nodes = StorageMap.insert s.nodes target (node_hash (last e es));
        offchain = write_offchain i (e ∷ es) s.offchain;
      }
  unfolding append_loop
  append_loop_state e [] target l i s at small =
      let at' : i ≡ target = omega arith in
      let same : (target == i) ≡ true = ground arith in rw same (rw at' refl)
  append_loop_state e (e' ∷ es) target l i s at small =
      ap (λ (q : ℕ × State). q.1)
        (append_loop_step e (e' ∷ es) (target ∷ []) (target ∷ []) false l i s
          (unfold next_if_eq in ground arith) (omega arith))
      ∙ append_loop_state e' es target (count_leaf e l) (i + 1) (store_elem r false i e s)
          (omega arith) small

  -- The joins of a push are hashes, so they leave the number of leaves alone.
  append_loop_hashes :
      (hs : List H256) (ps : List ℕ) (l i : ℕ) (s : State)
      → (append_loop r (map DataOrHash.hash_of hs) ps l i s).0 ≡ l
  unfolding append_loop
  append_loop_hashes [] ps l i s = refl
  append_loop_hashes (h ∷ hs) ps l i s =
      append_loop_hashes hs (next_if_eq ps i).0 l (wrap64 (i + 1))
        (store_elem r (next_if_eq ps i).1 i (DataOrHash.hash_of h) s)

  pub append_loop_leaves :
      (leaf : Leaf) (hs : List H256) (ps : List ℕ) (l i : ℕ) (s : State)
      → l + 1 < u64_mod
      → (append_loop r (DataOrHash.data_of leaf ∷ map DataOrHash.hash_of hs) ps l i s).0 ≡ l + 1
  unfolding append_loop
  append_loop_leaves leaf hs ps l i s small =
      append_loop_hashes hs (next_if_eq ps i).0 (wrap64 (l + 1)) (wrap64 (i + 1))
        (store_elem r (next_if_eq ps i).1 i (DataOrHash.data_of leaf) s)
      ∙ omega arith

-- What the library documents of `helper::get_peaks`: the positions of the peaks of a range of the
-- given number of nodes, from left to right.
pub record FindsPeaks (lib : MmrLib) : Type 0 where
  pub at :
      (n : ℕ) → 0 < n → 2 * n < u64_mod → lib.get_peaks (range n).nodes ≡ peaks (range n).mountains

-- The new peak's position after n leaves.
abbrev pub new_peak : ℕ → ℕ
new_peak n = (range n).nodes + joins (range n).mountains

joined_parts :
    (b t : ℕ) (ms : Mountains) → IsDescending b ms → b ≤ t → peeks_eq (joined ms) (t ∷ []) ≡ false
joined_parts b t ms d h = go (joined ms) refl
  where
    go : (ps : List ℕ) → joined ms ≡ ps → peeks_eq ps (t ∷ []) ≡ false
    go [] e = refl
    go (p ∷ ps) e = ground (arith, member-joined-kept b p ms d, ap (λ qs. member p qs) e)

peaks_before-range :
    (lib : MmrLib) (n : ℕ)
    → FindsPeaks lib
    → 2 * n < u64_mod
    → peaks_before lib.get_peaks (range n).nodes ≡ peaks (range n).mountains
unfolding peaks_before range
peaks_before-range lib zero finds small = refl
peaks_before-range lib (suc n) finds small =
    let some_nodes : ((range (suc n)).nodes == 0) ≡ false = ground arith in
    rw some_nodes (finds.at (suc n) (omega arith) small)

-- From n leaves to one more, over a library that finds the peaks, and with twice the leaves below
-- 2^64: the joined peaks are pruned, and the new peak is stored.
pub peaks_to_prune_and_store-push :
    (lib : MmrLib) (n : ℕ)
    → FindsPeaks lib
    → 2 * (n + 1) < u64_mod
    → peaks_to_prune_and_store lib.get_peaks (range n).nodes (range (suc n)).nodes
      ≡ some (joined (range n).mountains, new_peak n ∷ [])
peaks_to_prune_and_store-push lib n finds small =
    peaks_to_prune_and_store_split lib.get_peaks (range n).nodes (range (suc n)).nodes
      (peaks (kept (range n).mountains)) (joined (range n).mountains) (new_peak n ∷ [])
      (peaks_before-range lib n finds (omega arith) ∙ peaks-split (range n).mountains)
      (finds.at (suc n) (omega arith) (omega arith) ∙ peaks-range-suc n)
      (joined_parts (range n).nodes (new_peak n) (range n).mountains (range-IsDescending n)
        (omega arith))
