-- ===== src/Leaves/Log.antt =====
-- What a chain promises of its leaves, and that `mmr_push` of pallet-ismp/src/lib.rs keeps the
-- promise: the state represents the log of the leaves pushed so far, the oldest first.
use ismp_substrate.Base.{
  ℕ, suc, ◌+◌, ◌*◌, ◌<◌, ◌≡◌, refl, sym, ap, ◌∙◌, some, List, [], ◌∷◌, ◌++◌, length, length-append,
  u64_mod, arith,
}
use ismp_substrate.StorageMap.{get-insert}
use ismp_substrate.Ismp.{bytes_key}
use ismp_substrate.Primitives.Leaves.{Leaf, DataOrHash}
use ismp_substrate.Pallet.{State, Runtime, IsScale}
use ismp_substrate.Mmr.Mountains.{range, grows}
use ismp_substrate.Mmr.Forest.{forest}
use ismp_substrate.Mmr.Trees.{HoldsTrees, appended-HoldsTrees}
use ismp_substrate.Mmr.Storage.{offchain_key}
use ismp_substrate.Mmr.Storage.Invariant.{HoldsPeaks, appended, new_nodes}
use ismp_substrate.Mmr.Push.{AppendsLeaf, pushed_joins}
use ismp_substrate.Leaves.{index_key, mmr_push, read_leaf, store_leaf_index_offchain}
use ismp_substrate.Leaves.Push.{
  after_push, mmr_push_lem, node_key, get-write_offchain_other, index_key_apart,
  read_leaf-after_push,
}
use ismp_substrate.Handlers.Outgoing.{after_push-HoldsPeaks}

module _ (r : Runtime) where
  -- Leaves, from the i-th on, are read back from their positions.
  abbrev pub Archived : State → ℕ → List Leaf → Type 0
  Archived s i [] = Unit
  Archived s i (leaf ∷ log) =
      (read_leaf r s (range i).nodes ≡ some (DataOrHash.data_of leaf)) × Archived s (suc i) log

  -- The state represents a log: its length is the number of leaves, the nodes on chain are the
  -- roots of the log's trees and no more, and each leaf stands in the offchain database.
  pub record Represents (s : State) (log : List Leaf) : Type 0 where
    pub peaks : HoldsPeaks s
    pub counted : s.number_of_leaves ≡ length log
    pub trees : HoldsTrees r s.nodes (range s.number_of_leaves).mountains (forest log)
    pub archive : Archived s 0 log

  -- The reads below a position are those of another state.
  abbrev pub ReadsBelow : ℕ → State → State → Type 0
  ReadsBelow n t s = (i : ℕ) → i < n → read_leaf r t (range i).nodes ≡ read_leaf r s (range i).nodes

  Archived-append :
      (s t : State) (i : ℕ) (log : List Leaf) (leaf : Leaf)
      → ReadsBelow (i + length log) t s
      → read_leaf r t (range (i + length log)).nodes ≡ some (DataOrHash.data_of leaf)
      → Archived s i log
      → Archived t i (log ++ leaf ∷ [])
  Archived-append s t i [] leaf same last h =
      let here : i + 0 ≡ i = omega arith in
      (ap (λ n. read_leaf r t (range n).nodes) (sym here) ∙ last, tt)
  Archived-append s t i (x ∷ log) leaf same last h =
      let next : i + suc (length log) ≡ suc i + length log = omega arith in
      (
        same i (omega arith) ∙ h.0,
        Archived-append s t (suc i) log leaf (λ j less. same j (omega arith))
            (ap (λ n. read_leaf r t (range n).nodes) (sym next) ∙ last) h.1,
      )

  Archived-same :
      (s t : State) (i : ℕ) (log : List Leaf)
      → ((j : ℕ) → read_leaf r t (range j).nodes ≡ read_leaf r s (range j).nodes)
      → Archived s i log
      → Archived t i log
  Archived-same s t i [] same h = tt
  Archived-same s t i (leaf ∷ log) same h = (same i ∙ h.0, Archived-same s t (suc i) log same h.1)

  -- What a state represents lies in the number of leaves, the nodes on chain and the offchain
  -- database.
  pub Represents-same :
      (s t : State) (log : List Leaf)
      → t.number_of_leaves ≡ s.number_of_leaves
      → t.nodes ≡ s.nodes
      → t.offchain ≡ s.offchain
      → Represents s log
      → Represents t log
  Represents-same s t log leaves nodes offchain h = record {
    peaks = record {
      bounded = omega (arith, h.peaks.bounded);
      held = λ p. rw (nodes, leaves) (h.peaks.held p);
    };
    counted = leaves ∙ h.counted;
    trees = rw (nodes, leaves) h.trees;
    archive = Archived-same s t 0 log (λ i. unfold read_leaf in rw offchain refl) h.archive;
  }

module _ (r : Runtime) (lib : AppendsLeaf r.mmr_lib) (scale : IsScale r.codec) (leaf : Leaf)
    (s : State) where
  -- A push leaves the leaves before it as they are.
  reads_below : ReadsBelow r s.number_of_leaves (after_push r lib leaf s) s
  unfolding read_leaf store_leaf_index_offchain offchain_key
  reads_below i less =
      let n = s.number_of_leaves in
      let below = (range i).nodes in
      ground (
        arith,
        get-insert (appended r leaf (pushed_joins r lib leaf s) s).offchain (index_key r leaf)
            (node_key r scale below) (r.codec.encode_leaf_index (range n).nodes),
        index_key_apart r lib leaf s scale below,
        get-write_offchain_other r scale (new_nodes leaf (pushed_joins r lib leaf s))
            (range n).nodes s.offchain (node_key r scale below)
            (λ j later same. absurd (
              omega (
                arith,
                scale.node_key_injective r.indexing_prefix _ j below same,
                grows i n (omega arith),
              ))),
      )

  pub after_push-Represents :
      (log : List Leaf)
      → Represents r s log
      → 2 * (s.number_of_leaves + 1) < u64_mod
      → Represents r (after_push r lib leaf s) (log ++ leaf ∷ [])
  unfolding store_leaf_index_offchain
  after_push-Represents log h small =
      let next : s.number_of_leaves + 1 ≡ suc s.number_of_leaves = omega arith in
      let at_end : s.number_of_leaves ≡ 0 + length log = omega (arith, h.counted) in
      record {
        peaks = after_push-HoldsPeaks r lib leaf s h.peaks small;
        counted = omega (arith, h.counted, length-append {0});
        trees = rw next (appended-HoldsTrees r lib leaf s log h.trees);
        archive =
            Archived-append r s (after_push r lib leaf s) 0 log leaf
              (λ i less. reads_below i (omega (arith, h.counted)))
              (ap (λ n. read_leaf r (after_push r lib leaf s) (range n).nodes) (sym at_end)
                ∙ read_leaf-after_push r lib leaf s scale)
              h.archive;
      }

  -- Over libraries that behave as documented, on a state that represents a log, with twice one more
  -- leaf below 2^64: `mmr_push` returns the next free position, and the state that it leaves
  -- represents the log with the leaf at its end.
  pub mmr_push-Represents :
      (log : List Leaf)
      → Represents r s log
      → 2 * (s.number_of_leaves + 1) < u64_mod
      → (s' : State) × (mmr_push r leaf s ≡ some (some (range (length log)).nodes, s'))
        × Represents r s' (log ++ leaf ∷ [])
  mmr_push-Represents log h small = (
    after_push r lib leaf s,
    rw (sym h.counted) (mmr_push_lem r lib leaf s h.peaks small),
    after_push-Represents log h small,
  )
