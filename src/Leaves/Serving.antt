-- ===== src/Leaves/Serving.antt =====
-- The leaves and proofs that `generate_proof` of pallet-ismp/src/lib.rs serves from the offchain
-- database of a state that represents a log.
use ismp_substrate.Base.{
  ℕ, zero, suc, ◌+◌, ◌≡◌, sym, ap, ◌∙◌, some, refl, List, [], ◌∷◌, map, length, get_elem?, ok,
  arith,
}
use mathlib.Core.Option
use ismp_substrate.Primitives.Leaves.{Leaf, DataOrHash}
use ismp_substrate.Pallet.{State, Runtime}
use ismp_substrate.Mmr.Mountains.{range}
use ismp_substrate.Mmr.Storage.{offchain_get_elem}
use ismp_substrate.Mmr.Storage.Append.{node_hash}
use ismp_substrate.Mmr.Operations.{
  new, merge_nodes, leaf_at, collect_leaves, generate_proof as mmr_generate_proof,
}
use ismp_substrate.Leaves.{read_leaf, generate_proof}
use ismp_substrate.Leaves.Log.{Represents, Archived}

-- the position of the leaf with a number
abbrev pub leaf_position : ℕ → ℕ
leaf_position i = (range i).nodes

-- The leaves of a log with some numbers, in the order of the numbers.
abbrev pub Picks : List Leaf → List ℕ → List Leaf → Type 0
Picks log [] [] = Unit
Picks log (i ∷ is) (leaf ∷ leaves) = (get_elem? log i ≡ some leaf) × Picks log is leaves
Picks log _ _ = ⊥

module _ (r : Runtime) (s : State) where
  read_leaf-Archived :
      (i : ℕ) (log : List Leaf) (k : ℕ) (leaf : Leaf)
      → Archived r s k log
      → get_elem? log i ≡ some leaf
      → read_leaf r s (leaf_position (k + i)) ≡ some (DataOrHash.data_of leaf)
  read_leaf-Archived i [] k leaf h e = cc
  read_leaf-Archived zero (x ∷ log) k leaf h e =
      let here : k + 0 ≡ k = omega arith in rw here (h.0 ∙ ap (Option.map DataOrHash.data_of) e)
  read_leaf-Archived (suc i) (x ∷ log) k leaf h e =
      let next : k + suc i ≡ suc k + i = omega arith in
      rw next (read_leaf-Archived i log (suc k) leaf h.1 e)

  -- A leaf of the log is read back from its position.
  pub read_leaf-Represents :
      (log : List Leaf) (i : ℕ) (leaf : Leaf)
      → Represents r s log
      → get_elem? log i ≡ some leaf
      → read_leaf r s (leaf_position i) ≡ some (DataOrHash.data_of leaf)
  read_leaf-Represents log i leaf h e =
      let here : 0 + i ≡ i = omega arith in
      ap (λ n. read_leaf r s (leaf_position n)) (sym here)
      ∙ read_leaf-Archived i log 0 leaf h.archive e

  collect_leaves-Represents :
      (log : List Leaf) (is : List ℕ) (leaves : List Leaf)
      → Represents r s log
      → Picks log is leaves
      → collect_leaves r s (map leaf_position is) ≡ ok leaves
  unfolding collect_leaves leaf_at offchain_get_elem read_leaf
  collect_leaves-Represents log [] [] h picks = refl
  collect_leaves-Represents log [] (leaf ∷ leaves) h picks = elim picks [ ]
  collect_leaves-Represents log (i ∷ is) [] h picks = elim picks [ ]
  collect_leaves-Represents log (i ∷ is) (leaf ∷ leaves) h picks = ground (
    arith,
    read_leaf-Represents log i leaf h picks.0,
    collect_leaves-Represents log is leaves h picks.1,
  )

  -- On a state that represents a log, where the library proves the nodes at the positions of some
  -- leaves: `generate_proof` for these positions returns exactly these leaves of the log, in the
  -- order asked, with the positions as they were asked, the length of the log as the number of
  -- leaves, and the hashes of the library's nodes.
  pub generate_proof-Represents :
      (log : List Leaf) (is : List ℕ) (leaves : List Leaf) (items : List DataOrHash)
      → Represents r s log
      → Picks log is leaves
      → r.mmr_lib.gen_proof
          (offchain_get_elem r s)
          (merge_nodes r)
          (new s.number_of_leaves).size
          (map leaf_position is)
        ≡ some items
      → generate_proof r (map leaf_position is) s
        ≡ ok (
          leaves,
          record {
            leaf_indices = map leaf_position is;
            leaf_count = length log;
            items = map (node_hash r) items;
          },
        )
  unfolding generate_proof mmr_generate_proof new
  generate_proof-Represents log is leaves items h picks proved =
      ground (arith, collect_leaves-Represents log is leaves h picks, proved, h.counted)

  Archived-unique :
      (k : ℕ) (a b : List Leaf) → length a ≡ length b → Archived r s k a → Archived r s k b → a ≡ b
  Archived-unique k [] [] size h h' = refl
  Archived-unique k [] (y ∷ b) size h h' = absurd (omega (arith, size))
  Archived-unique k (x ∷ a) [] size h h' = absurd (omega (arith, size))
  Archived-unique k (x ∷ a) (y ∷ b) size h h' =
      let same : x ≡ y = ground (arith, h.0, h'.0) in
      let rest = Archived-unique (suc k) a b (omega (arith, size)) h.1 h'.1 in rw (same, rest) refl

  -- A state represents one log at most.
  pub Represents-unique : (a b : List Leaf) → Represents r s a → Represents r s b → a ≡ b
  Represents-unique a b h h' =
      Archived-unique 0 a b (sym h.counted ∙ h'.counted) h.archive h'.archive
