-- ===== src/Mmr/Operations.antt =====
-- `Mmr` of pallet-ismp/src/mmr/mmr.rs: the wrapper around the library, over the two stores.
use ismp_substrate.Base.{ℕ, Option, none, some, List, [], ◌∷◌, map, Result, ok, err}
use ismp_substrate.Ismp.{H256}
use ismp_substrate.Primitives.{Proof, MmrError}
use ismp_substrate.Primitives.Leaves.{Leaf, DataOrHash, hash, merge}
use ismp_substrate.Pallet.{State, Runtime, Run, StoreError}
use ismp_substrate.Mmr.Utils.{size_of}
use ismp_substrate.Mmr.Storage.{append, runtime_get_elem, offchain_get_elem}

-- A range of a given size, and its number of leaves
pub record Mmr : Type 0 where
  pub size : ℕ
  pub leaves : ℕ

-- `Mmr::new`
unfoldable pub new : ℕ → Mmr
new leaves = record { size = size_of leaves; leaves = leaves }

-- the answer of `push` once `commit` has returned
abbrev pub pushed : ℕ → Result StoreError Unit × State → Option ℕ × State
pushed position (ok _, s) = (some position, s)
pushed position (err e, s) = (none, s)

module _ (r : Runtime) where
  abbrev pub merge_nodes : DataOrHash → DataOrHash → DataOrHash
  merge_nodes = merge r.ismp r.keccak_256

  -- `push`: the element goes to the library, and the commit to the store.
  unfoldable pub push : Mmr → Leaf → State → Run (Option ℕ × State)
  push m leaf s =
      elim (r.mmr_lib.push (runtime_get_elem r s) merge_nodes m.size (DataOrHash.data_of leaf)) [
        | none ↦ some (none, s)
        | some (position, batch) ↦ elim (r.mmr_lib.commit (append r) batch s) [
          | none ↦ none
          | some answer ↦ some (pushed position answer)
        ]
      ]

  -- `finalize`: calculate the new MMR's root hash.
  unfoldable pub finalize : Mmr → State → Result MmrError H256
  finalize m s = elim (r.mmr_lib.get_root (runtime_get_elem r s) merge_nodes m.size) [
    | none ↦ err MmrError.get_root
    | some root ↦ ok (hash r.ismp r.keccak_256 root)
  ]

  -- the leaf at a position of the offchain store
  unfoldable pub leaf_at : State → ℕ → Result MmrError Leaf
  leaf_at s pos = elim (offchain_get_elem r s pos) [
    | some (DataOrHash.data_of leaf) ↦ ok leaf
    | _ ↦ err MmrError.leaf_not_found
  ]

  -- `collect::<Result<Vec<_>, Error>>`: the first error ends it.
  unfoldable pub collect_leaves : State → List ℕ → Result MmrError (List Leaf)
  unfolding leaf_at
  collect_leaves s [] = ok []
  collect_leaves s (pos ∷ rest) = elim (leaf_at s pos) [
    | err e ↦ err e
    | ok leaf ↦ elim (collect_leaves s rest) [ err e ↦ err e | ok leaves ↦ ok (leaf ∷ leaves) ]
  ]

  -- `generate_proof`, from the offchain store
  unfoldable pub generate_proof : Mmr → List ℕ → State → Result MmrError (List Leaf × Proof)
  unfolding collect_leaves
  generate_proof m positions s = elim (collect_leaves s positions) [
    | err e ↦ err e
    | ok leaves ↦ elim (r.mmr_lib.gen_proof (offchain_get_elem r s) merge_nodes m.size positions) [
      | none ↦ err MmrError.generate_proof
      | some items ↦ ok (
        leaves,
        record {
          leaf_indices = positions;
          leaf_count = m.leaves;
          items = map (hash r.ismp r.keccak_256) items;
        },
      )
    ]
  ]
