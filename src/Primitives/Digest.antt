-- ===== src/Primitives/Digest.antt =====
-- `fetch_overlay_root_and_timestamp` of pallet-ismp/primitives/src/lib.rs.
use ismp_substrate.Base.{
  ℕ, ◌*◌, List, [], ◌∷◌, length, ◌≡◌, refl, ◌++◌, Result, ok, err, arith, if◌then◌else◌, ◌==◌,
  wrap64, replicate,
}
use ismp_substrate.Ismp.{Bytes, H256, text, Bytes-discrete, from_millis, as_secs, IsmpError}

-- `sp_runtime::DigestItem`: the two variants that are read, and every further one.
pub data DigestItem : Type 0 where
  pre_runtime : Bytes → Bytes → DigestItem
  consensus : Bytes → Bytes → DigestItem
  other : DigestItem

-- The `ConsensusEngineId` of ISMP digest in the parachain header.
abbrev pub ismp_id : Bytes
ismp_id = text "ISMP"

-- `H256::default()`
abbrev pub zero_hash : H256
zero_hash = replicate 32 0

-- `sp_consensus_aura`: the engine id, and the decoder of a slot with the text of its error
pub record Aura : Type 0 where
  pub aura_engine_id : Bytes
  pub decode_slot : Bytes → Result Bytes ℕ

abbrev pub Header : Type 0
Header = Result IsmpError (ℕ × H256)

module _ (aura : Aura) (slot_duration : ℕ) where
  -- the timestamp that a decoded slot stands for, or the error that ends the loop
  unfoldable pub read_slot : Bytes → Result IsmpError ℕ
  read_slot value = elim (aura.decode_slot value) [
    | ok slot ↦ ok (as_secs (from_millis (wrap64 (slot * slot_duration))))
    | err e ↦ err (IsmpError.implementation_specific e)
  ]

  -- the root of an ISMP digest
  unfoldable pub read_root : Bytes → Result IsmpError H256
  read_root value =
      if length value == 32
      then ok value
      else err (IsmpError.implementation_specific (text "Header contains an invalid ismp root"))

  -- The loop over the logs, with its two mutable variables; an error returns at once.
  unfoldable pub fetch_loop : List DigestItem → ℕ → H256 → Header
  unfolding read_slot read_root
  fetch_loop [] timestamp overlay_root = ok (timestamp, overlay_root)
  fetch_loop (DigestItem.pre_runtime engine value ∷ logs) timestamp overlay_root =
      elim (Bytes-discrete engine aura.aura_engine_id) [
        | yes _ ↦ elim (read_slot value) [ ok t ↦ fetch_loop logs t overlay_root | err e ↦ err e ]
        | no _ ↦ fetch_loop logs timestamp overlay_root
      ]
  fetch_loop (DigestItem.consensus engine value ∷ logs) timestamp overlay_root =
      elim (Bytes-discrete engine ismp_id) [
        | yes _ ↦ elim (read_root value) [ ok r ↦ fetch_loop logs timestamp r | err e ↦ err e ]
        | no _ ↦ fetch_loop logs timestamp overlay_root
      ]
  fetch_loop (DigestItem.other ∷ logs) timestamp overlay_root =
      fetch_loop logs timestamp overlay_root

  -- `fetch_overlay_root_and_timestamp`
  unfoldable pub fetch_overlay_root_and_timestamp : List DigestItem → Header
  unfolding fetch_loop
  fetch_overlay_root_and_timestamp digest = fetch_loop digest 0 zero_hash

  fetch_own :
      (v : Bytes) (t : ℕ) (root : H256)
      → length v ≡ 32
      → fetch_loop (DigestItem.consensus ismp_id v ∷ []) t root ≡ ok (t, v)
  unfolding fetch_loop read_root
  fetch_own v t root e = ground arith

  -- What appending a digest does to a reading of the logs before it.
  abbrev Appends : List DigestItem → Bytes → ℕ → ℕ → H256 → H256 → Type 0
  Appends logs v t₀ t root₀ root =
      fetch_loop logs t₀ root₀ ≡ ok (t, root)
      → fetch_loop (logs ++ DigestItem.consensus ismp_id v ∷ []) t₀ root₀ ≡ ok (t, v)

  append_slot :
      (engine value : Bytes) (logs : List DigestItem) (v : Bytes) (t₀ t : ℕ) (root₀ root : H256)
      (d : Result Bytes ℕ)
      → aura.decode_slot value ≡ d
      → ((t' : ℕ) → Appends logs v t' t root₀ root)
      → Appends (DigestItem.pre_runtime engine value ∷ logs) v t₀ t root₀ root
  unfolding fetch_loop read_slot
  append_slot engine value logs v t₀ t root₀ root (ok slot) d rest =
      let here = rest t₀ in
      let there = rest (as_secs (from_millis (wrap64 (slot * slot_duration)))) in
      λ e. ground (arith, d, e, here, there)
  append_slot engine value logs v t₀ t root₀ root (err x) d rest =
      let here = rest t₀ in λ e. ground (arith, d, e, here)

  append_root :
      (engine value : Bytes) (logs : List DigestItem) (v : Bytes) (t₀ t : ℕ) (root₀ root : H256)
      → ((root' : H256) → Appends logs v t₀ t root' root)
      → Appends (DigestItem.consensus engine value ∷ logs) v t₀ t root₀ root
  unfolding fetch_loop read_root
  append_root engine value logs v t₀ t root₀ root rest =
      let here = rest root₀ in let there = rest value in λ e. ground (arith, e, here, there)

  pub fetch_loop-append :
      (logs : List DigestItem) (v : Bytes) (t₀ t : ℕ) (root₀ root : H256)
      → length v ≡ 32
      → Appends logs v t₀ t root₀ root
  unfolding fetch_loop
  fetch_loop-append [] v t₀ t root₀ root small = λ e. ground (arith, e, fetch_own v t root small)
  fetch_loop-append (DigestItem.pre_runtime engine value ∷ logs) v t₀ t root₀ root small =
      append_slot engine value logs v t₀ t root₀ root (aura.decode_slot value) refl
        (λ t'. fetch_loop-append logs v t' t root₀ root small)
  fetch_loop-append (DigestItem.consensus engine value ∷ logs) v t₀ t root₀ root small =
      append_root engine value logs v t₀ t root₀ root
        (λ root'. fetch_loop-append logs v t₀ t root' root small)
  fetch_loop-append (DigestItem.other ∷ logs) v t₀ t root₀ root small =
      fetch_loop-append logs v t₀ t root₀ root small
