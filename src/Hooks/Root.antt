-- ===== src/Hooks/Root.antt =====
-- The root that a block's digest carries, and its readers on other chains.
use ismp_substrate.Base.{ℕ, ◌<◌, ◌≡◌, refl, ok, length, arith}
use ismp_substrate.Ismp.{H256}
use ismp_substrate.Primitives.Digest.{
  Aura, zero_hash, fetch_overlay_root_and_timestamp, fetch_loop-append,
}
use ismp_substrate.Pallet.{State, Runtime, IsScale}
use ismp_substrate.Mmr.Operations.{new, finalize}
use ismp_substrate.Hooks.{deposit_root, put_root, on_finalize, mmr_root}

module _ (r : Runtime) (scale : IsScale r.codec) (aura : Aura) (slot_duration : ℕ) where
  deposit_root_fetched :
      (s : State) (t : ℕ) (before root : H256)
      → length root ≡ 32
      → fetch_overlay_root_and_timestamp aura slot_duration s.logs ≡ ok (t, before)
      → fetch_overlay_root_and_timestamp aura slot_duration (deposit_root r root s).logs
        ≡ ok (t, root)
  unfolding deposit_root fetch_overlay_root_and_timestamp
  deposit_root_fetched s t before root size e =
      rw (scale.hash_raw root)
        (fetch_loop-append aura slot_duration s.logs root 0 t zero_hash before size e)

  put_root_fetched :
      (s : State) (t : ℕ) (before root : H256)
      → length root ≡ 32
      → fetch_overlay_root_and_timestamp aura slot_duration s.logs ≡ ok (t, before)
      → fetch_overlay_root_and_timestamp aura slot_duration (put_root r (ok root) s).logs
        ≡ ok (t, root)
  unfolding put_root
  put_root_fetched s t before root size e =
      deposit_root_fetched (record s { root_hash = root }) t before root size e

  finalized_root :
      (s : State) (root : H256)
      → 0 < s.number_of_leaves
      → finalize r (new s.number_of_leaves) s ≡ ok root
      → on_finalize r s ≡ put_root r (ok root) s
  unfolding on_finalize
  finalized_root s root some_leaves done = ground arith

  put_root_root : (s : State) (root : H256) → mmr_root (put_root r (ok root) s) ≡ root
  unfolding mmr_root put_root deposit_root
  put_root_root s root = refl

  -- Over SCALE as documented, the digest of a block with a range that has leaves: where `finalize`
  -- gives a root of 32 bytes and the logs so far can be read, `fetch_overlay_root_and_timestamp`
  -- reads that root from the digest after `on_finalize`, with the timestamp it had, and storage
  -- holds the same root.
  pub fetch_overlay_root_and_timestamp-on_finalize :
      (s : State) (t : ℕ) (before root : H256)
      → 0 < s.number_of_leaves
      → finalize r (new s.number_of_leaves) s ≡ ok root
      → length root ≡ 32
      → fetch_overlay_root_and_timestamp aura slot_duration s.logs ≡ ok (t, before)
      → (fetch_overlay_root_and_timestamp aura slot_duration (on_finalize r s).logs ≡ ok (t, root))
        × (mmr_root (on_finalize r s) ≡ root)
  fetch_overlay_root_and_timestamp-on_finalize s t before root some_leaves done size e =
      let fetched = put_root_fetched s t before root size e in
      rw (finalized_root s root some_leaves done) (fetched, put_root_root s root)

  -- Where the logs so far can be read, without leaves the digest after `on_finalize` carries the
  -- zero hash.
  pub fetch_overlay_root_and_timestamp-on_finalize_empty :
      (s : State) (t : ℕ) (before : H256)
      → s.number_of_leaves ≡ 0
      → fetch_overlay_root_and_timestamp aura slot_duration s.logs ≡ ok (t, before)
      → fetch_overlay_root_and_timestamp aura slot_duration (on_finalize r s).logs
        ≡ ok (t, zero_hash)
  unfolding on_finalize
  fetch_overlay_root_and_timestamp-on_finalize_empty s t before none e =
      ground (arith, deposit_root_fetched s t before zero_hash refl e)
