-- ===== src/Rpc/Events.antt =====
-- What `query_events` of pallet-ismp/rpc/src/lib.rs lists of several blocks.
use ismp_substrate.Base.{
  ℕ, suc, zero, ◌<◌, ◌≡◌, ◌≢◌, refl, ◌∙◌, ◌⊎◌, inl, inr, some, Result, ok, err, List, [], ◌∷◌,
  get_elem?, arith,
}
use ismp_substrate.StorageMap
use ismp_substrate.StorageMap.{StorageMap, get-insert}
use ismp_substrate.Ismp.{Bytes, H256, bytes_key}
use ismp_substrate.Rpc.{
  Client, BlockNumberOrHash, RpcEvent, Listing, display, find_block, query_block, query_loop,
  query_events,
}
use ismp_substrate.Rpc.Api.{RpcError}

-- a result is an error or a success
Result-cases :
    {A : Type 0} (r : Result RpcError A) → ((e : RpcError) × (r ≡ err e)) ⊎ ((a : A) × (r ≡ ok a))
Result-cases (ok a) = inr (a, refl)
Result-cases (err e) = inl (e, refl)

module _ (client : Client) where
  -- A loop that succeeds has listed its first block.
  first_block :
      (block : BlockNumberOrHash) (blocks : List BlockNumberOrHash)
      (events listing : Listing client)
      → query_loop client (block ∷ blocks) events ≡ ok listing
      → (at : H256) × (found : List RpcEvent) × (find_block client block ≡ ok at)
        × (query_block client at ≡ ok found)
        × (query_loop client blocks (StorageMap.insert events (display client block) found)
            ≡ ok listing)
  unfolding query_loop
  first_block block blocks events listing e = elim (Result-cases (find_block client block)) [
    | inl (x, failed) ↦ absurd (ground (arith, failed, e))
    | inr (at, found) ↦ elim (Result-cases (query_block client at)) [
      | inl (x, failed) ↦ absurd (ground (arith, found, failed, e))
      | inr (temp, listed) ↦ (at, temp, found, listed, ground (arith, found, listed, e))
    ]
  ]

  -- An entry that no block has the name of is kept.
  entry_kept :
      (blocks : List BlockNumberOrHash) (events listing : Listing client) (k : Bytes)
      → query_loop client blocks events ≡ ok listing
      → ((i : ℕ) (b : BlockNumberOrHash) → get_elem? blocks i ≡ some b → display client b ≢ k)
      → StorageMap.get listing k ≡ StorageMap.get events k
  unfolding query_loop
  entry_kept [] events listing k e other = let same : listing ≡ events = cc in rw same refl
  entry_kept (block ∷ blocks) events listing k e other =
      let (at, found, _, _, rest) = first_block block blocks events listing e in
      entry_kept blocks (StorageMap.insert events (display client block) found) listing k rest
        (λ i b there. other (suc i) b there)
      ∙ ground (arith, get-insert events (display client block) k found, other 0 block refl)

  listed :
      (blocks : List BlockNumberOrHash) (events listing : Listing client) (i : ℕ)
      (block : BlockNumberOrHash)
      → query_loop client blocks events ≡ ok listing
      → get_elem? blocks i ≡ some block
      → ((j : ℕ) (b : BlockNumberOrHash)
          → i < j
          → get_elem? blocks j ≡ some b
          → display client b ≢ display client block)
      → (at : H256) × (found : List RpcEvent) × (find_block client block ≡ ok at)
        × (query_block client at ≡ ok found)
        × (StorageMap.get listing (display client block) ≡ some found)
  listed [] events listing i block e there apart = cc
  listed (x ∷ blocks) events listing zero block e there apart =
      let (at, found, known, read, rest) = first_block x blocks events listing e in
      let same : block ≡ x = cc in
      let name = display client block in
      let kept =
        entry_kept blocks (StorageMap.insert events (display client x) found) listing name rest
          (λ j b here. apart (suc j) b (omega arith) here) in
      (
        at,
        found,
        rw same known,
        read,
        kept ∙ ground (arith, same, get-insert events (display client x) name found),
      )
  listed (x ∷ blocks) events listing (suc i) block e there apart =
      let (at, found, known, read, rest) = first_block x blocks events listing e in
      listed blocks (StorageMap.insert events (display client x) found) listing i block rest there
        (λ j b later here. apart (suc j) b (omega arith) here)

  -- Where `query_events` succeeds on some blocks, and no block after one of them has its name:
  -- that block was found and its events were read, and the answer lists these events under the
  -- block's name.
  pub query_events_listed :
      (blocks : List BlockNumberOrHash) (listing : Listing client) (i : ℕ)
      (block : BlockNumberOrHash)
      → query_events client blocks ≡ ok listing
      → get_elem? blocks i ≡ some block
      → ((j : ℕ) (b : BlockNumberOrHash)
          → i < j
          → get_elem? blocks j ≡ some b
          → display client b ≢ display client block)
      → (at : H256) × (found : List RpcEvent) × (find_block client block ≡ ok at)
        × (query_block client at ≡ ok found)
        × (StorageMap.get listing (display client block) ≡ some found)
  unfolding query_events
  query_events_listed blocks listing i block e there apart =
      listed blocks [] listing i block e there apart
