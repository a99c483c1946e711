-- ===== src/Tests/Blocks.antt =====
-- The theorem on the query for the events of several blocks, over a client with two blocks.
use ismp_substrate.Base.{
  ℕ, ◌<◌, ◌≡◌, ◌≢◌, refl, some, suc, zero, List, [], ◌∷◌, ok, replicate, arith, get_elem?,
  ℕ_discrete,
}
use ismp_substrate.StorageMap
use ismp_substrate.StorageMap.{StorageMap}
use ismp_substrate.Ismp.{H256, Bytes-discrete, bytes_key}
use ismp_substrate.Pallet.{Event}
use ismp_substrate.Leaves.{get_requests, get_responses}
use ismp_substrate.Rpc.{
  Client, BlockNumberOrHash, RpcEvent, Listing, display, find_block, query_block, query_loop,
  query_events, collect_events, collect_event, full_events,
}
use ismp_substrate.Rpc.Events.{query_events_listed}
use ismp_substrate.Tests.Chain.{genesis}
use ismp_substrate.Tests.Listing.{serving}

-- the hash of the block of a number
abbrev hash_of : ℕ → H256
hash_of n = replicate 32 n

-- a client whose block has one event, of the consensus client that its hash spells
abbrev two_blocks : Client
two_blocks = record (serving genesis) {
  block_hash = λ n. ok (some (hash_of n));
  api = record (serving genesis).api {
    block_events = λ at. ok (Event.challenge_period_started at [] ∷ []);
  };
}

abbrev asked_blocks : List BlockNumberOrHash
asked_blocks = BlockNumberOrHash.number 1 ∷ BlockNumberOrHash.number 2 ∷ []

abbrev answer : Listing two_blocks
answer =
    (2 ∷ [], RpcEvent.challenge_period_started (hash_of 2) [] ∷ [])
    ∷ (1 ∷ [], RpcEvent.challenge_period_started (hash_of 1) [] ∷ [])
    ∷ []

answered : query_events two_blocks asked_blocks ≡ ok answer
unfolding query_events query_loop find_block query_block collect_events collect_event full_events
    display StorageMap.insert StorageMap.remove Bytes-discrete ℕ_discrete get_requests get_responses
answered = refl

apart :
    (j : ℕ) (b : BlockNumberOrHash)
    → 0 < j
    → get_elem? asked_blocks j ≡ some b
    → display two_blocks b ≢ display two_blocks (BlockNumberOrHash.number 1)
unfolding display
apart zero b later here = absurd (omega (arith, later))
apart (suc zero) b later here = λ same. ground (arith, here, same)
apart (suc (suc j)) b later here = absurd (ground (arith, here))

first_block_listed :
    (at : H256) × (found : List RpcEvent) × (find_block two_blocks (BlockNumberOrHash.number 1)
      ≡ ok at)
    × (query_block two_blocks at ≡ ok found)
    × (StorageMap.get answer (display two_blocks (BlockNumberOrHash.number 1)) ≡ some found)
first_block_listed =
    query_events_listed two_blocks asked_blocks answer 0 (BlockNumberOrHash.number 1) answered refl
      apart
