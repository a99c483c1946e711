-- ===== src/Rpc/Requests.antt =====
-- The queries of pallet-ismp/rpc/src/lib.rs for requests of the log, any number at once.
use ismp_substrate.Base.{
  ℕ, ◌+◌, ◌*◌, ◌<◌, ◌≡◌, refl, ◌∙◌, ap, some, List, [], ◌∷◌, map, length, ok, u64_mod, arith,
}
use ismp_substrate.Ismp.{H256, Message, Request}
use ismp_substrate.Ismp.Library.{ReadsRequests}
use ismp_substrate.Primitives.Leaves.{Leaf, DataOrHash}
use ismp_substrate.Pallet.{State, Runtime, IsScale}
use ismp_substrate.Mmr.Push.{AppendsLeaf}
use ismp_substrate.Mmr.Storage.{offchain_get_elem}
use ismp_substrate.Mmr.Storage.Append.{node_hash}
use ismp_substrate.Mmr.Operations.{new, merge_nodes}
use ismp_substrate.Leaves.{filter_map, get_request, get_request_leaf_indices, get_requests}
use ismp_substrate.Leaves.Log.{Represents}
use ismp_substrate.Leaves.Index.{Indexed}
use ismp_substrate.Leaves.Serving.{
  Picks, leaf_position, read_leaf-Represents, generate_proof-Represents,
}
use ismp_substrate.Handlers.{query_of}
use ismp_substrate.Calls.{Outside}
use ismp_substrate.Chain.Sessions.{Session, Behaves}
use ismp_substrate.Chain.Indexed.{Session-Tracks}
use ismp_substrate.Chain.Past.{seen_from, Session-seen_from}
use ismp_substrate.Rpc.{Client, query_requests}
use ismp_substrate.Rpc.Serves.{Serves}
use ismp_substrate.Rpc.Queries.{block_at, encoded_proof, query_requests_mmr_proof}

module _ (r : Runtime) (client : Client) (s : State) (log : List Leaf) (h : Represents r s log)
    (index : Indexed r s log) where
  indices_found :
      (is : List ℕ) (reqs : List Request)
      → Picks log is (map Leaf.request reqs)
      → get_request_leaf_indices r (map (query_of r) reqs) s ≡ map leaf_position is
  unfolding get_request_leaf_indices filter_map
  indices_found [] [] picks = refl
  indices_found [] (req ∷ reqs) picks = elim picks [ ]
  indices_found (i ∷ is) [] picks = elim picks [ ]
  indices_found (i ∷ is) (req ∷ reqs) picks =
      ground (arith, index.found i req picks.0, indices_found is reqs picks.1)

  requests_read :
      (is : List ℕ) (reqs : List Request)
      → Picks log is (map Leaf.request reqs)
      → get_requests r (map leaf_position is) s ≡ reqs
  unfolding get_requests get_request filter_map
  requests_read [] [] picks = refl
  requests_read [] (req ∷ reqs) picks = elim picks [ ]
  requests_read (i ∷ is) [] picks = elim picks [ ]
  requests_read (i ∷ is) (req ∷ reqs) picks = ground (
    arith,
    read_leaf-Represents r s log i (Leaf.request req) h picks.0,
    requests_read is reqs picks.1,
  )

  query_requests-Indexed :
      (is : List ℕ) (reqs : List Request)
      → Picks log is (map Leaf.request reqs)
      → Serves r client client.best_hash s
      → query_requests client (map (query_of r) reqs) ≡ ok reqs
  unfolding query_requests
  query_requests-Indexed is reqs picks serves =
      let indices =
        serves.request_indices (map (query_of r) reqs) ∙ ap ok (indices_found is reqs picks) in
      let full = serves.requests (map leaf_position is) ∙ ap ok (requests_read is reqs picks) in
      ground (arith, indices, full)

  query_requests_mmr_proof-Indexed :
      (at : H256) (is : List ℕ) (reqs : List Request) (height : ℕ) (items : List DataOrHash)
      → Picks log is (map Leaf.request reqs)
      → client.block_hash height ≡ ok (some at)
      → Serves r client at s
      → r.mmr_lib.gen_proof
          (offchain_get_elem r s)
          (merge_nodes r)
          (new s.number_of_leaves).size
          (map leaf_position is)
        ≡ some items
      → query_requests_mmr_proof client height (map (query_of r) reqs)
        ≡ ok (record {
          proof = client.encode_proof (record {
            leaf_indices = map leaf_position is;
            leaf_count = length log;
            items = map (node_hash r) items;
          });
          leaves = some (client.encode_leaves (map Leaf.request reqs));
          height = height;
        })
  unfolding query_requests_mmr_proof block_at encoded_proof
  query_requests_mmr_proof-Indexed at is reqs height items picks known serves proved =
      let indices =
        serves.request_indices (map (query_of r) reqs) ∙ ap ok (indices_found is reqs picks) in
      let made =
        generate_proof-Represents r s log is (map Leaf.request reqs) items h picks proved in
      ground (arith, known, indices, serves.proofs (map leaf_position is), made)

module _ (r : Runtime) {Origin : Type 0} (o : Outside Origin) (lib : AppendsLeaf r.mmr_lib)
    (scale : IsScale r.codec) (reads : ReadsRequests r.ismp) (limit : Message → ℕ)
    (behaves : Behaves r o limit) (client : Client) {genesis t : State} {n : ℕ} (log : List Leaf)
    (is : List ℕ) (reqs : List Request) where
  -- Over libraries that behave as documented, with a limit on what a module dispatches for each
  -- incoming message: from a genesis that represents the empty log, after everything that a chain
  -- does, with at most n steps and dispatches for messages together, with twice one more than n,
  -- and the first nonce with n, below 2^64, where the client answers for the best block from the
  -- state: asked for any number of requests of the log by their chains and nonces,
  -- `query_requests` answers these requests in full, in the order asked.
  pub query_requests-served :
      Session r o limit genesis n t
      → Represents r genesis []
      → Represents r t log
      → Picks log is (map Leaf.request reqs)
      → Serves r client client.best_hash t
      → 2 * (n + 1) < u64_mod
      → genesis.nonce + n < u64_mod
      → query_requests client (map (query_of r) reqs) ≡ ok reqs
  query_requests-served session empty kept picks serves small room =
      query_requests-Indexed r client t log kept
        (Session-Tracks r o lib scale reads limit behaves log session empty kept small room) is reqs
        picks serves

  -- Over libraries that behave as documented, with a limit on what a module dispatches for each
  -- incoming message: from a genesis that represents the empty log, a chain comes to a block and
  -- from there to the current state, with at most n steps and dispatches for messages before the
  -- block and k after it, with twice one more than n and k, and the first nonce with n and k, below
  -- 2^64. Where the client answers for the height of the block from the storage of the block and
  -- the current offchain database, and the library proves, from that database and for the number of
  -- leaves at the block, the nodes at the positions of some requests of the block's log: asked for
  -- these requests by their chains and nonces, `query_requests_mmr_proof` answers a proof with
  -- exactly these requests as leaves, in the order asked, their positions, the length of the
  -- block's log, and the hashes of the library's nodes.
  pub query_requests_mmr_proof-log :
      {now : State} {k : ℕ} (at : H256) (height : ℕ) (items : List DataOrHash)
      → Session r o limit genesis n t
      → Session r o limit t k now
      → Represents r genesis []
      → Represents r t log
      → Picks log is (map Leaf.request reqs)
      → client.block_hash height ≡ ok (some at)
      → Serves r client at (seen_from now t)
      → r.mmr_lib.gen_proof
          (offchain_get_elem r now)
          (merge_nodes r)
          (new t.number_of_leaves).size
          (map leaf_position is)
        ≡ some items
      → 2 * (n + k + 1) < u64_mod
      → genesis.nonce + n + k < u64_mod
      → query_requests_mmr_proof client height (map (query_of r) reqs)
        ≡ ok (record {
          proof = client.encode_proof (record {
            leaf_indices = map leaf_position is;
            leaf_count = length log;
            items = map (node_hash r) items;
          });
          leaves = some (client.encode_leaves (map Leaf.request reqs));
          height = height;
        })
  unfolding offchain_get_elem
  query_requests_mmr_proof-log {now} at height items first rest empty kept picks known serves proved
        small room =
      let seen =
        Session-seen_from r o lib scale reads limit behaves log first rest empty kept small room in
      query_requests_mmr_proof-Indexed r client (seen_from now t) log seen.kept seen.index at is
        reqs height items picks known serves proved
