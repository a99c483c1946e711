-- ===== src/Leaves/Keys.antt =====
-- The offchain keys of pallet-ismp/src/lib.rs for the index of a leaf.
use ismp_substrate.Base.{ℕ}
use ismp_substrate.Ismp.{Bytes, StateMachine, text}
use ismp_substrate.Pallet.{Runtime}

abbrev pub requests_label : Bytes
requests_label = text "requests_leaf_indices"

abbrev pub responses_label : Bytes
responses_label = text "responses_leaf_indices"

module _ (r : Runtime) where
  unfoldable pub request_leaf_index_offchain_key : StateMachine → StateMachine → ℕ → Bytes
  request_leaf_index_offchain_key source dest nonce =
      r.codec.encode_index_key r.indexing_prefix requests_label source dest nonce

  unfoldable pub response_leaf_index_offchain_key : StateMachine → StateMachine → ℕ → Bytes
  response_leaf_index_offchain_key source dest nonce =
      r.codec.encode_index_key r.indexing_prefix responses_label source dest nonce
