-- ===== src/Host/Laws.antt =====
-- What the host's writes promise its reads: each read sees the last write to its key, and writes to
-- other keys leave it alone.
use ismp_substrate.Base.{◌≡◌, true, some, ok, err, arith, leb, ite, if◌then◌else◌}
use ismp_substrate.StorageMap.{get-insert, get-remove}
use ismp_substrate.Ismp.{
  H256, text, bytes_key, Request, ConsensusStateId, StateMachineHeight, state_machine_id_key,
  IsmpError,
}
use ismp_substrate.Pallet.{State, Runtime, Receipt}
use ismp_substrate.Host.{
  freeze_state_machine, is_state_machine_frozen, store_request_receipt, request_receipt,
  delete_request_commitment, request_commitment, freeze_consensus_client,
  is_consensus_client_frozen,
}

-- A frozen state machine refuses exactly the heights from the one it is frozen at; a machine with
-- another identifier answers as before.
pub is_state_machine_frozen-freeze :
    (at machine : StateMachineHeight) (s : State)
    → is_state_machine_frozen machine (freeze_state_machine at s)
      ≡ ite
          (state_machine_id_key.dec at.id machine.id)
          (if leb at.height machine.height
            then err (IsmpError.frozen_state_machine machine)
            else ok tt)
          (is_state_machine_frozen machine s)
unfolding is_state_machine_frozen freeze_state_machine
is_state_machine_frozen-freeze at machine s =
    ground (arith, get-insert s.frozen_heights at.id machine.id at.height)

-- A frozen consensus client is refused from then on, and the others answer as before.
pub is_consensus_client_frozen-freeze :
    (frozen client : ConsensusStateId) (s : State)
    → is_consensus_client_frozen client (freeze_consensus_client frozen s)
      ≡ ite
          (bytes_key.dec frozen client)
          (err (IsmpError.frozen_consensus_client client))
          (is_consensus_client_frozen client s)
unfolding is_consensus_client_frozen freeze_consensus_client
is_consensus_client_frozen-freeze frozen client s =
    ground (arith, get-insert s.frozen_consensus_clients frozen client true)

module _ (r : Runtime) where
  abbrev hash_of_request : Request → H256
  hash_of_request q = r.ismp.hash_request r.keccak_256 q

  -- After a request's receipt is stored the host has it, and has the receipt of another request
  -- exactly if it had it, or the two requests have one hash.
  pub request_receipt-store :
      (req other : Request) (s : State)
      → request_receipt r other (store_request_receipt r req s)
        ≡ ite
            (bytes_key.dec (hash_of_request req) (hash_of_request other))
            (some tt)
            (request_receipt r other s)
  unfolding request_receipt store_request_receipt
  request_receipt-store req other s = ground (
    arith,
    get-insert s.request_receipts (hash_of_request req) (hash_of_request other) Receipt.ok,
  )

  -- After a request's commitment is deleted, looking it up is an error; every commitment with
  -- another hash is found or missing as before.
  pub request_commitment-delete :
      (req : Request) (k : H256) (s : State)
      → request_commitment k (delete_request_commitment r req s)
        ≡ ite
            (bytes_key.dec (hash_of_request req) k)
            (err (IsmpError.implementation_specific (text "Request commitment not found")))
            (request_commitment k s)
  unfolding request_commitment delete_request_commitment
  request_commitment-delete req k s =
      ground (arith, get-remove s.request_commitments (hash_of_request req) k)
