-- ===== src/Pallet/Getters.antt =====
-- The getters of pallet-ismp/src/lib.rs behind the runtime API.
use ismp_substrate.Base.{ℕ, Option, some}
use ismp_substrate.StorageMap
use ismp_substrate.Ismp.{
  Bytes, Duration, as_secs, ConsensusClientId, StateMachineId, bytes_key, state_machine_id_key,
}
use ismp_substrate.Pallet.Store.{State, get_or}

-- Return the scale encoded consensus state
unfoldable pub get_consensus_state : ConsensusClientId → State → Option Bytes
get_consensus_state id s = StorageMap.get s.consensus_states id

-- Return the timestamp this client was last updated in seconds
unfoldable pub get_consensus_update_time : ConsensusClientId → State → Option ℕ
get_consensus_update_time id s = StorageMap.get s.consensus_client_update_time id

-- Return the challenge period; it stands under the id of a consensus state, which has the same
-- type.
unfoldable pub get_challenge_period : ConsensusClientId → State → Option ℕ
get_challenge_period id s = StorageMap.get s.challenge_period id

-- Return latest timestamp on chain, at the time that the runtime's clock shows
unfoldable pub get_timestamp : Duration → Option ℕ
get_timestamp now = some (as_secs now)

-- Return the latest height of the state machine: there is always an answer.
unfoldable pub get_latest_state_machine_height : StateMachineId → State → Option ℕ
get_latest_state_machine_height id s = some (get_or s.latest_state_machine_height id 0)
