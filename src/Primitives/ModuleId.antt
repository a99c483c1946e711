-- ===== src/Primitives/ModuleId.antt =====
-- `ModuleId` of pallet-ismp/src/primitives.rs: module identifiers and their raw bytes.
use ismp_substrate.Base.{◌≡◌, length, Result, ok, err, if◌then◌else◌, ◌==◌, arith}
use ismp_substrate.Ismp.{Bytes, text}

-- The payloads are fixed arrays of 8, 32 and 20 bytes; `IsWellSized` states the sizes.
pub data ModuleId : Type 0 where
  pallet : Bytes → ModuleId
  contract : Bytes → ModuleId
  evm : Bytes → ModuleId

-- `to_bytes`
unfoldable pub to_bytes : ModuleId → Bytes
to_bytes (ModuleId.pallet pallet_id) = pallet_id
to_bytes (ModuleId.contract account_id) = account_id
to_bytes (ModuleId.evm account_id) = account_id

-- `from_bytes`
unfoldable pub from_bytes : Bytes → Result Bytes ModuleId
from_bytes bytes =
    if length bytes == 8
    then ok (ModuleId.pallet bytes)
    else if length bytes == 32
    then ok (ModuleId.contract bytes)
    else if length bytes == 20
    then ok (ModuleId.evm bytes)
    else err (text "Unknown Module ID format")

abbrev pub IsWellSized : ModuleId → Type 0
IsWellSized (ModuleId.pallet b) = length b ≡ 8
IsWellSized (ModuleId.contract b) = length b ≡ 32
IsWellSized (ModuleId.evm b) = length b ≡ 20

-- Every module identifier whose payload has its fixed size is read back from its raw bytes.
pub from_bytes-to_bytes : (m : ModuleId) → IsWellSized m → from_bytes (to_bytes m) ≡ ok m
unfolding from_bytes to_bytes
from_bytes-to_bytes (ModuleId.pallet b) h = ground arith
from_bytes-to_bytes (ModuleId.contract b) h = ground arith
from_bytes-to_bytes (ModuleId.evm b) h = ground arith

-- Bytes that are accepted have one of the three lengths, and the identifier that comes of them has
-- its fixed size and is written as the same bytes.
pub to_bytes-from_bytes :
    (b : Bytes) (m : ModuleId) → from_bytes b ≡ ok m → (to_bytes m ≡ b) × IsWellSized m
unfolding from_bytes to_bytes
to_bytes-from_bytes b (ModuleId.pallet c) h = ground arith
to_bytes-from_bytes b (ModuleId.contract c) h = ground arith
to_bytes-from_bytes b (ModuleId.evm c) h = ground arith
