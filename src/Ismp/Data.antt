-- ===== src/Ismp/Data.antt =====
-- Byte strings, hashes and durations. A Rust `String` is its UTF-8 bytes, so `as_bytes` is the
-- identity, and the texts that the source writes are ASCII.
use Prim.Native.Char.{code}
use ismp_substrate.Base.{ℕ, ◌/◌, ◌%◌, ◌*◌, String, List, [], ◌∷◌, ℕ_discrete}
use ismp_substrate.StorageMap.{Key}

-- `Vec<u8>`
abbrev pub Bytes : Type 0
Bytes = List ℕ

-- A 32-byte hash
abbrev pub H256 : Type 0
H256 = Bytes

-- the bytes of a literal
abbrev pub text : String → Bytes
text String.[] = []
text (String.◌∷◌ c s) = code c ∷ text s

unfoldable pub Bytes-discrete : Discrete Bytes
Bytes-discrete = hlevel ℕ_discrete

instance abbrev pub bytes_key : Key Bytes
bytes_key = record { dec = Bytes-discrete }

-- `core::time::Duration`
pub record Duration : Type 0 where
  pub secs : ℕ
  pub nanos : ℕ

abbrev pub from_secs : ℕ → Duration
from_secs n = record { secs = n; nanos = 0 }

abbrev pub from_millis : ℕ → Duration
from_millis n = record { secs = n / 1000; nanos = n % 1000 * 1000000 }

abbrev pub as_secs : Duration → ℕ
as_secs d = d.secs
