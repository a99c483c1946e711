-- ===== src/Tests/Transfers.antt =====
-- The theorems on the demo module, over a concrete ledger.
use ismp_substrate.Base.{
  ℕ, ◌+◌, ◌-◌, ◌≤◌, ◌≡◌, ◌≢◌, refl, true, ◌&&◌, some, [], ◌∷◌, Result, ok, err, leb, if◌then◌else◌,
  arith, ℕ_discrete,
}
use ismp_substrate.StorageMap
use ismp_substrate.StorageMap.{StorageMap, get-insert}
use ismp_substrate.Ismp.{Bytes, Bytes-discrete, text, bytes_key, StateMachine, Request}
use ismp_substrate.Pallet.{get_or}
use ismp_substrate.Demo.{transfer, destination}
use ismp_substrate.Demo.Data.{AccountId, Payload, TransferParams, Outer, MovesFunds, Chain}
use ismp_substrate.Demo.Bridge.{Issues}
use ismp_substrate.Demo.Callbacks.{on_timeout}
use ismp_substrate.Demo.Transfers.{sent, transfer-on_timeout}
use ismp_substrate.Tests.Serial.{Serial, serial_nat, serial_pair, serial_iso, serial_bytes}
use ismp_substrate.Tests.Scale.{decode_with, decode_with-put}
use ismp_substrate.Tests.Ranges.{mmr_lib-AppendsLeaf}
use ismp_substrate.Tests.Chain.{runtime, genesis, genesis-HoldsPeaks}

-- balances, and what is issued
pub record Ledger : Type 0 where
  pub accounts : StorageMap Bytes ℕ
  pub issuance : ℕ

abbrev pub balance : Ledger → AccountId → ℕ
balance l who = get_or l.accounts who 0

-- what a burn leaves of a balance: nothing under the minimum balance of 5
abbrev left : ℕ → ℕ → ℕ
left before amount = if leb 5 (before - amount) then before - amount else 0

abbrev pub burn : AccountId → ℕ → Ledger → Result Bytes Unit × Ledger
burn who amount l =
    if leb amount (balance l who) && leb (balance l who) l.issuance
    then (
      ok tt,
      record {
        accounts = StorageMap.insert l.accounts who (left (balance l who) amount);
        issuance = l.issuance - (balance l who - left (balance l who) amount);
      },
    )
    else (err (text "FundsUnavailable"), l)

abbrev pub mint : AccountId → ℕ → Ledger → Result Bytes Unit × Ledger
mint who amount l = (
  ok tt,
  record {
    accounts = StorageMap.insert l.accounts who (balance l who + amount);
    issuance = l.issuance + amount;
  },
)

abbrev serial_payload : Serial Payload
serial_payload =
    serial_iso {A = Bytes × (Bytes × ℕ)}
      (serial_pair serial_bytes (serial_pair serial_bytes serial_nat))
      (λ (to, (from, amount)). record { to = to; from = from; amount = amount })
      (λ p. (p.to, (p.from, p.amount))) (λ p. refl)

abbrev pub outer : Outer Ledger
outer = record {
  balance = balance;
  burn_from = burn;
  mint_into = mint;
  minimum_balance = 5;
  encode_payload = λ p. serial_payload.put p [];
  decode_payload = decode_with serial_payload;
  debug_chain = λ s. text "chain";
}

left_bounds :
    (before amount : ℕ)
    → leb amount before ≡ true
    → (left before amount + amount ≤ before) × (before ≤ left before amount + amount + 5)
left_bounds before amount enough = (ground (arith, enough), ground (arith, enough))

burnt_lem :
    (who : AccountId) (amount : ℕ) (l l' : Ledger)
    → burn who amount l ≡ (ok tt, l')
    → (leb amount (balance l who) ≡ true)
      × (leb (balance l who) l.issuance ≡ true)
      × (l'.accounts ≡ StorageMap.insert l.accounts who (left (balance l who) amount))
      × (l'.issuance ≡ l.issuance - (balance l who - left (balance l who) amount))
burnt_lem who amount l l' e = (ground arith, ground arith, ground arith, ground arith)

minted_lem :
    (who : AccountId) (amount : ℕ) (l l' : Ledger)
    → mint who amount l ≡ (ok tt, l')
    → (l'.accounts ≡ StorageMap.insert l.accounts who (balance l who + amount))
      × (l'.issuance ≡ l.issuance + amount)
minted_lem who amount l l' e = (ground arith, ground arith)

pub outer-MovesFunds : MovesFunds outer
outer-MovesFunds = record {
  burned = λ who amount l l' e.
      let (enough, _, same, _) = burnt_lem who amount l l' e in
      let (least, most) = left_bounds (balance l who) amount enough in
      let now : balance l' who ≡ left (balance l who) amount =
        ground (arith, same, get-insert l.accounts who who (left (balance l who) amount)) in
      (omega (arith, now, least), omega (arith, now, most));
  minted = λ who amount l l' e.
      let (same, _) = minted_lem who amount l l' e in
      (
        ground (arith, same, get-insert l.accounts who who (balance l who + amount)),
        λ k other.
            ground (arith, same, other, get-insert l.accounts who k (balance l who + amount)),
      );
  payload_back = decode_with-put serial_payload;
}

pub outer-Issues : Issues outer
outer-Issues = record {
  total = λ l. l.issuance;
  burned = λ who amount l l' e.
      let (enough, covered, _, same) = burnt_lem who amount l l' e in
      let (least, most) = left_bounds (balance l who) amount enough in
      let issued : balance l who ≤ l.issuance = ground (arith, covered) in
      (omega (arith, same, least, issued), omega (arith, same, most, issued));
  minted = λ who amount l l' e. (minted_lem who amount l l' e).1;
}

abbrev pub alice : AccountId
alice = text "alice"

abbrev pub bob : AccountId
bob = text "bob"

abbrev pub payment : TransferParams
payment = record { to = bob; amount = 30; para_id = 2001; timeout = 60 }

abbrev pub here : Chain Ledger
here = record {
  state = genesis;
  ledger = record { accounts = (alice, 33) ∷ []; issuance = 33 };
  events = [];
}

abbrev pub there : Chain Ledger
there = record { state = genesis; ledger = record { accounts = []; issuance = 0 }; events = [] }

abbrev pub paid : Ledger
paid = (burn alice 30 here.ledger).1

pub alice_pays : burn alice 30 here.ledger ≡ (ok tt, paid)
unfolding StorageMap.get Bytes-discrete ℕ_discrete
alice_pays = refl

payment_timed_out :
    (d' : Chain Ledger) × (d'' : Chain Ledger) × (transfer runtime outer (some alice) payment here
      ≡ some (ok tt, d'))
    × (on_timeout outer runtime
          (Request.post (
            sent runtime mmr_lib-AppendsLeaf outer outer-MovesFunds alice payment
              (StateMachine.kusama 2001)
              here))
          d'
        ≡ (ok tt, d''))
    × (outer.balance d''.ledger alice ≡ outer.balance d'.ledger alice + 30)
    × ((k : AccountId) → k ≢ alice → outer.balance d''.ledger k ≡ outer.balance d'.ledger k)
    × (outer.balance d''.ledger alice ≤ outer.balance here.ledger alice)
    × (outer.balance here.ledger alice ≤ outer.balance d''.ledger alice + 5)
unfolding StorageMap.contains_key StorageMap.get destination
payment_timed_out =
    transfer-on_timeout runtime mmr_lib-AppendsLeaf outer outer-MovesFunds alice payment
      (StateMachine.kusama 2001) here paid (mint alice 30 paid).1 genesis-HoldsPeaks (omega arith)
      refl refl alice_pays refl
