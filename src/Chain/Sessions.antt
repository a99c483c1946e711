-- ===== src/Chain/Sessions.antt =====
-- Everything that a chain does, in any order: what modules dispatch, batches of incoming messages,
-- the creation of clients, the administrator's calls and the ends of blocks.
use ismp_substrate.Base.{
  ℕ, suc, ◌+◌, ◌*◌, ◌<◌, ◌≡◌, sym, ◌∙◌, true, false, Bool-cases, inl, inr, some, Option, Result, ok,
  err, List, [], ◌++◌, length, length-append, u64_mod, arith,
}
use mathlib.Core.List.{append-nil}
use ismp_substrate.Ismp.{Message, CreateConsensusState}
use ismp_substrate.Primitives.Leaves.{Leaf}
use ismp_substrate.Pallet.{State, Runtime, IsScale}
use ismp_substrate.Mmr.Push.{AppendsLeaf}
use ismp_substrate.Leaves.Log.{Represents}
use ismp_substrate.Messages.{PostDispatchInfo, handle_messages}
use ismp_substrate.Messages.Heights.{InKind}
use ismp_substrate.Weights.Providers.{Weights}
use ismp_substrate.Calls.{Outside, DispatchError, handle, create_consensus_client, created}
use ismp_substrate.Chain.{Step}
use ismp_substrate.Chain.Ranges.{created-SameRange, SameRange-Represents}
use ismp_substrate.Chain.Log.{RepresentsMore}
use ismp_substrate.Chain.Incoming.{Effect, Effect-Represents, RepresentsMore-then, one_more}
use ismp_substrate.Chain.Batches.{Acts, total, handle_messages-Represents}

module _ (r : Runtime) {Origin : Type 0} (o : Outside Origin) (limit : Message → ℕ) where
  -- What a chain does, with a bound on what it dispatches.
  pub data Session (genesis : State) : ℕ → State → Type 0 where
    start : Session genesis 0 genesis
    step : {n : ℕ} {s t : State} → Session genesis n s → Step r o s t → Session genesis (suc n) t
    batch :
        {n : ℕ} {s t : State} {result : Result DispatchError PostDispatchInfo} (origin : Origin)
        (w : Weights) (ms : List Message)
        → Session genesis n s
        → handle o origin r w ms s ≡ some (result, t)
        → Session genesis (n + total limit ms) t
    create :
        {n : ℕ} {s : State} (origin : Origin) (m : CreateConsensusState)
        → Session genesis n s
        → Session genesis n (create_consensus_client o origin m s).1

  -- A signed batch is handed on.
  pub handle_signed :
      (origin : Origin) (w : Weights) (ms : List Message) (s t : State) (info : PostDispatchInfo)
      → o.is_signed origin ≡ true
      → handle_messages r o.handle_incoming_message w ms s ≡ some (info, t)
      → handle o origin r w ms s ≡ some (ok info, t)
  unfolding handle
  handle_signed origin w ms s t info signed handled = ground (arith, signed, handled)

  -- The creation of a client by the administrator, and by another origin.
  pub create_admin :
      (origin : Origin) (m : CreateConsensusState) (s : State)
      → o.is_admin origin ≡ true
      → create_consensus_client o origin m s
        ≡ created o origin (o.create_client m s).0 (o.create_client m s).1
  unfolding create_consensus_client
  create_admin origin m s admin = ground (arith, admin)

  pub create_refused :
      (origin : Origin) (m : CreateConsensusState) (s : State)
      → o.is_admin origin ≡ false
      → create_consensus_client o origin m s ≡ (err DispatchError.bad_origin, s)
  unfolding create_consensus_client
  create_refused origin m s other = ground (arith, other)

  -- What the `ismp` crate is documented to do for the pallet: its handler answers each message in
  -- its own kind and acts through the host and the dispatcher, and clients are created through the
  -- host.
  pub record Behaves : Type 0 where
    pub in_kind : InKind o.handle_incoming_message
    pub acts : Acts r limit o.handle_incoming_message
    pub creates : (m : CreateConsensusState) (s : State) → Effect r s 0 (o.create_client m s).1

  module _ (lib : AppendsLeaf r.mmr_lib) (scale : IsScale r.codec) (behaves : Behaves) where
    pub create-Represents :
        (origin : Origin) (m : CreateConsensusState) (s : State) (log : List Leaf)
        → Represents r s log
        → 2 * (length log + 1) < u64_mod
        → RepresentsMore r (create_consensus_client o origin m s).1 log 0
    create-Represents origin m s log h small = elim (Bool-cases (o.is_admin origin)) [
      | inl admin ↦
          let (more, h', few) =
            Effect-Represents r o lib scale (behaves.creates m s) log h (omega arith) in
          rw (create_admin origin m s admin) (
            more,
            SameRange-Represents r
                (created-SameRange o origin (o.create_client m s).0 (o.create_client m s).1) h',
            few,
          )
      | inr other ↦ rw (create_refused origin m s other) ([], rw (append-nil log) h, omega arith)
    ]

    -- a call that returns, whatever its results are called
    same_call :
        (a b : Result DispatchError PostDispatchInfo) (t u : State) (log : List Leaf) (n : ℕ)
        → ◌≡◌ {A = Option (Result DispatchError PostDispatchInfo × State)}
            (some (a, t))
            (some (b, u))
        → RepresentsMore r t log n
        → RepresentsMore r u log n
    same_call a b t u log n e h = let same : u ≡ t = cc in rw same h

    pub handle-Represents :
        (origin : Origin) (w : Weights) (ms : List Message) (s t : State)
        (result : Result DispatchError PostDispatchInfo) (log : List Leaf)
        → Represents r s log
        → 2 * (length log + total limit ms + 1) < u64_mod
        → handle o origin r w ms s ≡ some (result, t)
        → RepresentsMore r t log (total limit ms)
    handle-Represents origin w ms s t result log h small run =
        elim (Bool-cases (o.is_signed origin)) [
          | inl signed ↦
              let (info, u, handled, more) =
                handle_messages-Represents r o lib scale limit o.handle_incoming_message
                  behaves.acts behaves.in_kind w ms s log h small in
              let done = handle_signed origin w ms s u info signed handled in
              same_call (ok info) result u t log (total limit ms) (sym done ∙ run) more
          | inr other ↦
              let refused : handle o origin r w ms s ≡ some (err DispatchError.bad_origin, s) =
                unfold handle in ground (arith, other) in
              same_call (err DispatchError.bad_origin) result s t log (total limit ms)
                (sym refused ∙ run) ([], rw (append-nil log) h, omega arith)
        ]

    -- Over libraries that behave as documented, with a limit on what a module dispatches for each
    -- incoming message: from a state that represents a log, with twice the leaves and one more than
    -- n below 2^64, everything that a chain does, with at most n steps and dispatches for messages
    -- together, leaves a state that represents that log with at most n more leaves at its end; so
    -- no leaf is ever lost, changed or moved.
    pub Session-Represents :
        {s t : State} {n : ℕ}
        → Session s n t
        → (log : List Leaf) → Represents r s log
        → 2 * (length log + n + 1) < u64_mod
        → RepresentsMore r t log n
    Session-Represents Session.start log h small = ([], rw (append-nil log) h, omega arith)
    Session-Represents (Session.step {n} {s} {t} before next) log h small =
        one_more r o lib scale s t log n (Session-Represents before log h (omega arith)) next small
    Session-Represents (Session.batch {n} {s} {t} {result} origin w ms before run) log h small =
        let (more, h', few) = Session-Represents before log h (omega arith) in
        RepresentsMore-then r o lib scale t log more n (total limit ms) few (
          handle-Represents origin w ms s t result (log ++ more) h'
            (omega (arith, few, length-append {0} log more)) run)
    Session-Represents (Session.create {n} {s} origin m before) log h small =
        let (more, h', few) = Session-Represents before log h (omega arith) in
        let same : n + 0 ≡ n = omega arith in
        rw (sym same) (
          RepresentsMore-then r o lib scale (create_consensus_client o origin m s).1 log more n 0
            few
            (create-Represents origin m s (log ++ more) h'
              (omega (arith, few, length-append {0} log more))))
