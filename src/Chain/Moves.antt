-- ===== src/Chain/Moves.antt =====
-- Everything that a chain does, as a sequence of dispatches with changes between them that leave the
-- range, the offchain database, the nonce and the commitments of responses alone: the normal form
-- of a session.
use ismp_substrate.Base.{
  ℕ, suc, ◌+◌, ◌≤◌, ◌≡◌, refl, Bool-cases, Option-cases, inl, inr, some, Result, List, [], ◌∷◌,
  arith,
}
use ismp_substrate.Ismp.{Message, DispatchRequest, PostResponse, IsmpError, CreateConsensusState}
use ismp_substrate.Pallet.{State, Runtime}
use ismp_substrate.Handlers.Dispatcher.{dispatch_request, dispatch_response}
use ismp_substrate.Messages.{
  Handler, Progress, PostDispatchInfo, handle_message, handle_loop, handle_messages, report,
  cleared,
}
use ismp_substrate.Messages.Ranges.{on_result-SameRange, report-SameRange}
use ismp_substrate.Weights.Providers.{Weights}
use ismp_substrate.Calls.{Outside, DispatchError, handle, create_consensus_client}
use ismp_substrate.Chain.{Step}
use ismp_substrate.Chain.Ranges.{
  SameRange, created-SameRange, on_finalize-SameRange, update_consensus_state-SameRange,
  set_config-SameRange,
}
use ismp_substrate.Chain.Incoming.{Effect, HostWrite-SameRange}
use ismp_substrate.Chain.Batches.{Acts, total}
use ismp_substrate.Chain.Sessions.{Session, Behaves, create_admin, create_refused}

module _ (r : Runtime) where
  -- dispatches, at most as many as the number says, with other changes between them
  pub data Moves (s : State) : ℕ → State → Type 0 where
    start : {n : ℕ} → Moves s n s
    quiet : {n m : ℕ} {t u : State} → Moves s n t → SameRange u t → n ≤ m → Moves s m u
    sends :
        {n m : ℕ} {t u : State} {result : Result IsmpError Unit} (d : DispatchRequest)
        → Moves s n t
        → dispatch_request r d t ≡ some (result, u)
        → suc n ≤ m
        → Moves s m u
    answers :
        {n m : ℕ} {t u : State} {result : Result IsmpError Unit} (res : PostResponse)
        → Moves s n t
        → dispatch_response r res t ≡ some (result, u)
        → suc n ≤ m
        → Moves s m u

  pub Moves-then :
      {s t u : State} {n k : ℕ} → Moves s n t → Moves t k u → (m : ℕ) → n + k ≤ m → Moves s m u
  Moves-then {s} first Moves.start m few =
      Moves.quiet first (refl, refl, refl, refl, refl) (omega arith)
  Moves-then {n = n} first (Moves.quiet {n = k} rest same le) m few =
      Moves.quiet (Moves-then first rest (n + k) (omega arith)) same (omega arith)
  Moves-then {n = n} first (Moves.sends {n = k} d rest run le) m few =
      Moves.sends d (Moves-then first rest (n + k) (omega arith)) run (omega arith)
  Moves-then {n = n} first (Moves.answers {n = k} res rest run le) m few =
      Moves.answers res (Moves-then first rest (n + k) (omega arith)) run (omega arith)

  Effect-Moves : {s t : State} {n : ℕ} → Effect r s n t → Moves s n t
  Effect-Moves Effect.nothing = Moves.start
  Effect-Moves (Effect.write before w) =
      Moves.quiet (Effect-Moves before) (HostWrite-SameRange r w) (omega arith)
  Effect-Moves (Effect.sends {n} d before run) =
      Moves.sends d (Effect-Moves before) run (omega arith)
  Effect-Moves (Effect.answers {n} res before run) =
      Moves.answers res (Effect-Moves before) run (omega arith)

  module _ {Origin : Type 0} (o : Outside Origin) where
    Step-Moves : {s t : State} → Step r o s t → Moves s 1 t
    Step-Moves (Step.request d run) = Moves.sends d (Moves.start {n = 0}) run (omega arith)
    Step-Moves (Step.response res run) = Moves.answers res (Moves.start {n = 0}) run (omega arith)
    Step-Moves {s} Step.block_end =
        Moves.quiet (Moves.start {n = 0}) (on_finalize-SameRange r s) (omega arith)
    Step-Moves {s} (Step.update origin m) =
        Moves.quiet (Moves.start {n = 0}) (update_consensus_state-SameRange o s origin m)
          (omega arith)
    Step-Moves {s} (Step.configure origin allowed) =
        Moves.quiet (Moves.start {n = 0}) (set_config-SameRange o s origin allowed) (omega arith)

  module _ (limit : Message → ℕ) (f : Handler) (acts : Acts r limit f) where
    handle_message-Moves :
        (m : Message) (p p' : Progress)
        → handle_message r f m p ≡ some p'
        → Moves p.1 (limit m) p'.1
    unfolding handle_message
    handle_message-Moves m (errors, s) p' e =
        let (n, effect, bound) = acts.effect m s in
        Moves.quiet (Effect-Moves effect) (on_result-SameRange r m (f m s).0 errors (f m s).1 p' e)
          bound

    -- a loop that ends has taken its first message
    pub first_message :
        (m : Message) (ms : List Message) (p p' : Progress)
        → handle_loop r f (m ∷ ms) p ≡ some p'
        → (p1 : Progress) × (handle_message r f m p ≡ some p1) × (handle_loop r f ms p1 ≡ some p')
    unfolding handle_loop
    first_message m ms p p' e = elim (Option-cases (handle_message r f m p)) [
      | inl stuck ↦ absurd (ground (arith, stuck, e))
      | inr (p1, first) ↦ (p1, first, ground (arith, first, e))
    ]

    handle_loop-Moves :
        (ms : List Message) (p p' : Progress)
        → handle_loop r f ms p ≡ some p'
        → Moves p.1 (total limit ms) p'.1
    unfolding handle_loop
    handle_loop-Moves [] p p' e = let same : p' ≡ p = cc in rw same (Moves.start)
    handle_loop-Moves (m ∷ ms) p p' e =
        let (p1, first, rest) = first_message m ms p p' e in
        Moves-then (handle_message-Moves m p p1 first) (handle_loop-Moves ms p1 p' rest) _
          (omega arith)

    -- a batch that returns has run through its loop
    pub batch_loop :
        (w : Weights) (ms : List Message) (s t : State) (info : PostDispatchInfo)
        → handle_messages r f w ms s ≡ some (info, t)
        → (p : Progress) × (handle_loop r f ms ([], cleared w s) ≡ some p) × (t ≡ report r f p)
    unfolding handle_messages
    batch_loop w ms s t info e = elim (Option-cases (handle_loop r f ms ([], cleared w s))) [
      | inl stuck ↦ absurd (ground (arith, stuck, e))
      | inr (p, runs) ↦ (p, runs, ground (arith, runs, e))
    ]

    handle_messages-Moves :
        (w : Weights) (ms : List Message) (s t : State) (info : PostDispatchInfo)
        → handle_messages r f w ms s ≡ some (info, t)
        → Moves s (total limit ms) t
    handle_messages-Moves w ms s t info e =
        let (p, runs, same) = batch_loop w ms s t info e in
        let first : Moves s 0 (cleared w s) =
          Moves.quiet (Moves.start {n = 0}) (refl, refl, refl, refl, refl) (omega arith) in
        let loop : Moves s (total limit ms) p.1 =
          Moves-then first (handle_loop-Moves ms ([], cleared w s) p runs) _ (omega arith) in
        rw same (Moves.quiet loop (report-SameRange r f p) (omega arith))

  module _ {Origin : Type 0} (o : Outside Origin) (limit : Message → ℕ)
      (behaves : Behaves r o limit) where
    handle-Moves :
        (origin : Origin) (w : Weights) (ms : List Message) (s t : State)
        (result : Result DispatchError PostDispatchInfo)
        → handle o origin r w ms s ≡ some (result, t)
        → Moves s (total limit ms) t
    unfolding handle
    handle-Moves origin w ms s t result e = elim (Bool-cases (o.is_signed origin)) [
      | inr other ↦ let same : t ≡ s = ground (arith, other, e) in rw same (Moves.start)
      | inl signed ↦ elim (Option-cases (handle_messages r o.handle_incoming_message w ms s)) [
        | inl stuck ↦ absurd (ground (arith, signed, stuck, e))
        | inr ((info, u), runs) ↦
            let same : t ≡ u = ground (arith, signed, runs, e) in
            rw same (
              handle_messages-Moves limit o.handle_incoming_message behaves.acts w ms s u info runs)
      ]
    ]

    create-Moves :
        (origin : Origin) (m : CreateConsensusState) (s : State)
        → Moves s 0 (create_consensus_client o origin m s).1
    create-Moves origin m s = elim (Bool-cases (o.is_admin origin)) [
      | inl admin ↦ rw (create_admin r o limit origin m s admin) (
          Moves.quiet (Effect-Moves (behaves.creates m s))
            (created-SameRange o origin (o.create_client m s).0 (o.create_client m s).1)
            (omega arith))
      | inr other ↦ rw (create_refused r o limit origin m s other) (Moves.start)
    ]

    -- What a chain does comes down to dispatches.
    pub Session-Moves : {s t : State} {n : ℕ} → Session r o limit s n t → Moves s n t
    Session-Moves Session.start = Moves.start
    Session-Moves (Session.step {n} before step) =
        Moves-then (Session-Moves before) (Step-Moves o step) (suc n) (omega arith)
    Session-Moves (Session.batch {s} {t} {result} origin w ms before run) =
        Moves-then (Session-Moves before) (handle-Moves origin w ms s t result run) _ (omega arith)
    Session-Moves (Session.create {s} origin m before) =
        Moves-then (Session-Moves before) (create-Moves origin m s) _ (omega arith)
