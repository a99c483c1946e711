-- ===== src/Chain/Announced.antt =====
-- The updates of state machines over everything that a chain does: each is announced once, or still
-- in its challenge period.
use ismp_substrate.Base.{
  ℕ, ◌+◌, ◌*◌, ◌<◌, ◌≡◌, refl, Bool-cases, inl, inr, if◌then◌else◌, some, Option-cases, Result,
  List, [], ◌∷◌, ◌++◌, length, length-append, u64_mod, arith,
}
use ismp_substrate.StorageMap.{IsMap}
use ismp_substrate.Ismp.{
  StateMachineHeight, StateUpdates, Message, CreateConsensusState, bytes_key, state_machine_id_key,
}
use ismp_substrate.Primitives.Leaves.{Leaf}
use ismp_substrate.Pallet.{State, Runtime, IsScale}
use ismp_substrate.Mmr.Push.{AppendsLeaf}
use ismp_substrate.Leaves.Log.{Represents}
use ismp_substrate.Weights.Providers.{Weights}
use ismp_substrate.Messages.{
  Handler, Progress, PostDispatchInfo, handle_message, handle_loop, handle_messages, report,
  cleared,
}
use ismp_substrate.Messages.Heights.{InKind}
use ismp_substrate.Messages.Announced.{announced, waiting, copies, Brings}
use ismp_substrate.Messages.Entered.{
  updates_of, SameUpdates, SameUpdates-Brings, Brings-then, Brings-SameUpdates, on_result-Brings,
  report-SameUpdates, entered, entered_step,
}
use ismp_substrate.Calls.{Outside, DispatchError, handle, create_consensus_client, created}
use ismp_substrate.Chain.Log.{RepresentsMore}
use ismp_substrate.Chain.Ranges.{SameRange-Represents}
use ismp_substrate.Chain.Batches.{Acts, total, handle_message-Represents}
use ismp_substrate.Chain.Moves.{first_message, batch_loop}
use ismp_substrate.Chain.Quiet.{
  Effect-SameUpdates, Step-SameUpdates, SameUpdates-then, created-SameUpdates,
}
use ismp_substrate.Chain.Sessions.{
  Session, Behaves, create_admin, create_refused, Session-Represents,
}

module _ (at : StateMachineHeight) (r : Runtime) {Origin : Type 0} (o : Outside Origin)
    (lib : AppendsLeaf r.mmr_lib) (scale : IsScale r.codec) (limit : Message → ℕ) (f : Handler)
    (acts : Acts r limit f) (in_kind : InKind f) where
  handle_message-Brings :
      (m : Message) (p p' : Progress) (log : List Leaf)
      → handle_message r f m p ≡ some p'
      → Represents r p.1 log
      → 2 * (length log + limit m + 1) < u64_mod
      → IsMap p.1.consensus_update_results
      → Brings at p.1 (copies at (updates_of (f m p.1).0)) p'.1
  unfolding handle_message
  handle_message-Brings m (errors, s) p' log e h small map =
      let (n, effect, bound) = acts.effect m s in
      SameUpdates-Brings at s (f m s).1 p'.1 _
        (Effect-SameUpdates at r o lib scale log effect h (omega (arith, bound)))
        (on_result-Brings at r m (f m s).0 errors (f m s).1 p' e) map

  -- where a message leaves the log
  message_log :
      (m : Message) (p p' : Progress) (log : List Leaf)
      → handle_message r f m p ≡ some p'
      → Represents r p.1 log
      → 2 * (length log + limit m + 1) < u64_mod
      → RepresentsMore r p'.1 log (limit m)
  message_log m p p' log e h small =
      let (q, e', more) =
        handle_message-Represents r o lib scale limit f acts in_kind m p log h small in
      let same : p' ≡ q = cc in rw same more

  handle_loop-Brings :
      (ms : List Message) (p p' : Progress) (log : List Leaf)
      → handle_loop r f ms p ≡ some p'
      → Represents r p.1 log
      → 2 * (length log + total limit ms + 1) < u64_mod
      → IsMap p.1.consensus_update_results
      → Brings at p.1 (copies at (entered r f ms p)) p'.1
  unfolding handle_loop
  handle_loop-Brings [] p p' log e h small map =
      let same : p' ≡ p = cc in rw same (omega arith, map)
  handle_loop-Brings (m ∷ ms) p p' log e h small map =
      let (p1, one, rest) = first_message r limit f acts m ms p p' e in
      let (more, h1, few) = message_log m p p1 log one h (omega arith) in
      let first = handle_message-Brings m p p1 log one h (omega arith) map in
      rw (entered_step r f m ms p p1 one) (
        Brings-then at p.1 p1.1 p'.1 (updates_of (f m p.1).0) (entered r f ms p1) first (
          handle_loop-Brings ms p1 p' (log ++ more) rest h1
            (omega (arith, few, length-append {0} log more)) first.1))

  pub handle_messages-Brings :
      (w : Weights) (ms : List Message) (s t : State) (info : PostDispatchInfo) (log : List Leaf)
      → handle_messages r f w ms s ≡ some (info, t)
      → Represents r s log
      → 2 * (length log + total limit ms + 1) < u64_mod
      → IsMap s.consensus_update_results
      → Brings at s (copies at (entered r f ms ([], cleared w s))) t
  handle_messages-Brings w ms s t info log e h small map =
      let (p, runs, same) = batch_loop r limit f acts w ms s t info e in
      let looped =
        handle_loop-Brings ms ([], cleared w s) p log runs
          (SameRange-Represents r (refl, refl, refl, refl, refl) h) small map in
      rw same (Brings-SameUpdates at s p.1 (report r f p) _ looped (report-SameUpdates at r f p))

module _ (r : Runtime) {Origin : Type 0} (o : Outside Origin) (limit : Message → ℕ) where
  -- the updates that the consensus messages of a session bring, in their order
  abbrev pub brought : {s t : State} {n : ℕ} → Session r o limit s n t → StateUpdates
  brought Session.start = []
  brought (Session.step before next) = brought before
  brought (Session.batch {s = s} origin w ms before run) =
      brought before
      ++ (if o.is_signed origin
          then entered r o.handle_incoming_message ms ([], cleared w s)
          else [])
  brought (Session.create origin m before) = brought before

  module _ (at : StateMachineHeight) (lib : AppendsLeaf r.mmr_lib) (scale : IsScale r.codec)
      (behaves : Behaves r o limit) where
    create-SameUpdates :
        (origin : Origin) (m : CreateConsensusState) (s : State) (log : List Leaf)
        → Represents r s log
        → 2 * (length log + 1) < u64_mod
        → SameUpdates at (create_consensus_client o origin m s).1 s
    create-SameUpdates origin m s log h small = elim (Bool-cases (o.is_admin origin)) [
      | inl admin ↦ rw (create_admin r o limit origin m s admin) (
          SameUpdates-then at r s (o.create_client m s).1
            (created o origin (o.create_client m s).0 (o.create_client m s).1).1
            (Effect-SameUpdates at r o lib scale log (behaves.creates m s) h (omega arith))
            (created-SameUpdates at r o origin (o.create_client m s).0 (o.create_client m s).1))
      | inr other ↦ rw (create_refused r o limit origin m s other) (refl, refl)
    ]

    handle-Brings :
        (origin : Origin) (w : Weights) (ms : List Message) (s t : State)
        (result : Result DispatchError PostDispatchInfo) (log : List Leaf)
        → handle o origin r w ms s ≡ some (result, t)
        → Represents r s log
        → 2 * (length log + total limit ms + 1) < u64_mod
        → IsMap s.consensus_update_results
        → Brings at s
            (copies at (
              if o.is_signed origin
              then entered r o.handle_incoming_message ms ([], cleared w s)
              else []))
            t
    unfolding handle
    handle-Brings origin w ms s t result log e h small map =
        elim (Bool-cases (o.is_signed origin)) [
          | inr other ↦
              let same : t ≡ s = ground (arith, other, e) in rw (other, same) (omega arith, map)
          | inl signed ↦ elim (Option-cases (handle_messages r o.handle_incoming_message w ms s)) [
            | inl stuck ↦ absurd (ground (arith, signed, stuck, e))
            | inr ((info, u), runs) ↦
                let same : t ≡ u = ground (arith, signed, runs, e) in
                rw (signed, same)
                  (handle_messages-Brings at r o lib scale limit o.handle_incoming_message
                    behaves.acts behaves.in_kind w ms s u info log runs h small map)
          ]
        ]

    Session-Brings :
        {s t : State} {n : ℕ} (log : List Leaf) (run : Session r o limit s n t)
        → Represents r s log
        → 2 * (length log + n + 1) < u64_mod
        → IsMap s.consensus_update_results
        → Brings at s (copies at (brought run)) t
    Session-Brings log Session.start h small map = (omega arith, map)
    Session-Brings {s} {t} log (Session.step {n} {s = u} before next) h small map =
        let (more, h', few) =
          Session-Represents r o limit lib scale behaves before log h (omega arith) in
        Brings-SameUpdates at s u t _ (Session-Brings log before h (omega arith) map) (
          Step-SameUpdates at r o lib scale (log ++ more) next h'
            (omega (arith, few, length-append {0} log more)))
    Session-Brings {s} log (Session.batch {n} {s = u} {t} {result} origin w ms before run) h small
          map =
        let (more, h', few) =
          Session-Represents r o limit lib scale behaves before log h (omega arith) in
        let first = Session-Brings log before h (omega arith) map in
        Brings-then at s u t (brought before) _ first (
          handle-Brings origin w ms u t result (log ++ more) run h'
            (omega (arith, few, length-append {0} log more)) first.1)
    Session-Brings {s} log (Session.create {n} {s = u} origin m before) h small map =
        let (more, h', few) = Session-Represents r o limit lib scale behaves before log h small in
        Brings-SameUpdates at s u (create_consensus_client o origin m u).1 _
          (Session-Brings log before h small map)
          (create-SameUpdates origin m u (log ++ more) h'
            (omega (arith, few, length-append {0} log more)))

    -- Over libraries that behave as documented, with a limit on what a module dispatches for each
    -- incoming message: from a state that represents a log, with twice the leaves and one more than
    -- n below 2^64, and one entry for each client among the results in their challenge period,
    -- after everything that a chain does with at most n steps and dispatches for messages together:
    -- the new height of a state machine is announced by the events (those of all blocks taken
    -- together) and stands among the results in their challenge period, both counted together,
    -- exactly as often as at the start and in the consensus messages that were handled since. So no
    -- update is lost and none is announced twice.
    pub Session-known :
        {s t : State} {n : ℕ} (log : List Leaf) (run : Session r o limit s n t)
        → Represents r s log
        → 2 * (length log + n + 1) < u64_mod
        → IsMap s.consensus_update_results
        → announced at t.events + waiting at t.consensus_update_results
          ≡ announced at s.events + waiting at s.consensus_update_results + copies at (brought run)
    Session-known log run h small map = (Session-Brings log run h small map).0
