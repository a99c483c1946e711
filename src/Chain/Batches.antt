-- ===== src/Chain/Batches.antt =====
-- What batches of incoming messages do to the log of leaves: `handle_messages` of
-- pallet-ismp/src/lib.rs.
use ismp_substrate.Base.{
  ℕ, ◌+◌, ◌*◌, ◌<◌, ◌≤◌, ◌≡◌, refl, ◌∙◌, some, List, [], ◌∷◌, ◌++◌, length, length-append, u64_mod,
  arith,
}
use mathlib.Core.List.{append-nil}
use ismp_substrate.Ismp.{Message, bytes_key, state_machine_id_key}
use ismp_substrate.Primitives.Leaves.{Leaf}
use ismp_substrate.Pallet.{State, Runtime, IsScale}
use ismp_substrate.Mmr.Push.{AppendsLeaf}
use ismp_substrate.Leaves.Log.{Represents}
use ismp_substrate.Messages.{
  Handler, Progress, PostDispatchInfo, handle_message, handle_loop, report, handle_messages,
  cleared, info_of,
}
use ismp_substrate.Messages.Heights.{
  InKind, handle_message_returns, handle_loop_step, handle_messages_step,
}
use ismp_substrate.Weights.{get_weight}
use ismp_substrate.Weights.Providers.{Weights}
use ismp_substrate.Calls.{Outside}
use ismp_substrate.Chain.Log.{RepresentsMore}
use ismp_substrate.Chain.Incoming.{Effect, Effect-Represents, RepresentsMore-then}
use ismp_substrate.Chain.Ranges.{SameRange-Represents}
use ismp_substrate.Messages.Ranges.{on_result-SameRange, report-SameRange}

-- the dispatches that a batch may cause, by what each message may
abbrev pub total : (Message → ℕ) → List Message → ℕ
total limit [] = 0
total limit (m ∷ ms) = limit m + total limit ms

-- The handler's documented way to act: through the host and the dispatcher, with a bounded number
-- of dispatches for each message.
pub record Acts (r : Runtime) (limit : Message → ℕ) (f : Handler) : Type 0 where
  pub effect : (m : Message) (s : State) → (n : ℕ) × Effect r s n (f m s).1 × (n ≤ limit m)

module _ (r : Runtime) {Origin : Type 0} (o : Outside Origin) (lib : AppendsLeaf r.mmr_lib)
    (scale : IsScale r.codec) (limit : Message → ℕ) (f : Handler) (acts : Acts r limit f)
    (in_kind : InKind f) where
  pub handle_message-Represents :
      (m : Message) (p : Progress) (log : List Leaf)
      → Represents r p.1 log
      → 2 * (length log + limit m + 1) < u64_mod
      → (p' : Progress) × (handle_message r f m p ≡ some p') × RepresentsMore r p'.1 log (limit m)
  unfolding handle_message
  handle_message-Represents m (errors, s) log h small =
      let (p', e) = handle_message_returns r f m (errors, s) in_kind in
      let (n, effect, bound) = acts.effect m s in
      let (more, h', few) = Effect-Represents r o lib scale effect log h (omega (arith, bound)) in
      (
        p',
        e,
        (
          more,
          SameRange-Represents r (on_result-SameRange r m (f m s).0 errors (f m s).1 p' e) h',
          omega (arith, few, bound),
        ),
      )

  handle_loop-Represents :
      (ms : List Message) (p : Progress) (log : List Leaf)
      → Represents r p.1 log
      → 2 * (length log + total limit ms + 1) < u64_mod
      → (p' : Progress) × (handle_loop r f ms p ≡ some p')
        × RepresentsMore r p'.1 log (total limit ms)
  unfolding handle_loop
  handle_loop-Represents [] p log h small = (p, refl, ([], rw (append-nil log) h, omega arith))
  handle_loop-Represents (m ∷ ms) p log h small =
      let (p1, e1, (more, h1, few)) = handle_message-Represents m p log h (omega arith) in
      let (p2, e2, rest) =
        handle_loop-Represents ms p1 (log ++ more) h1
          (omega (arith, few, length-append {0} log more)) in
      (
        p2,
        handle_loop_step r f m ms p p1 e1 ∙ e2,
        RepresentsMore-then r o lib scale p2.1 log more (limit m) (total limit ms) few rest,
      )

  -- Over libraries that behave as documented, and a handler that answers each message in its own
  -- kind and acts through the host and the dispatcher, with at most as many dispatches for a
  -- message as its limit: on a state that represents a log, with twice the leaves and one more than
  -- the limits of a batch below 2^64, the batch returns, and the state after it represents that log
  -- with at most as many more leaves at its end as the limits add up to.
  pub handle_messages-Represents :
      (w : Weights) (ms : List Message) (s : State) (log : List Leaf)
      → Represents r s log
      → 2 * (length log + total limit ms + 1) < u64_mod
      → (info : PostDispatchInfo) × (t : State) × (handle_messages r f w ms s ≡ some (info, t))
        × RepresentsMore r t log (total limit ms)
  handle_messages-Represents w ms s log h small =
      let (p, e, (more, h', few)) =
        handle_loop-Represents ms ([], cleared w s) log
          (SameRange-Represents r (refl, refl, refl, refl, refl) h) small in
      (
        info_of w (get_weight w r.ismp ms) (report r f p),
        report r f p,
        handle_messages_step r f w ms s p e,
        (more, SameRange-Represents r (report-SameRange r f p) h', few),
      )
