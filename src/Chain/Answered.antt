-- ===== src/Chain/Answered.antt =====
-- Responses over everything that a chain does: none is in the log twice, by the commitments of
-- pallet-ismp/src/handlers.rs.
use ismp_substrate.Base.{
  ℕ, suc, ◌+◌, ◌*◌, ◌<◌, ◌≤◌, ◌≡◌, sym, ◌∙◌, Bool-cases, inl, inr, true, some, Result, err, List,
  [], ◌++◌, length, length-append, u64_mod, arith,
}
use mathlib.Core.List.{append-nil, append_assoc}
use ismp_substrate.StorageMap
use ismp_substrate.Ismp.{bytes_key, Message, Response, IsmpError}
use ismp_substrate.Primitives.Leaves.{Leaf}
use ismp_substrate.Pallet.{State, Runtime, IsScale}
use ismp_substrate.Mmr.Push.{AppendsLeaf}
use ismp_substrate.Leaves.Log.{Represents}
use ismp_substrate.Leaves.Serving.{Represents-unique}
use ismp_substrate.Handlers.{
  request_hash, response_hash, dispatch_response as pallet_dispatch_response,
}
use ismp_substrate.Handlers.Dispatcher.{outgoing, dispatch_response}
use ismp_substrate.Handlers.Log.{sent}
use ismp_substrate.Handlers.Outgoing.{dispatch_response_unknown, dispatch_response_duplicate}
use ismp_substrate.Handlers.Answered.{
  ResponseAt, Answered, Answered-empty, Answered-same, Keeps, dispatch_request-Keeps,
  response-Keeps,
}
use ismp_substrate.Calls.{Outside}
use ismp_substrate.Chain.{returned}
use ismp_substrate.Chain.Log.{length-sent}
use ismp_substrate.Chain.Ranges.{SameRange, SameRange-Represents}
use ismp_substrate.Chain.Sessions.{Session, Behaves}
use ismp_substrate.Chain.Moves.{Moves, Session-Moves}

module _ (r : Runtime) where
  -- a few more leaves
  abbrev pub KeepsMore : State → List Leaf → ℕ → Type 0
  KeepsMore t log n = (more : List Leaf) × Keeps r t (log ++ more) × (length more ≤ n)

  Keeps-quiet : {s t : State} {log : List Leaf} → SameRange t s → Keeps r s log → Keeps r t log
  Keeps-quiet {s} {t} {log} same h = record {
    kept = SameRange-Represents r same h.kept;
    answered = Answered-same r s t log same.4 h.answered;
  }

  -- A response with a commitment is refused, whatever became of its request.
  refused :
      (res : Response) (s : State)
      → StorageMap.contains_key s.response_commitments (response_hash r res) ≡ true
      → (e : IsmpError) × (pallet_dispatch_response r res s ≡ some (err e, s))
  refused res s twice =
      elim (Bool-cases
        (StorageMap.contains_key s.request_commitments (request_hash r (r.ismp.request res)))) [
          | inl known ↦ (_, dispatch_response_duplicate r res s known twice)
          | inr unknown ↦ (_, dispatch_response_unknown r res s unknown)
        ]

module _ (r : Runtime) {Origin : Type 0} (o : Outside Origin) (lib : AppendsLeaf r.mmr_lib)
    (scale : IsScale r.codec) where
  -- a dispatch after some others
  KeepsMore-next :
      (u : State) (log : List Leaf) (n m : ℕ) (result : Result IsmpError Unit) (leaf : Leaf)
      (more : List Leaf)
      → Keeps r u ((log ++ more) ++ sent result leaf)
      → length more ≤ n
      → suc n ≤ m
      → KeepsMore r u log m
  KeepsMore-next u log n m result leaf more h few le = (
    more ++ sent result leaf,
    rw (sym (append_assoc log more (sent result leaf))) h,
    omega (arith, few, le, length-append {0} more (sent result leaf), length-sent r result leaf),
  )

  Moves-Keeps :
      {s t : State} {n : ℕ}
      → Moves r s n t
      → (log : List Leaf) → Keeps r s log
      → 2 * (length log + n + 1) < u64_mod
      → KeepsMore r t log n
  Moves-Keeps Moves.start log h small = ([], rw (append-nil log) h, omega arith)
  Moves-Keeps (Moves.quiet before same le) log h small =
      let (more, h', few) = Moves-Keeps before log h (omega (arith, le)) in
      (more, Keeps-quiet r same h', omega (arith, few, le))
  Moves-Keeps (Moves.sends {n} {m} {t} {u} {result} d before run le) log h small =
      let (more, h', few) = Moves-Keeps before log h (omega (arith, le)) in
      let (result', u', run', h'') =
        dispatch_request-Keeps r lib scale d t (log ++ more) h'
          (omega (arith, h'.kept.counted, few, le, length-append {0} log more)) in
      let same : u ≡ u' = returned r o result' result u' u (sym run' ∙ run) in
      rw same (KeepsMore-next u' log n m result' (Leaf.request (outgoing r d t).0) more h'' few le)
  Moves-Keeps (Moves.answers {n} {m} {t} {u} {result} res before run le) log h small =
      let (more, h', few) = Moves-Keeps before log h (omega (arith, le)) in
      let (result', u', run', h'') =
        response-Keeps r lib scale (Response.post res) t (log ++ more) h'
          (omega (arith, h'.kept.counted, few, le, length-append {0} log more)) in
      let same : u ≡ u' =
        returned r o result' result u' u (sym run' ∙ unfold dispatch_response in run) in
      rw same
        (KeepsMore-next u' log n m result' (Leaf.response (Response.post res)) more h'' few le)

  -- the responses of the log that a session leaves, from none
  Session-Answered :
      (limit : Message → ℕ) (behaves : Behaves r o limit) {genesis t : State} {n : ℕ}
      (log : List Leaf)
      → Session r o limit genesis n t
      → Represents r genesis []
      → Represents r t log
      → 2 * (n + 1) < u64_mod
      → Answered r t log
  Session-Answered limit behaves {genesis} {t} log session empty kept small =
      let (log', h, few) =
        Moves-Keeps (Session-Moves r o limit behaves session) []
          (record { kept = empty; answered = Answered-empty r genesis }) (omega arith) in
      rw (Represents-unique r t log log' kept h.kept) h.answered

  -- Over libraries that behave as documented, with a limit on what a module dispatches for each
  -- incoming message: from a genesis that represents the empty log, after everything that a chain
  -- does, with at most n steps and dispatches for messages together, with twice one more than n
  -- below 2^64: two responses of one hash in the log that the state represents are one, at one
  -- place, and a response of the log is refused if it is dispatched again, which changes nothing.
  pub Session-answers_once :
      (limit : Message → ℕ) (behaves : Behaves r o limit) {genesis t : State} {n : ℕ}
      (log : List Leaf) (i j : ℕ) (res other : Response)
      → Session r o limit genesis n t
      → Represents r genesis []
      → Represents r t log
      → ResponseAt r log i res
      → ResponseAt r log j other
      → response_hash r res ≡ response_hash r other
      → 2 * (n + 1) < u64_mod
      → (i ≡ j)
        × (res ≡ other)
        × ((e : IsmpError) × (pallet_dispatch_response r res t ≡ some (err e, t)))
  Session-answers_once limit behaves {t = t} log i j res other session empty kept at at' same
        small =
      let h = Session-Answered limit behaves log session empty kept small in
      let place : i ≡ j = h.once i j res other at at' same in
      (place, cc, refused r res t (h.committed i res at))
