-- ===== src/Chain/Indexed.antt =====
-- Every request of the log is found by its chains and nonce, whatever a chain does: the offchain
-- index of pallet-ismp/src/lib.rs and the nonces of pallet-ismp/src/host.rs over whole sessions.
use ismp_substrate.Base.{
  ℕ, suc, ◌+◌, ◌*◌, ◌<◌, ◌≤◌, ◌≡◌, sym, ◌∙◌, true, some, Result, List, [], ◌++◌, length,
  length-append, u64_mod, arith,
}
use mathlib.Core.List.{append-nil, append_assoc}
use ismp_substrate.Ismp.{bytes_key, Message, Request, Response, IsmpError}
use ismp_substrate.Ismp.Library.{ReadsRequests}
use ismp_substrate.Primitives.Leaves.{Leaf}
use ismp_substrate.Pallet.{State, Runtime, IsScale}
use ismp_substrate.Mmr.Push.{AppendsLeaf}
use ismp_substrate.Leaves.Log.{Represents}
use ismp_substrate.Leaves.Index.{RequestAt, Indexed, Indexed-empty, Indexed-same}
use ismp_substrate.Handlers.Dispatcher.{outgoing, dispatch_response}
use ismp_substrate.Handlers.Log.{sent}
use ismp_substrate.Handlers.Index.{Tracks, dispatch_request-Tracks, response-Tracks}
use ismp_substrate.Calls.{Outside}
use ismp_substrate.Chain.{returned}
use ismp_substrate.Chain.Log.{length-sent}
use ismp_substrate.Leaves.Serving.{leaf_position, read_leaf-Represents, Represents-unique}
use ismp_substrate.Leaves.{get_request, get_leaf_index}
use ismp_substrate.Chain.Ranges.{SameRange, SameRange-Represents}
use ismp_substrate.Chain.Sessions.{Session, Behaves}
use ismp_substrate.Chain.Moves.{Moves, Session-Moves}

module _ (r : Runtime) where
  -- a few more leaves, and no more nonces than dispatches
  abbrev pub TracksMore : State → State → List Leaf → ℕ → Type 0
  TracksMore s t log n =
      (more : List Leaf) × Tracks r t (log ++ more) × (length more ≤ n) × (t.nonce ≤ s.nonce + n)

  Tracks-quiet : {s t : State} {log : List Leaf} → SameRange t s → Tracks r s log → Tracks r t log
  Tracks-quiet {s} {t} {log} same h = record {
    kept = SameRange-Represents r same h.kept;
    index = Indexed-same r s t log (omega (arith, same.3)) same.2 h.index;
  }

module _ (r : Runtime) {Origin : Type 0} (o : Outside Origin) (lib : AppendsLeaf r.mmr_lib)
    (scale : IsScale r.codec) (reads : ReadsRequests r.ismp) where
  -- a dispatch after some others
  TracksMore-next :
      (s t u : State) (log : List Leaf) (n m : ℕ) (result : Result IsmpError Unit) (leaf : Leaf)
      (more : List Leaf)
      → Tracks r u ((log ++ more) ++ sent result leaf)
      → length more ≤ n
      → suc n ≤ m
      → t.nonce ≤ s.nonce + n
      → u.nonce ≤ t.nonce + 1
      → TracksMore r s u log m
  TracksMore-next s t u log n m result leaf more h few le nonces next = (
    more ++ sent result leaf,
    rw (sym (append_assoc log more (sent result leaf))) h,
    omega (arith, few, le, length-append {0} more (sent result leaf), length-sent r result leaf),
    omega arith,
  )

  pub Moves-Tracks :
      {s t : State} {n : ℕ}
      → Moves r s n t
      → (log : List Leaf) → Tracks r s log
      → 2 * (length log + n + 1) < u64_mod
      → s.nonce + n < u64_mod
      → TracksMore r s t log n
  Moves-Tracks Moves.start log h small room = ([], rw (append-nil log) h, omega arith, omega arith)
  Moves-Tracks (Moves.quiet {n} {m} before same le) log h small room =
      let (more, h', few, nonces) =
        Moves-Tracks before log h (omega (arith, le)) (omega (arith, le)) in
      (more, Tracks-quiet r same h', omega (arith, few, le), omega (arith, nonces, le, same.3))
  Moves-Tracks {s} (Moves.sends {n} {m} {t} {u} {result} d before run le) log h small room =
      let (more, h', few, nonces) =
        Moves-Tracks before log h (omega (arith, le)) (omega (arith, le)) in
      let (result', u', run', h'', next) =
        dispatch_request-Tracks r lib scale reads d t (log ++ more) h'
          (omega (arith, h'.kept.counted, few, le, length-append {0} log more))
          (omega (arith, nonces, le)) in
      let same : u ≡ u' = returned r o result' result u' u (sym run' ∙ run) in
      rw same (
        TracksMore-next s t u' log n m result' (Leaf.request (outgoing r d t).0) more h'' few le
          nonces (omega (arith, next)))
  Moves-Tracks {s} (Moves.answers {n} {m} {t} {u} {result} res before run le) log h small room =
      let (more, h', few, nonces) =
        Moves-Tracks before log h (omega (arith, le)) (omega (arith, le)) in
      let (result', u', run', h'', next) =
        response-Tracks r lib scale reads (Response.post res) t (log ++ more) h'
          (omega (arith, h'.kept.counted, few, le, length-append {0} log more)) in
      let same : u ≡ u' =
        returned r o result' result u' u (sym run' ∙ unfold dispatch_response in run) in
      rw same (
        TracksMore-next s t u' log n m result' (Leaf.response (Response.post res)) more h'' few le
          nonces (omega (arith, next)))

  -- the log that a session leaves, from none
  pub Session-Tracks :
      (limit : Message → ℕ) (behaves : Behaves r o limit) {genesis t : State} {n : ℕ}
      (log : List Leaf)
      → Session r o limit genesis n t
      → Represents r genesis []
      → Represents r t log
      → 2 * (n + 1) < u64_mod
      → genesis.nonce + n < u64_mod
      → Indexed r t log
  Session-Tracks limit behaves {genesis} {t} log session empty kept small room =
      let (log', h, few, nonces) =
        Moves-Tracks (Session-Moves r o limit behaves session) []
          (record { kept = empty; index = Indexed-empty r genesis }) (omega arith) room in
      rw (Represents-unique r t log log' kept h.kept) h.index

  -- Over libraries that behave as documented, with a limit on what a module dispatches for each
  -- incoming message: from a genesis that represents the empty log, after everything that a chain
  -- does, with at most n steps and dispatches for messages together, with twice one more than n,
  -- and the first nonce with n, below 2^64: each request of the log that the state represents is
  -- found by its chains and nonce, and read in full from the position found.
  pub Session-found :
      (limit : Message → ℕ) (behaves : Behaves r o limit) {genesis t : State} {n : ℕ}
      (log : List Leaf) (i : ℕ) (req : Request)
      → Session r o limit genesis n t
      → Represents r genesis []
      → Represents r t log
      → RequestAt r log i req
      → 2 * (n + 1) < u64_mod
      → genesis.nonce + n < u64_mod
      → (get_leaf_index r
            (r.ismp.source_chain req)
            (r.ismp.dest_chain req)
            (r.ismp.nonce req)
            true
            t
          ≡ some (leaf_position i))
        × (get_request r (leaf_position i) t ≡ some req)
  unfolding get_request
  Session-found limit behaves {t = t} log i req session empty kept e small room = (
    (Session-Tracks limit behaves log session empty kept small room).found i req e,
    ground (arith, read_leaf-Represents r t log i (Leaf.request req) kept e),
  )

  -- Over libraries that behave as documented, with a limit on what a module dispatches for each
  -- incoming message: from a genesis that represents the empty log, after everything that a chain
  -- does, with at most n steps and dispatches for messages together, with twice one more than n,
  -- and the first nonce with n, below 2^64: of two requests of the log that the state represents,
  -- the later one has the greater nonce.
  pub Session-nonces :
      (limit : Message → ℕ) (behaves : Behaves r o limit) {genesis t : State} {n : ℕ}
      (log : List Leaf) (i j : ℕ) (req later : Request)
      → Session r o limit genesis n t
      → Represents r genesis []
      → Represents r t log
      → RequestAt r log i req
      → RequestAt r log j later
      → i < j
      → 2 * (n + 1) < u64_mod
      → genesis.nonce + n < u64_mod
      → r.ismp.nonce req < r.ismp.nonce later
  Session-nonces limit behaves log i j req later session empty kept e e' less small room =
      (Session-Tracks limit behaves log session empty kept small room).rising i j req later e e'
        less
