-- ===== src/Program/Interleaved/Kept.antt =====
-- Why an operation leaves the pool of the running program (bin/bunzo/src/main.rs, with
-- crates/builder/src/task.rs and proposer.rs).
use bunzo.Prelude.{
  ℕ, ◌≡◌, refl, sym, subst, ◌∙◌, ◌⊎◌, inl, inr, List, [], ◌∷◌, ◌++◌, Option, some, arith, In,
  All-In, get_elem?, is_some, Bool-cases, Option-cases,
}
use bunzo.Prelude.Result.{ok}
use bunzo.Types.Chain.{ChainSpec}
use bunzo.Types.UserOperation.Packing.{UserOperation, PackedUserOperation, UserOperationId, Hasher}
use bunzo.Types.UserOperation as Op
use bunzo.Pool.Entry.{PoolEntry}
use bunzo.Pool.Store.{OperationPool, get_by_hash, get_by_id}
use bunzo.Pool.Represents.{Represents}
use bunzo.Pool.Found.{Found, add-Found, remove_by_hash-Found, remove_by_id-Found}
use bunzo.Pool.Reputation.{Float}
use bunzo.Builder.Tracker.{Receipt}
use bunzo.Builder.Proposer.{Bundle, BundleProposer, RejectedOp}
use bunzo.Builder.Proposer.Blamed.{Blamed, make_bundle-Blamed}
use bunzo.Builder.Task.State.{BundlerTask, World}
use bunzo.Builder.Task.Mined.{packed_id, id-unpack}
use bunzo.Builder.Task.Moves.{Progress, waiting, rejecting, removing, move}
use bunzo.Builder.Task.Moves.Invariant.{HoldsAt, HoldsAt-pool, LeftOf}
use bunzo.Builder.Task.Moves.Pool.{waiting_pool}
use bunzo.Program.{CliArgs, Environment, Program, main}
use bunzo.Program.Interleaved.{
  System, Event, submits, adds, moves, started, submit, add_validated, move_task, step, run,
}
use bunzo.Program.Interleaved.Steps.{RunsAt, Invariant, step-Invariant, worlds_after}
use bunzo.Program.Interleaved.Invariant.{main-Invariant}

-- Why the operation of an identifier is taken out of a pool, after some worlds were seen: one of
-- them blamed the very operation that the pool holds, in a simulation; or one of them answered the
-- receipt of a bundle, and the identifier is in the current bundle.
pub data Reason (seen : List World) (pool : OperationPool) (current_bundle : Option Bundle)
    (i : UserOperationId) : Type 0 where
  blamed :
      (world : World) (proposer : BundleProposer) (rejected : RejectedOp) (e : PoolEntry)
      → In world seen
      → Blamed world.proposer_answers proposer rejected
      → get_by_hash pool rejected.hash ≡ some e
      → e.id ≡ i
      → Reason seen pool current_bundle i
  included :
      (world : World) (tx_hash : ℕ) (receipt : Receipt) (bundle : Bundle) (op : PackedUserOperation)
      → In world seen
      → world.get_receipt tx_hash ≡ ok (some receipt)
      → current_bundle ≡ some bundle
      → In op bundle.ops
      → packed_id op ≡ i
      → Reason seen pool current_bundle i

LeftOf-In : {A : Type 0} (x : A) (rest xs : List A) → LeftOf (x ∷ rest) xs → In x xs
LeftOf-In x rest xs (done, e) = subst (In x) e (In-middle done)
  where
    In-middle : (done : List _) → In x (done ++ x ∷ rest)
    In-middle [] = inl refl
    In-middle (y ∷ done) = inr (In-middle done)

module _ (env : Hasher) (world : World) (seen : List World) (i : UserOperationId) where
  move-Found :
      (t : BundlerTask) (l : List PoolEntry) (progress : Progress)
      → Represents t.pool l
      → HoldsAt seen progress t
      → Found i t.pool
      → Found i (move env world t progress).0.pool ⊎ Reason seen t.pool t.current_bundle i
  unfolding move
  move-Found t l waiting r h found = inl (subst (Found i) (sym (waiting_pool env world t)) found)
  move-Found t l (rejecting bundle []) r h found = inl found
  move-Found t l (rejecting bundle (rejected ∷ rest)) r h found =
      elim (remove_by_hash-Found i t.pool l r rejected.hash found) [
        | inl stays ↦ inl stays
        | inr (e, has, same) ↦
            let (w, pool, m, made) = h.3 in
            let proposer : BundleProposer = record (t.proposer) { pool = pool } in
            let blame =
              All-In (Blamed w.proposer_answers proposer) bundle.rejected_ops rejected
                (make_bundle-Blamed w.proposer_answers proposer bundle made)
                (LeftOf-In rejected rest bundle.rejected_ops h.4) in
            inr (blamed w proposer rejected e m blame has same)
      ]
  move-Found t l (removing []) r h found = inl found
  move-Found t l (removing (op ∷ ops)) r h found =
      let uo = Op.unpack env op t.chain_spec.entry_point_v0_7 t.chain_spec.id in
      elim (remove_by_id-Found i t.pool l r (Op.id uo) found) [
        | inl stays ↦ inl stays
        | inr same ↦
            let (w, tx_hash, receipt, m, got, at) = h.2 in
            let (bundle, has, left) = h.3 in
            inr (
              included w tx_hash receipt bundle op m got has (LeftOf-In op ops bundle.ops left)
                (sym (id-unpack env op t.chain_spec.entry_point_v0_7 t.chain_spec.id) ∙ same))
      ]

-- The event is a move of the bundler that has a reason to take the operation out.
abbrev pub Taken : {fl : Float} → List World → UserOperationId → System fl → Event fl → Type 0
Taken seen i s (submits _ _) = ⊥
Taken seen i s (adds _) = ⊥
Taken seen i s (moves _) =
    (t : BundlerTask) × (s.program.bundler ≡ some t)
    × Reason seen s.program.api.op_pool t.current_bundle i

module _ (fl : Float) (env : Hasher) where
  -- Some event of the run takes the operation out, and has a reason for it.
  abbrev pub Leaves : UserOperationId → List World → System fl → List (Event fl) → Type 0
  Leaves i seen s [] = ⊥
  Leaves i seen s (event ∷ events) =
      let s' = step fl env s event in
      (Taken seen i s event × Found i s.program.api.op_pool × ¬ Found i s'.program.api.op_pool)
      ⊎ Leaves i (worlds_after (event ∷ []) seen) s' events

  submit_pool :
      (s : System fl) (uo : UserOperation) (entry_point : ℕ)
      → (submit fl env s uo entry_point).program.api.op_pool ≡ s.program.api.op_pool
  unfolding submit
  submit_pool s uo entry_point = ground arith

  module _ (c : ChainSpec) (i : UserOperationId) (seen : List World) (s : System fl)
      (v : Invariant fl env c seen s) (found : Found i s.program.api.op_pool) where
    adds_Found : (n : ℕ) → Found i (add_validated fl env s n).program.api.op_pool
    unfolding add_validated
    adds_Found n = elim (Option-cases (get_elem? s.in_flight n)) [
      | inl missing ↦ rw (add_validated, missing) found
      | inr (w, present) ↦
          rw (add_validated, present)
            (add-Found i s.program.api.op_pool v.contents.0 v.contents.1 env w.user_op w.base_fee
              found)
    ]

    step-Found :
        (event : Event fl)
        → Found i (step fl env s event).program.api.op_pool ⊎ Taken seen i s event
    unfolding step move_task
    step-Found (submits uo entry_point) =
        inl (subst (Found i) (sym (submit_pool s uo entry_point)) found)
    step-Found (adds n) = inl (adds_Found n)
    step-Found (moves world) = elim (Option-cases s.program.bundler) [
      | inl absent ↦ inl (rw (step, absent) found)
      | inr (t, present) ↦
          let pool = s.program.api.op_pool in
          let on_pool : BundlerTask = record t { pool = pool } in
          let holds : HoldsAt seen s.progress on_pool =
            HoldsAt-pool seen s.progress t pool
              (subst (RunsAt seen s.progress) present v.bundler_runs) in
          elim (move-Found env world seen i on_pool v.contents.0 s.progress v.contents.1 holds
            found) [ inl stays ↦ inl (rw (step, present) stays) | inr why ↦ inr (t, present, why) ]
    ]

  run-Found :
      (c : ChainSpec) (i : UserOperationId) (seen : List World) (s : System fl)
      (events : List (Event fl))
      → Invariant fl env c seen s
      → Found i s.program.api.op_pool
      → Found i (run fl env s events).program.api.op_pool ⊎ Leaves i seen s events
  unfolding run
  run-Found c i seen s [] v found = inl found
  run-Found c i seen s (event ∷ events) v found =
      let s' = step fl env s event in
      let seen' = worlds_after (event ∷ []) seen in
      elim (Bool-cases (is_some (get_by_id s'.program.api.op_pool i))) [
        | inl stays ↦
            elim (run-Found c i seen' s' events (step-Invariant fl env c seen s event v) stays) [
              | inl at_end ↦ inl at_end
              | inr leaves ↦ inr (inr leaves)
            ]
        | inr gone ↦ elim (step-Found c i seen s v found event) [
          | inl stays ↦ absurd (ground (arith, gone, stays))
          | inr why ↦ inr (inl (why, found, λ stays. ground (arith, gone, stays)))
        ]
      ]

-- No operation is lost: whenever `main` gets the program running, and an identifier is found in the
-- pool after some events, then it is found after any further events as well, or one of them is a
-- move of the bundler that takes it out for a reason. Either a simulation of an earlier move named
-- the very operation that the pool holds under the identifier as failed, so that an operation
-- that replaced it meanwhile stays; or an earlier move saw a receipt, and the identifier is that of
-- an operation in the current bundle.
pub kept-run :
    (fl : Float) (env : Hasher) (outside : Environment) (cli : CliArgs) (s : Program fl)
    (before after : List (Event fl)) (i : UserOperationId)
    → main fl outside cli ≡ ok s
    → Found i (run fl env (started fl s) before).program.api.op_pool
    → let s' = run fl env (started fl s) before in
      Found i (run fl env s' after).program.api.op_pool
      ⊎ Leaves fl env i (worlds_after before []) s' after
kept-run fl env outside cli s before after i e found =
    let (at, limit, v) = main-Invariant fl env outside cli s before e in
    run-Found fl env s.api.chain_spec i (worlds_after before []) (run fl env (started fl s) before)
      after v found
