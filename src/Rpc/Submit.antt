-- ===== src/Rpc/Submit.antt =====
-- What submitting an operation does (crates/rpc/src/eth.rs, `send_user_operation`).
use bunzo.Prelude.{
  ℕ, ◌≡◌, refl, ap, sym, ◌∙◌, ◌≢◌, inl, inr, true, List, Option, none, some, arith, Bool-cases,
}
use bunzo.Prelude.Result.{ok, err, Result-cases}
use bunzo.Types.Chain.{is_entry_point}
use bunzo.Types.UserOperation.Packing.{UserOperation, Hasher, pack}
use bunzo.Types.UserOperation as Op
use bunzo.Pool.Entry.{PoolEntry, new_entry}
use bunzo.Pool.Store.{add, get_by_hash, get_by_id}
use bunzo.Pool.Represents.{Represents}
use bunzo.Pool.Atomic.{add_atomic, add_found, lookup_after}
use bunzo.Pool.Reputation.{Float}
use bunzo.Pool.Validation.{validate_sync}
use bunzo.Rpc.Eth.{EthApi, RpcError, accept, send_user_operation, get_user_operation_by_hash}

found_after :
    (replaced : Option PoolEntry) (entry : PoolEntry) (before : Option PoolEntry)
    → lookup_after replaced entry entry.hash before ≡ some entry
found_after none entry before = ground arith
found_after (some old) entry before = ground arith

module _ (fl : Float) (env : Hasher) where
  accept_rejected :
      (api : EthApi fl) (uo : UserOperation) (l : List PoolEntry) (e : RpcError)
      → Represents api.op_pool l
      → (accept fl env api uo).1 ≡ err e
      → (accept fl env api uo).0.op_pool ≡ api.op_pool
  unfolding accept
  accept_rejected api uo l e r h =
      elim (Result-cases (validate_sync fl api.validator (some api.op_pool) uo api.base_fee).1) [
        | inr (x, bad) ↦ ground (arith, bad)
        | inl (_, good) ↦ elim (Result-cases (add env api.op_pool uo api.base_fee).1) [
          | inr (x, full) ↦ ground (arith, add_atomic env api.op_pool l r uo api.base_fee x full)
          | inl (hash, added) ↦ ground arith
        ]
      ]

  -- A submission that is refused, for whatever reason, leaves the pool as it was.
  pub send_user_operation_rejected :
      (api : EthApi fl) (uo : UserOperation) (entry_point : ℕ) (l : List PoolEntry) (e : RpcError)
      → Represents api.op_pool l
      → (send_user_operation fl env api uo entry_point).1 ≡ err e
      → (send_user_operation fl env api uo entry_point).0.op_pool ≡ api.op_pool
  unfolding send_user_operation
  send_user_operation_rejected api uo entry_point l e r h =
      elim (Bool-cases (is_entry_point api.chain_spec entry_point)) [
        | inl known ↦
            ground (
              arith,
              accept_rejected api (Op.set_context env uo entry_point api.chain_spec.id) l e r,
            )
        | inr unknown ↦ ground arith
      ]

  pub accept_accepted :
      (api : EthApi fl) (uo : UserOperation) (l : List PoolEntry) (h : ℕ)
      → Represents api.op_pool l
      → (accept fl env api uo).1 ≡ ok h
      → (h ≡ Op.hash env uo)
        × (get_by_hash (accept fl env api uo).0.op_pool h
            ≡ some (new_entry env uo api.base_fee api.op_pool.next_sequence))
        × ((accept fl env api uo).0.chain_spec ≡ api.chain_spec)
  unfolding accept new_entry
  accept_accepted api uo l h r done =
      elim (Result-cases (validate_sync fl api.validator (some api.op_pool) uo api.base_fee).1) [
        | inr (x, bad) ↦ ground (arith, bad)
        | inl (_, good) ↦ elim (Result-cases (add env api.op_pool uo api.base_fee).1) [
          | inr (x, full) ↦ ground arith
          | inl (hash, added) ↦ ground (
            arith,
            good,
            added,
            add_found env api.op_pool l r uo api.base_fee hash hash added,
            found_after (get_by_id api.op_pool (Op.id uo))
                (new_entry env uo api.base_fee api.op_pool.next_sequence)
                (get_by_hash api.op_pool hash),
          )
        ]
      ]

  pub send_to_entry_point :
      (api : EthApi fl) (uo : UserOperation) (entry_point : ℕ)
      → is_entry_point api.chain_spec entry_point ≡ true
      → send_user_operation fl env api uo entry_point
        ≡ accept fl env api (Op.set_context env uo entry_point api.chain_spec.id)
  unfolding send_user_operation
  send_to_entry_point api uo entry_point known = ground arith

  pub accepted_entry_point :
      (api : EthApi fl) (uo : UserOperation) (entry_point h : ℕ)
      → (send_user_operation fl env api uo entry_point).1 ≡ ok h
      → is_entry_point api.chain_spec entry_point ≡ true
  unfolding send_user_operation
  accepted_entry_point api uo entry_point h done = ground arith

  hash-set_context :
      (uo : UserOperation) (entry_point chain_id : ℕ)
      → let uo' = Op.set_context env uo entry_point chain_id in
        Op.hash env uo' ≡ Op.compute_hash env uo'
  unfolding Op.hash Op.set_context Op.with_hash Op.compute_hash pack
  hash-set_context uo entry_point chain_id = refl

  get_user_operation_by_hash_found :
      (api : EthApi fl) (h : ℕ) (entry : PoolEntry)
      → get_by_hash api.op_pool h ≡ some entry
      → get_user_operation_by_hash fl api h
        ≡ some (record {
          user_operation = entry.uo;
          entry_point = api.chain_spec.entry_point_v0_7;
          block_number = none;
          block_hash = none;
          transaction_hash = none;
        })
  unfolding get_user_operation_by_hash
  get_user_operation_by_hash_found api h entry found = ground arith

  -- An accepted submission returns the hash of the operation in the context of the entry point and
  -- chain, and asking for this hash answers the operation, with the entry point that it was sent to.
  pub send_user_operation_accepted :
      (api : EthApi fl) (uo : UserOperation) (entry_point : ℕ) (l : List PoolEntry) (h : ℕ)
      → Represents api.op_pool l
      → (send_user_operation fl env api uo entry_point).1 ≡ ok h
      → let uo' = Op.set_context env uo entry_point api.chain_spec.id in
        (h ≡ Op.compute_hash env uo')
        × (get_user_operation_by_hash fl (send_user_operation fl env api uo entry_point).0 h
            ≡ some (record {
              user_operation = uo';
              entry_point = entry_point;
              block_number = none;
              block_hash = none;
              transaction_hash = none;
            }))
  unfolding is_entry_point new_entry
  send_user_operation_accepted api uo entry_point l h r done =
      let uo' = Op.set_context env uo entry_point api.chain_spec.id in
      let known = accepted_entry_point api uo entry_point h done in
      let sent = send_to_entry_point api uo entry_point known in
      let (same, found, spec) = accept_accepted api uo' l h r (ap (λ x. x.1) (sym sent) ∙ done) in
      let entry = new_entry env uo' api.base_fee api.op_pool.next_sequence in
      let answer = get_user_operation_by_hash_found (accept fl env api uo').0 h entry found in
      let ep : entry_point ≡ api.chain_spec.entry_point_v0_7 = ground arith in
      (same ∙ hash-set_context uo entry_point api.chain_spec.id, cc (sent, answer, spec, ep))

  accept_known :
      (api : EthApi fl) (uo : UserOperation) (entry : PoolEntry)
      → get_by_hash api.op_pool (Op.hash env uo) ≡ some entry
      → ((h : ℕ) → (accept fl env api uo).1 ≢ ok h)
        × ((accept fl env api uo).0.op_pool ≡ api.op_pool)
  unfolding accept add get_by_hash
  accept_known api uo entry known =
      elim (Result-cases (validate_sync fl api.validator (some api.op_pool) uo api.base_fee).1) [
        | inr (x, bad) ↦ ground (arith, bad)
        | inl (_, good) ↦ ground (arith, good)
      ]

  -- The same submission is not accepted twice in a row: the second one is refused, and it leaves
  -- the pool as the first one made it.
  pub send_user_operation_twice :
      (api : EthApi fl) (uo : UserOperation) (entry_point : ℕ) (l : List PoolEntry) (h k : ℕ)
      → Represents api.op_pool l
      → (send_user_operation fl env api uo entry_point).1 ≡ ok h
      → let api' = (send_user_operation fl env api uo entry_point).0 in
        ((send_user_operation fl env api' uo entry_point).1 ≢ ok k)
        × ((send_user_operation fl env api' uo entry_point).0.op_pool ≡ api'.op_pool)
  send_user_operation_twice api uo entry_point l h k r done =
      let uo' = Op.set_context env uo entry_point api.chain_spec.id in
      let known = accepted_entry_point api uo entry_point h done in
      let sent = send_to_entry_point api uo entry_point known in
      let (same, found, spec) = accept_accepted api uo' l h r (ap (λ x. x.1) (sym sent) ∙ done) in
      let api' = (accept fl env api uo').0 in
      let again =
        send_to_entry_point api' uo entry_point
          (ap (λ c. is_entry_point c entry_point) spec ∙ known) in
      let (refused, kept) =
        accept_known api' uo' (new_entry env uo' api.base_fee api.op_pool.next_sequence)
          (ap (get_by_hash api'.op_pool) (sym same) ∙ found) in
      ((λ e. refused k (cc (e, again, sent, spec))), cc (kept, again, sent, spec))
