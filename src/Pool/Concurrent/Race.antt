-- ===== src/Pool/Concurrent/Race.antt =====
-- Two threads that add operations of one sender at the same time (crates/pool/src/pool.rs).
use bunzo.Prelude.{
  ℕ, zero, suc, ◌+◌, ◌<◌, ◌≡◌, refl, ap, ◌∙◌, List, [], ◌∷◌, none, some, false, leb, length, arith,
  ℕ_discrete, unwrap_or,
}
use bunzo.Prelude.Words.{u64_mod}
use bunzo.Prelude.Result.{ok}
use bunzo.Prelude.Maps.{get, get-insert}
use bunzo.Types.UserOperation.Packing.{UserOperation, Hasher}
use bunzo.Types.UserOperation as Op
use bunzo.Pool.Entry.{PoolEntry}
use bunzo.Pool.Contents.{count}
use bunzo.Pool.Store.{OperationPool, size, store, increment, get_by_hash, get_by_id}
use bunzo.Pool.Represents.{Represents, size-length}
use bunzo.Pool.Concurrent.{
  Pc, Thread, first, second, check_hash, lookup_id, check_quota, check_size, take_sequence,
  returned, advance, alone, interleave,
}
use bunzo.Pool.Concurrent.Alone.{alone_one_more, alone-take_sequence}
use bunzo.Pool.Concurrent.Branches.{unknown, no_old, some_quota, some_room}

-- A thread takes some steps in a row, and then the others follow.
abbrev pub times : ℕ → Thread → List Thread → List Thread
times zero thread rest = rest
times (suc n) thread rest = thread ∷ times n thread rest

-- Both threads make their checks before either inserts.
abbrev pub both_check_first : List Thread
both_check_first = times 4 first (times 4 second (times 5 first (times 5 second [])))

-- The checks of a new operation with room for it: four steps that change nothing.
alone-checks :
    (env : Hasher) (uo : UserOperation) (base_fee : ℕ) (p : OperationPool)
    → get_by_hash p (Op.hash env uo) ≡ none
    → get_by_id p (Op.id uo) ≡ none
    → leb p.config.max_ops_per_sender
        (unwrap_or (get ℕ_discrete (Op.id uo).sender p.sender_count) 0)
      ≡ false
    → leb p.config.max_size (size p) ≡ false
    → alone env uo base_fee 4 p check_hash ≡ (p, take_sequence)
unfolding get_by_hash get_by_id alone
alone-checks env uo base_fee p fresh absent quota room =
    alone_one_more env uo base_fee 3 p p check_hash lookup_id
      (unknown env uo base_fee p (ground arith))
    ∙ alone_one_more env uo base_fee 2 p p lookup_id check_quota (no_old env uo base_fee p absent)
    ∙ alone_one_more env uo base_fee 1 p p check_quota check_size
        (some_quota env uo base_fee p quota)
    ∙ alone_one_more env uo base_fee 0 p p check_size take_sequence
        (some_room env uo base_fee p room)

module _ (env : Hasher) (uo_first uo_second : UserOperation) (base_fee : ℕ) where
  interleave-first :
      (n : ℕ) (p q : OperationPool) (pc next other : Pc) (rest : List Thread)
      → alone env uo_first base_fee n p pc ≡ (q, next)
      → interleave env uo_first uo_second base_fee
          (record { pool = p; first_pc = pc; second_pc = other })
          (times n first rest)
        ≡ interleave env uo_first uo_second base_fee
            (record { pool = q; first_pc = next; second_pc = other })
            rest
  unfolding interleave alone
  interleave-first zero p q pc next other rest e = λ i.
      interleave env uo_first uo_second base_fee
        (record { pool = (e i).0; first_pc = (e i).1; second_pc = other }) rest
  interleave-first (suc n) p q pc next other rest e =
      let after = advance env uo_first base_fee p pc in
      interleave-first n after.0 q after.1 next other rest e

  interleave-second :
      (n : ℕ) (p q : OperationPool) (pc next other : Pc) (rest : List Thread)
      → alone env uo_second base_fee n p pc ≡ (q, next)
      → interleave env uo_first uo_second base_fee
          (record { pool = p; first_pc = other; second_pc = pc })
          (times n second rest)
        ≡ interleave env uo_first uo_second base_fee
            (record { pool = q; first_pc = other; second_pc = next })
            rest
  unfolding interleave alone
  interleave-second zero p q pc next other rest e = λ i.
      interleave env uo_first uo_second base_fee
        (record { pool = (e i).0; first_pc = other; second_pc = (e i).1 }) rest
  interleave-second (suc n) p q pc next other rest e =
      let after = advance env uo_second base_fee p pc in
      interleave-second n after.0 q after.1 next other rest e

  -- Both threads pass their checks on the same pool, and then insert one after the other.
  both_stored :
      (p : OperationPool)
      → let checked =
          λ (uo : UserOperation). alone env uo base_fee 4 p check_hash ≡ (p, take_sequence) in
        checked uo_first
        → checked uo_second
        → interleave env uo_first uo_second base_fee
            (record { pool = p; first_pc = check_hash; second_pc = check_hash })
            both_check_first
          ≡ record {
            pool = store env (store env p uo_first base_fee) uo_second base_fee;
            first_pc = returned (ok (Op.hash env uo_first));
            second_pc = returned (ok (Op.hash env uo_second));
          }
  unfolding interleave
  both_stored p one two =
      let q = store env p uo_first base_fee in
      let r = store env q uo_second base_fee in
      let done = returned (ok (Op.hash env uo_first)) in
      interleave-first 4 p p check_hash take_sequence check_hash
        (times 4 second (times 5 first (times 5 second []))) one
      ∙ interleave-second 4 p p check_hash take_sequence take_sequence
          (times 5 first (times 5 second [])) two
      ∙ interleave-first 5 p q take_sequence done take_sequence (times 5 second [])
          (alone-take_sequence env uo_first base_fee 0 p)
      ∙ interleave-second 5 q r take_sequence (returned (ok (Op.hash env uo_second))) done []
          (alone-take_sequence env uo_second base_fee 0 q)

-- The counter of a sender after two insertions.
sender_count-store-store :
    (env : Hasher) (p : OperationPool) (uo_first uo_second : UserOperation) (base_fee n : ℕ)
    → (Op.id uo_second).sender ≡ (Op.id uo_first).sender
    → unwrap_or (get ℕ_discrete (Op.id uo_first).sender p.sender_count) 0 ≡ n
    → n + 2 < u64_mod
    → get ℕ_discrete
        (Op.id uo_first).sender
        (store env (store env p uo_first base_fee) uo_second base_fee).sender_count
      ≡ some (n + 2)
unfolding store increment
sender_count-store-store env p uo_first uo_second base_fee n same now fits =
    let s = (Op.id uo_first).sender in
    let once = increment s p.sender_count in
    let one : get ℕ_discrete s once ≡ some (n + 1) =
      ground (arith, get-insert ℕ_discrete s s (n + 1) p.sender_count) in
    ground (arith, one, get-insert ℕ_discrete s s (n + 2) once)

-- A new operation of a sender with one operation less than the quota passes the checks.
new_checked :
    (env : Hasher) (p : OperationPool) (l : List PoolEntry) (uo : UserOperation) (base_fee : ℕ)
    → Represents p l
    → get_by_hash p (Op.hash env uo) ≡ none
    → get_by_id p (Op.id uo) ≡ none
    → count (Op.id uo).sender l < p.config.max_ops_per_sender
    → length l < p.config.max_size
    → alone env uo base_fee 4 p check_hash ≡ (p, take_sequence)
new_checked env p l uo base_fee r fresh absent quota room =
    alone-checks env uo base_fee p fresh absent (ground (arith, r.counted (Op.id uo).sender))
      (ground (arith, size-length p l r))

-- No consistent pool counts a sender above its quota.
over_quota :
    (q : OperationPool) (l : List PoolEntry) (sender : ℕ)
    → get ℕ_discrete sender q.sender_count ≡ some (q.config.max_ops_per_sender + 1)
    → ¬ Represents q l
over_quota q l sender more r = ground (arith, r.counted sender, r.quota sender)

-- Two threads add new operations of one sender that has one operation less than its quota allows,
-- to a consistent pool with room, where the quota is not the highest u64. When both check before
-- either inserts, both calls succeed, the sender is counted with one operation more than its quota,
-- and the pool is no longer a consistent one.
pub race_exceeds_quota :
    (env : Hasher) (uo_first uo_second : UserOperation) (base_fee : ℕ) (p : OperationPool)
    (l : List PoolEntry)
    → Represents p l
    → (Op.id uo_second).sender ≡ (Op.id uo_first).sender
    → get_by_hash p (Op.hash env uo_first) ≡ none
    → get_by_id p (Op.id uo_first) ≡ none
    → get_by_hash p (Op.hash env uo_second) ≡ none
    → get_by_id p (Op.id uo_second) ≡ none
    → count (Op.id uo_first).sender l + 1 ≡ p.config.max_ops_per_sender
    → p.config.max_ops_per_sender + 1 < u64_mod
    → length l < p.config.max_size
    → let s =
        interleave env uo_first uo_second base_fee
          (record { pool = p; first_pc = check_hash; second_pc = check_hash })
          both_check_first in
      (s.first_pc ≡ returned (ok (Op.hash env uo_first)))
      × (s.second_pc ≡ returned (ok (Op.hash env uo_second)))
      × (get ℕ_discrete (Op.id uo_first).sender s.pool.sender_count
          ≡ some (s.pool.config.max_ops_per_sender + 1))
      × ((l' : List PoolEntry) → ¬ Represents s.pool l')
unfolding store
race_exceeds_quota env uo_first uo_second base_fee p l r same fresh absent fresh' absent' one fits
      room =
    let sender = (Op.id uo_first).sender in
    let quota : count (Op.id uo_second).sender l < p.config.max_ops_per_sender =
      rw same (omega (arith, one)) in
    let stored =
      both_stored env uo_first uo_second base_fee p
        (new_checked env p l uo_first base_fee r fresh absent (omega (arith, one)) room)
        (new_checked env p l uo_second base_fee r fresh' absent' quota room) in
    let n = count sender l in
    let counted : get ℕ_discrete sender
          (store env (store env p uo_first base_fee) uo_second base_fee).sender_count
        ≡ some (n + 2) =
      sender_count-store-store env p uo_first uo_second base_fee n same
        (ground (arith, r.counted sender)) (omega (arith, one, fits)) in
    let q = store env (store env p uo_first base_fee) uo_second base_fee in
    let more : get ℕ_discrete sender q.sender_count ≡ some (q.config.max_ops_per_sender + 1) =
      counted ∙ ap some (omega (arith, one)) in
    rw stored (refl, refl, more, λ l'. over_quota q l' sender more)
