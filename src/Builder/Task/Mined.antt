-- ===== src/Builder/Task/Mined.antt =====
-- The operations of a mined bundle leave the pool (crates/builder/src/task.rs,
-- `remove_bundled_ops`).
use bunzo.Prelude.{
  ℕ, ◌≡◌, refl, inl, inr, List, [], ◌∷◌, none, arith, Option-cases, ite, Bool, true, false,
  if◌then◌else◌,
}
use bunzo.Prelude.Maps.{get-remove}
use bunzo.Types.Chain.{ChainSpec}
use bunzo.Types.UserOperation.Packing.{Hasher, PackedUserOperation, UserOperationId, unpack_fields}
use bunzo.Types.UserOperation as Op
use bunzo.Pool.Entry.{PoolEntry, id_discrete}
use bunzo.Pool.Contents.{find_id, id_index, id-find_id, find_hash-find_id, remove-id_index}
use bunzo.Pool.Store.{OperationPool, get_by_id, remove_by_id}
use bunzo.Pool.Represents.{Represents}
use bunzo.Pool.Refines.{spec_remove, remove_by_id_refines}
use bunzo.Builder.Task.{remove_ops}

-- The identifier of a packed operation.
abbrev pub packed_id : PackedUserOperation → UserOperationId
packed_id op = record { sender = op.sender; nonce = op.nonce }

pub id-unpack :
    (env : Hasher) (op : PackedUserOperation) (entry_point chain_id : ℕ)
    → Op.id (Op.unpack env op entry_point chain_id) ≡ packed_id op
unfolding Op.id Op.unpack unpack_fields
id-unpack env op entry_point chain_id = refl

-- The abstract pool without the operation of an identifier.
abbrev without : UserOperationId → List PoolEntry → List PoolEntry
without i l = spec_remove (find_id i l) l

find_id-without :
    (i k : UserOperationId) (l : List PoolEntry) (p : OperationPool)
    → Represents p l
    → find_id k (without i l) ≡ ite (id_discrete i k) none (find_id k l)
unfolding spec_remove
find_id-without i k l p r = elim (Option-cases (find_id i l)) [
  | inl missing ↦ ground arith
  | inr (e, found) ↦ ground (
    arith,
    id-find_id i l e found,
    remove-id_index e.hash l e r.distinct (find_hash-find_id i l e r.distinct found),
    get-remove id_discrete e.id k (id_index l),
  )
]

-- Whether some operation of the bundle has the identifier.
abbrev pub bundled : UserOperationId → List PackedUserOperation → Bool
bundled i [] = false
bundled i (op ∷ ops) = ite (id_discrete (packed_id op) i) true (bundled i ops)

-- After the operations of a mined bundle are removed, the pool answers by identifier as before, but
-- for the identifiers of the bundle, which are gone, and it still represents a list of entries.
pub remove_ops_mined :
    (env : Hasher) (c : ChainSpec) (p : OperationPool) (l : List PoolEntry)
    (ops : List PackedUserOperation) (i : UserOperationId)
    → Represents p l
    → let p' = remove_ops env c p ops in
      (get_by_id p' i ≡ (if bundled i ops then none else get_by_id p i))
      × ((l' : List PoolEntry) × Represents p' l')
unfolding remove_ops get_by_id
remove_ops_mined env c p l [] i r = (refl, (l, r))
remove_ops_mined env c p l (op ∷ ops) i r =
    let r' = (remove_by_id_refines p l r (Op.id (Op.unpack env op c.entry_point_v0_7 c.id))).1 in
    let (answer, rest) =
      remove_ops_mined env c (remove_by_id p (Op.id (Op.unpack env op c.entry_point_v0_7 c.id))).0
        (spec_remove (find_id (Op.id (Op.unpack env op c.entry_point_v0_7 c.id)) l) l) ops i r' in
    (
      ground (
        arith,
        answer,
        r.by_id_is,
        r'.by_id_is,
        id-unpack env op c.entry_point_v0_7 c.id,
        find_id-without (packed_id op) i l p r,
      ),
      rest,
    )
