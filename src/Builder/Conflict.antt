-- ===== src/Builder/Conflict.antt =====
-- crates/builder/src/conflict.rs: which operations of a bundle touch the same storage. A slot is an
-- address and a slot number; the `HashSet` of the answer is a list, in which an index may occur more
-- than once.
pub mod Recorded
pub mod Exact
pub mod History
use bunzo.Prelude.{
  ℕ, zero, suc, ◌+◌, ◌==◌, ◌≡◌, refl, ◌≢◌, Bool, true, false, List, [], ◌∷◌, ◌++◌, map, Option,
  none, some, arith, not, ite, dite, if◌then◌else◌, length, get_elem?, unwrap_or, keep, ℕ_discrete,
  ap,
}
use bunzo.Prelude.Maps.{HashMap, get, insert}

pub record Slot : Type 0 where
  pub address : ℕ
  pub slot : ℕ

unfoldable pub slot_discrete : Discrete Slot
unfolding ℕ_discrete
slot_discrete a b = elim (ℕ_discrete a.address b.address) [
  | no n ↦ no (λ e. n (ap (λ x. x.address) e))
  | yes p ↦ elim (ℕ_discrete a.slot b.slot) [
    | no n ↦ no (λ e. n (ap (λ x. x.slot) e))
    | yes q ↦ yes (λ i. record { address = p i; slot = q i })
  ]
]

pub data AccessType : Type 0 where
  read write : AccessType

-- `StorageAccess`.
pub record StorageAccess : Type 0 where
  pub slots : HashMap Slot AccessType

-- `entry(..).or_insert(Read)`.
unfoldable pub record_read : StorageAccess → Slot → StorageAccess
record_read access key = elim (get slot_discrete key access.slots) [
  | none ↦ record { slots = insert slot_discrete key read access.slots }
  | some _ ↦ access
]

unfoldable pub record_write : StorageAccess → Slot → StorageAccess
record_write access key = record { slots = insert slot_discrete key write access.slots }

abbrev pub is_write : AccessType → Bool
is_write read = false
is_write write = true

unfoldable pub written_slots : StorageAccess → List Slot
written_slots access = map (λ e. e.0) (keep (λ e. is_write e.1) access.slots)

pub record ConflictDetector : Type 0 where
  pub accessed : HashMap Slot (List ℕ)
  pub written : HashMap Slot ℕ
  pub senders : List ℕ

abbrev pub new : ConflictDetector
new = record { accessed = []; written = []; senders = [] }

-- `senders[idx] != sender`; the indices of the maps are in range.
unfoldable pub other_sender : List ℕ → ℕ → ℕ → Bool
other_sender senders sender idx = not (unwrap_or (get_elem? senders idx) sender == sender)

-- One round of the loop of `check_conflicts`: the conflicts on one slot.
unfoldable pub slot_conflicts : ConflictDetector → ℕ → Slot → AccessType → List ℕ
slot_conflicts d sender key write =
    keep (other_sender d.senders sender) (unwrap_or (get slot_discrete key d.accessed) [])
slot_conflicts d sender key read = elim (get slot_discrete key d.written) [
  | none ↦ []
  | some writer_idx ↦ keep (other_sender d.senders sender) (writer_idx ∷ [])
]

unfoldable pub slots_conflicts : ConflictDetector → ℕ → HashMap Slot AccessType → List ℕ
unfolding slot_conflicts
slots_conflicts d sender [] = []
slots_conflicts d sender ((key, access_type) ∷ slots) =
    slot_conflicts d sender key access_type ++ slots_conflicts d sender slots

unfoldable pub check_conflicts : ConflictDetector → ℕ → StorageAccess → List ℕ
unfolding slots_conflicts
check_conflicts d sender access = slots_conflicts d sender access.slots

-- One round of the loop of `add_operation`.
unfoldable pub add_slot : ConflictDetector → ℕ → Slot → AccessType → ConflictDetector
add_slot d idx key access_type = record d {
  accessed =
      insert slot_discrete key (unwrap_or (get slot_discrete key d.accessed) [] ++ (idx ∷ []))
        d.accessed;
  written = if is_write access_type then insert slot_discrete key idx d.written else d.written;
}

unfoldable pub add_slots : ConflictDetector → ℕ → HashMap Slot AccessType → ConflictDetector
unfolding add_slot
add_slots d idx [] = d
add_slots d idx ((key, access_type) ∷ slots) = add_slots (add_slot d idx key access_type) idx slots

unfoldable pub add_operation : ConflictDetector → ℕ → StorageAccess → ConflictDetector × ℕ
unfolding add_slots
add_operation d sender access =
    let idx = length d.senders in
    (add_slots (record d { senders = d.senders ++ (sender ∷ []) }) idx access.slots, idx)

unfoldable pub reset : ConflictDetector → ConflictDetector
reset d = record { accessed = []; written = []; senders = [] }
