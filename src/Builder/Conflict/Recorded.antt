-- ===== src/Builder/Conflict/Recorded.antt =====
-- What the conflict detector remembers (crates/builder/src/conflict.rs, `add_operation` and
-- `check_conflicts`).
use bunzo.Prelude.{
  ℕ, ◌==◌, ◌≡◌, refl, List, [], ◌∷◌, ◌++◌, Option, none, some, arith, ite, if◌then◌else◌, length,
  get_elem?, unwrap_or,
}
use bunzo.Prelude.Maps.{HashMap, get, get-insert, UniqueKeys}
use bunzo.Builder.Conflict.{
  Slot, slot_discrete, AccessType, read, write, StorageAccess, ConflictDetector, other_sender,
  slot_conflicts, slots_conflicts, check_conflicts, add_slot, add_slots, add_operation,
}

-- The operations that are recorded for a slot, and the writer.
abbrev pub touching : ConflictDetector → Slot → List ℕ
touching d key = unwrap_or (get slot_discrete key d.accessed) []

abbrev pub writer : ConflictDetector → Slot → Option ℕ
writer d key = get slot_discrete key d.written

-- What an operation of index `idx` adds to them, by its access to the slot.
abbrev pub touch : Option AccessType → ℕ → List ℕ → List ℕ
touch none idx before = before
touch (some _) idx before = before ++ (idx ∷ [])

abbrev pub write_over : Option AccessType → ℕ → Option ℕ → Option ℕ
write_over none idx before = before
write_over (some read) idx before = before
write_over (some write) idx before = some idx

touching-add_slot :
    (d : ConflictDetector) (idx : ℕ) (key k : Slot) (access : AccessType)
    → touching (add_slot d idx key access) k
      ≡ touch (ite (slot_discrete key k) (some access) none) idx (touching d k)
unfolding add_slot
touching-add_slot d idx key k access =
    ground (arith, get-insert slot_discrete key k (touching d key ++ (idx ∷ [])) d.accessed)

writer-add_slot :
    (d : ConflictDetector) (idx : ℕ) (key k : Slot) (access : AccessType)
    → writer (add_slot d idx key access) k
      ≡ write_over (ite (slot_discrete key k) (some access) none) idx (writer d k)
unfolding add_slot
writer-add_slot d idx key k read = ground arith
writer-add_slot d idx key k write = ground (arith, get-insert slot_discrete key k idx d.written)

touching-add_slots :
    (d : ConflictDetector) (idx : ℕ) (k : Slot) (slots : HashMap Slot AccessType)
    → UniqueKeys slot_discrete slots
    → touching (add_slots d idx slots) k ≡ touch (get slot_discrete k slots) idx (touching d k)
unfolding add_slots get
touching-add_slots d idx k [] u = refl
touching-add_slots d idx k ((key, access) ∷ slots) u = ground (
  arith,
  touching-add_slots (add_slot d idx key access) idx k slots u.1,
  touching-add_slot d idx key k access,
)

writer-add_slots :
    (d : ConflictDetector) (idx : ℕ) (k : Slot) (slots : HashMap Slot AccessType)
    → UniqueKeys slot_discrete slots
    → writer (add_slots d idx slots) k ≡ write_over (get slot_discrete k slots) idx (writer d k)
unfolding add_slots get
writer-add_slots d idx k [] u = refl
writer-add_slots d idx k ((key, access) ∷ slots) u = ground (
  arith,
  writer-add_slots (add_slot d idx key access) idx k slots u.1,
  writer-add_slot d idx key k access,
)

add_slots_senders :
    (d : ConflictDetector) (idx : ℕ) (slots : HashMap Slot AccessType)
    → (add_slots d idx slots).senders ≡ d.senders
unfolding add_slots add_slot
add_slots_senders d idx [] = refl
add_slots_senders d idx ((key, access) ∷ slots) =
    add_slots_senders (add_slot d idx key access) idx slots

-- `add_operation` returns the number of the operations so far as the new index, files the sender
-- under it, appends it to the operations of exactly the slots that the operation accesses, and makes
-- it the writer of exactly those that it writes.
pub add_operation_recorded :
    (d : ConflictDetector) (sender : ℕ) (access : StorageAccess) (k : Slot)
    → UniqueKeys slot_discrete access.slots
    → let (d', idx) = add_operation d sender access in
      (idx ≡ length d.senders)
      × (d'.senders ≡ d.senders ++ (sender ∷ []))
      × (touching d' k ≡ touch (get slot_discrete k access.slots) idx (touching d k))
      × (writer d' k ≡ write_over (get slot_discrete k access.slots) idx (writer d k))
unfolding add_operation
add_operation_recorded d sender access k u =
    let idx = length d.senders in
    let d0 : ConflictDetector = record d { senders = d.senders ++ (sender ∷ []) } in
    (
      refl,
      add_slots_senders d0 idx access.slots,
      touching-add_slots d0 idx k access.slots u,
      writer-add_slots d0 idx k access.slots u,
    )

get_elem?-append : (xs : List ℕ) (x : ℕ) → get_elem? (xs ++ (x ∷ [])) (length xs) ≡ some x
get_elem?-append [] x = refl
get_elem?-append (y ∷ xs) x = get_elem?-append xs x

-- Only the last writer of a slot is remembered. When an operation that writes a slot is added, a
-- later read of that slot by the same sender is reported as free of conflicts, whichever operations
-- of other senders have written the slot before; a read by another sender is reported with the last
-- writer alone.
pub last_writer_only :
    (d : ConflictDetector) (sender reader : ℕ) (access : StorageAccess) (k : Slot)
    → UniqueKeys slot_discrete access.slots
    → get slot_discrete k access.slots ≡ some write
    → check_conflicts (add_operation d sender access).0 reader (record { slots = (k, read) ∷ [] })
      ≡ (if sender == reader then [] else length d.senders ∷ [])
unfolding check_conflicts slots_conflicts slot_conflicts other_sender
last_writer_only d sender reader access k u written =
    let (same, senders, _, last) = add_operation_recorded d sender access k u in
    ground (arith, same, senders, last, written, get_elem?-append d.senders sender)
