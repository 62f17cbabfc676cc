-- ===== src/Builder/Conflict/Exact.antt =====
-- What the conflict detector reports (crates/builder/src/conflict.rs, `check_conflicts`).
use bunzo.Prelude.{
  ℕ, ◌≡◌, refl, ◌⊎◌, inl, inr, true, List, [], ◌∷◌, ◌++◌, some, arith, In, In-keep, keep-In, subst,
  Option-cases,
}
use bunzo.Prelude.Maps.{HashMap}
use bunzo.Builder.Conflict.{
  Slot, AccessType, read, write, StorageAccess, ConflictDetector, other_sender, slot_conflicts,
  slots_conflicts, check_conflicts,
}
use bunzo.Builder.Conflict.Recorded.{touching, writer}

pub In-append_left : (x : ℕ) (xs ys : List ℕ) → In x xs → In x (xs ++ ys)
In-append_left x [] ys m = elim m [ ]
In-append_left x (y ∷ xs) ys (inl e) = inl e
In-append_left x (y ∷ xs) ys (inr m) = inr (In-append_left x xs ys m)

pub In-append_right : (x : ℕ) (xs ys : List ℕ) → In x ys → In x (xs ++ ys)
In-append_right x [] ys m = m
In-append_right x (y ∷ xs) ys m = inr (In-append_right x xs ys m)

pub In-append : (x : ℕ) (xs ys : List ℕ) → In x (xs ++ ys) → In x xs ⊎ In x ys
In-append x [] ys m = inr m
In-append x (y ∷ xs) ys (inl e) = inl (inl e)
In-append x (y ∷ xs) ys (inr m) = elim (In-append x xs ys m) [ inl a ↦ inl (inr a) | inr b ↦ inr b ]

-- The recorded operations that clash with an access to a slot: for a write all that touched it, for
-- a read the one that is remembered as its writer.
abbrev pub Clashes : ConflictDetector → Slot → AccessType → ℕ → Type 0
Clashes d key write idx = In idx (touching d key)
Clashes d key read idx = writer d key ≡ some idx

slot_conflicts_exact :
    (d : ConflictDetector) (sender idx : ℕ) (key : Slot) (access : AccessType)
    → (In idx (slot_conflicts d sender key access)
        → Clashes d key access idx × (other_sender d.senders sender idx ≡ true))
      × (Clashes d key access idx
          → other_sender d.senders sender idx ≡ true
          → In idx (slot_conflicts d sender key access))
unfolding slot_conflicts
slot_conflicts_exact d sender idx key write = (
  In-keep (other_sender d.senders sender) (touching d key) idx,
  keep-In (other_sender d.senders sender) (touching d key) idx,
)
slot_conflicts_exact d sender idx key read = elim (Option-cases (writer d key)) [
  | inl e ↦ (ground arith, ground arith)
  | inr (w, e) ↦ (ground arith, ground arith)
]

-- `check_conflicts` reports an index exactly when it belongs to another sender and clashes with the
-- access to some slot of the operation: it touched a slot that is written, or it is the remembered
-- writer of a slot that is read.
pub check_conflicts_clashing :
    (d : ConflictDetector) (sender idx : ℕ) (access : StorageAccess)
    → (In idx (check_conflicts d sender access)
        → (other_sender d.senders sender idx ≡ true)
          × (key : Slot) × (kind : AccessType) × In (key, kind) access.slots
          × Clashes d key kind idx)
      × ((key : Slot) (kind : AccessType)
          → In (key, kind) access.slots
          → Clashes d key kind idx
          → other_sender d.senders sender idx ≡ true
          → In idx (check_conflicts d sender access))
unfolding check_conflicts slots_conflicts
check_conflicts_clashing d sender idx access = (sound access.slots, complete access.slots)
  where
    sound :
        (slots : HashMap Slot AccessType)
        → In idx (slots_conflicts d sender slots)
        → (other_sender d.senders sender idx ≡ true)
          × (key : Slot) × (kind : AccessType) × In (key, kind) slots
          × Clashes d key kind idx
    sound [] m = elim m [ ]
    sound ((key, kind) ∷ slots) m =
        elim (In-append idx (slot_conflicts d sender key kind) (slots_conflicts d sender slots) m) [
          | inl a ↦
              let (clash, other) = (slot_conflicts_exact d sender idx key kind).0 a in
              (other, key, kind, inl refl, clash)
          | inr b ↦
              let (other, key', kind', there, clash) = sound slots b in
              (other, key', kind', inr there, clash)
        ]

    complete :
        (slots : HashMap Slot AccessType) (key : Slot) (kind : AccessType)
        → In (key, kind) slots
        → Clashes d key kind idx
        → other_sender d.senders sender idx ≡ true
        → In idx (slots_conflicts d sender slots)
    complete [] key kind m clash other = elim m [ ]
    complete ((k, a) ∷ slots) key kind (inl e) clash other =
        In-append_left idx (slot_conflicts d sender k a) (slots_conflicts d sender slots) (
          (slot_conflicts_exact d sender idx k a).1 (subst (λ x. Clashes d x.0 x.1 idx) e clash)
            other)
    complete ((k, a) ∷ slots) key kind (inr m) clash other =
        In-append_right idx (slot_conflicts d sender k a) (slots_conflicts d sender slots)
          (complete slots key kind m clash other)
