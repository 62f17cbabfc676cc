-- ===== src/Builder/Conflict/History.antt =====
-- The conflict detector and the operations that were added to it (crates/builder/src/conflict.rs):
-- what `check_conflicts` reports, said of those operations alone.
use mathlib.Core.List.{append-nil, map-append}
use bunzo.Prelude.{
  ℕ, zero, suc, ◌<◌, ◌≡◌, ◌≢◌, refl, ap, sym, subst, ◌∙◌, ◌↔◌, ◌⊎◌, inl, inr, true, List, [], ◌∷◌,
  ◌++◌, some, arith, length, length-append, map, In, All, get_elem?, append_assoc, Option,
  Option-cases,
}
use bunzo.Prelude.Maps.{get, UniqueKeys}
use bunzo.Builder.Conflict.{
  Slot, slot_discrete, AccessType, read, write, StorageAccess, ConflictDetector, other_sender, new,
  add_operation, check_conflicts,
}
use bunzo.Builder.Conflict.Recorded.{touching, writer, touch, write_over, add_operation_recorded}
use bunzo.Builder.Conflict.Exact.{
  Clashes, check_conflicts_clashing, In-append, In-append_left, In-append_right,
}

-- An operation of a bundle, as it is added.
pub record Added : Type 0 where
  pub sender : ℕ
  pub access : StorageAccess

unfoldable pub add_all : ConflictDetector → List Added → ConflictDetector
add_all d [] = d
add_all d (op ∷ ops) = add_all (add_operation d op.sender op.access).0 ops

-- Its access to a slot.
abbrev pub Accesses : Added → Slot → AccessType → Type 0
Accesses op key kind = get slot_discrete key op.access.slots ≡ some kind

-- The operation at the index clashes with an access to a slot: with a write when it accesses the
-- slot at all, with a read when it writes the slot and no later operation does.
abbrev pub ClashesWith : List Added → ℕ → Added → Slot → AccessType → Type 0
ClashesWith ops idx op key write = (kind : AccessType) × Accesses op key kind
ClashesWith ops idx op key read =
    Accesses op key write
    × ((j : ℕ) (later : Added)
        → idx < j
        → get_elem? ops j ≡ some later
        → ¬ Accesses later key write)

-- The operation at the index is another sender's and clashes with one of the accesses.
abbrev pub Conflicts : List Added → ℕ → StorageAccess → ℕ → Type 0
Conflicts ops sender access idx =
    (op : Added) × (get_elem? ops idx ≡ some op)
    × (op.sender ≢ sender)
    × (key : Slot) × (kind : AccessType) × In (key, kind) access.slots
    × ClashesWith ops idx op key kind

snoc-cases :
    (xs : List Added) (x y : Added) (i : ℕ)
    → get_elem? (xs ++ (x ∷ [])) i ≡ some y
    → (get_elem? xs i ≡ some y) ⊎ ((i ≡ length xs) × (x ≡ y))
snoc-cases [] x y zero e = inr (refl, ground arith)
snoc-cases [] x y (suc i) e = absurd (ground arith)
snoc-cases (z ∷ xs) x y zero e = inl e
snoc-cases (z ∷ xs) x y (suc i) e = elim (snoc-cases xs x y i e) [
  | inl old ↦ inl old
  | inr (same, last) ↦ inr (omega (arith, same), last)
]

snoc_old :
    (xs : List Added) (x y : Added) (i : ℕ)
    → get_elem? xs i ≡ some y
    → get_elem? (xs ++ (x ∷ [])) i ≡ some y
snoc_old [] x y i e = absurd (ground arith)
snoc_old (z ∷ xs) x y zero e = e
snoc_old (z ∷ xs) x y (suc i) e = snoc_old xs x y i e

snoc_new : (xs : List Added) (x : Added) → get_elem? (xs ++ (x ∷ [])) (length xs) ≡ some x
snoc_new [] x = refl
snoc_new (z ∷ xs) x = snoc_new xs x

get_elem?-lt : (xs : List Added) (i : ℕ) (y : Added) → get_elem? xs i ≡ some y → i < length xs
get_elem?-lt [] i y e = absurd (ground arith)
get_elem?-lt (z ∷ xs) zero y e = omega arith
get_elem?-lt (z ∷ xs) (suc i) y e = omega (arith, get_elem?-lt xs i y e)

get_elem?-senders :
    (xs : List Added) (i : ℕ) (y : Added)
    → get_elem? xs i ≡ some y
    → get_elem? (map (λ op. op.sender) xs) i ≡ some y.sender
get_elem?-senders [] i y e = absurd (ground arith)
get_elem?-senders (z ∷ xs) zero y e = ground arith
get_elem?-senders (z ∷ xs) (suc i) y e = get_elem?-senders xs i y e

length-senders : (xs : List Added) → length (map (λ op. op.sender) xs) ≡ length xs
length-senders [] = refl
length-senders (x ∷ xs) = omega (arith, length-senders xs)

-- What the detector holds after the operations.
record Holds (ops : List Added) (d : ConflictDetector) : Type 0 where
  senders_are : d.senders ≡ map (λ op. op.sender) ops
  touches :
      (key : Slot) (idx : ℕ)
      → In idx (touching d key)
        ↔ ((op : Added) × (get_elem? ops idx ≡ some op) × ClashesWith ops idx op key write)
  writes :
      (key : Slot) (idx : ℕ)
      → (writer d key ≡ some idx)
        ↔ ((op : Added) × (get_elem? ops idx ≡ some op) × ClashesWith ops idx op key read)

new-Holds : Holds [] new
unfolding get
new-Holds = record {
  senders_are = refl;
  touches = λ key idx. (λ m. elim m [ ], λ (op, e, k). absurd (ground arith));
  writes = λ key idx. (λ e. absurd (ground arith), λ (op, e, k). absurd (ground arith));
}

module _ (ops : List Added) (op : Added) (key : Slot) (j : ℕ) where
  -- One more operation among those that access the slot.
  more_touches :
      (before : List ℕ)
      → (In j before ↔ ((x : Added) × (get_elem? ops j ≡ some x) × ClashesWith ops j x key write))
      → In j (touch (get slot_discrete key op.access.slots) (length ops) before) ↔ (
          (x : Added) × (get_elem? (ops ++ (op ∷ [])) j ≡ some x)
          × ClashesWith (ops ++ (op ∷ [])) j x key write)
  more_touches before (from, to) = elim (Option-cases (get slot_discrete key op.access.slots)) [
    | inl untouched ↦ rw untouched (
        (
          λ m. let (x, e, k) = from m in (x, snoc_old ops op x j e, k),
          λ (x, e, (kind, accesses)). elim (snoc-cases ops op x j e) [
            | inl old ↦ to (x, old, (kind, accesses))
            | inr (at, same) ↦
                let here =
                  ap (λ (y : Added). get slot_discrete key y.access.slots) same ∙ accesses in
                absurd (ground (arith, here, untouched))
          ],
        ))
    | inr (kind, touched) ↦ rw touched (
        (
          λ m. elim (In-append j before (length ops ∷ []) m) [
            | inl old ↦ let (x, e, k) = from old in (x, snoc_old ops op x j e, k)
            | inr last ↦ (
              op,
              subst (λ i. get_elem? (ops ++ (op ∷ [])) i ≡ some op) (only (length ops) last)
                  (snoc_new ops op),
              (kind, touched),
            )
          ],
          λ (x, e, (kind', accesses)). elim (snoc-cases ops op x j e) [
            | inl old ↦ In-append_left j before (length ops ∷ []) (to (x, old, (kind', accesses)))
            | inr (at, same) ↦ In-append_right j before (length ops ∷ []) (inl at)
          ],
        ))
  ]
    where
      only : (n : ℕ) → In j (n ∷ []) → n ≡ j
      only n (inl e) = sym e
      only n (inr m) = elim m [ ]

  -- No later one of the operations writes the slot.
  abbrev NoLater : List Added → Type 0
  NoLater xs =
      (i : ℕ) (later : Added) → j < i → get_elem? xs i ≡ some later → ¬ Accesses later key write

  NoLater-snoc : ¬ Accesses op key write → NoLater ops → NoLater (ops ++ (op ∷ []))
  NoLater-snoc silent none_later i later after e accesses = elim (snoc-cases ops op later i e) [
    | inl old ↦ none_later i later after old accesses
    | inr (at, same) ↦
        silent (ap (λ (y : Added). get slot_discrete key y.access.slots) same ∙ accesses)
  ]

  -- One more operation that does not write the slot.
  silent_writes :
      (before : Option ℕ)
      → ¬ Accesses op key write
      → ((before ≡ some j)
          ↔ ((x : Added) × (get_elem? ops j ≡ some x) × ClashesWith ops j x key read))
      → (before ≡ some j) ↔ (
          (x : Added) × (get_elem? (ops ++ (op ∷ [])) j ≡ some x)
          × ClashesWith (ops ++ (op ∷ [])) j x key read)
  silent_writes before silent (from, to) = (
    λ e.
        let (x, at, (accesses, none_later)) = from e in
        (x, snoc_old ops op x j at, (accesses, NoLater-snoc silent none_later)),
    λ (x, e, (accesses, none_later)). elim (snoc-cases ops op x j e) [
      | inl old ↦ to (
        x,
        old,
        (accesses, λ i later after at. none_later i later after (snoc_old ops op later i at)),
      )
      | inr (at, same) ↦
          absurd (silent (ap (λ (y : Added). get slot_discrete key y.access.slots) same ∙ accesses))
    ],
  )

  -- One more operation that does.
  last_writes :
      Accesses op key write
      → (some (length ops) ≡ some j) ↔ (
          (x : Added) × (get_elem? (ops ++ (op ∷ [])) j ≡ some x)
          × ClashesWith (ops ++ (op ∷ [])) j x key read)
  last_writes written = (
    λ e.
        let at : length ops ≡ j = ground arith in
        (
          op,
          subst (λ i. get_elem? (ops ++ (op ∷ [])) i ≡ some op) at (snoc_new ops op),
          (
            written,
            λ i later after found accesses.
                let within = get_elem?-lt (ops ++ (op ∷ [])) i later found in
                omega (arith, after, at, length-append ops (op ∷ []), within),
          ),
        ),
    λ (x, e, (accesses, none_later)). elim (snoc-cases ops op x j e) [
      | inl old ↦
          absurd (none_later (length ops) op (get_elem?-lt ops j x old) (snoc_new ops op) written)
      | inr (at, same) ↦ ap some (sym at)
    ],
  )

  more_writes :
      (before : Option ℕ)
      → ((before ≡ some j)
          ↔ ((x : Added) × (get_elem? ops j ≡ some x) × ClashesWith ops j x key read))
      → (write_over (get slot_discrete key op.access.slots) (length ops) before ≡ some j) ↔ (
          (x : Added) × (get_elem? (ops ++ (op ∷ [])) j ≡ some x)
          × ClashesWith (ops ++ (op ∷ [])) j x key read)
  more_writes before held = elim (Option-cases (get slot_discrete key op.access.slots)) [
    | inl untouched ↦
        rw untouched (silent_writes before (λ e. absurd (ground (arith, e, untouched))) held)
    | inr (read, touched) ↦
        rw touched (silent_writes before (λ e. absurd (ground (arith, e, touched))) held)
    | inr (write, touched) ↦ rw touched (last_writes touched)
  ]

module _ (ops : List Added) (op : Added) (unique : UniqueKeys slot_discrete op.access.slots) where
  add_operation-Holds :
      (d : ConflictDetector)
      → Holds ops d
      → Holds (ops ++ (op ∷ [])) (add_operation d op.sender op.access).0
  add_operation-Holds d h =
      let cell : Slot = record { address = 0; slot = 0 } in
      let idx : (add_operation d op.sender op.access).1 ≡ length ops =
        (add_operation_recorded d op.sender op.access cell unique).0
        ∙ ap length h.senders_are
        ∙ length-senders ops in
      let recorded = λ (key : Slot). add_operation_recorded d op.sender op.access key unique in
      record {
        senders_are =
            (recorded cell).1
            ∙ ap (λ xs. xs ++ (op.sender ∷ [])) h.senders_are
            ∙ sym (map-append (λ (x : Added). x.sender) ops (op ∷ []));
        touches = λ key j.
            subst
              (λ xs. In j xs ↔ (
                (x : Added) × (get_elem? (ops ++ (op ∷ [])) j ≡ some x)
                × ClashesWith (ops ++ (op ∷ [])) j x key write))
              (sym (
                (recorded key).2 ∙ λ i.
                touch (get slot_discrete key op.access.slots) (idx i) (touching d key)))
              (more_touches ops op key j (touching d key) (h.touches key j));
        writes = λ key j.
            subst
              (λ w. (w ≡ some j) ↔ (
                (x : Added) × (get_elem? (ops ++ (op ∷ [])) j ≡ some x)
                × ClashesWith (ops ++ (op ∷ [])) j x key read))
              (sym (
                (recorded key).3 ∙ λ i.
                write_over (get slot_discrete key op.access.slots) (idx i) (writer d key)))
              (more_writes ops op key j (writer d key) (h.writes key j));
      }

add_all-Holds :
    (done ops : List Added) (d : ConflictDetector)
    → All (λ op. UniqueKeys slot_discrete op.access.slots) ops
    → Holds done d
    → Holds (done ++ ops) (add_all d ops)
unfolding add_all
add_all-Holds done [] d unique h = subst (λ xs. Holds xs d) (sym (append-nil done)) h
add_all-Holds done (op ∷ ops) d unique h =
    subst (λ xs. Holds xs (add_all d (op ∷ ops))) (append_assoc done (op ∷ []) ops)
      (add_all-Holds (done ++ (op ∷ [])) ops (add_operation d op.sender op.access).0 unique.1
        (add_operation-Holds done op unique.0 d h))

-- The test of the sender, on the operation at the index.
other_sender-lem :
    (ops : List Added) (sender idx : ℕ) (op : Added)
    → get_elem? ops idx ≡ some op
    → (other_sender (map (λ x. x.sender) ops) sender idx ≡ true) ↔ (op.sender ≢ sender)
unfolding other_sender
other_sender-lem ops sender idx op e =
    let found = get_elem?-senders ops idx op e in
    (λ other. ground (arith, found, other), λ other. ground (arith, found, other))

-- After any operations were added to a new detector, `check_conflicts` reports an index exactly when
-- it is that of an operation of another sender that clashes with one of the accesses: it accesses a
-- slot that is written, or it writes a slot that is read and no later operation writes it.
pub check_conflicts_exact :
    (ops : List Added) (sender idx : ℕ) (access : StorageAccess)
    → All (λ op. UniqueKeys slot_discrete op.access.slots) ops
    → In idx (check_conflicts (add_all new ops) sender access) ↔ Conflicts ops sender access idx
check_conflicts_exact ops sender idx access unique =
    let d = add_all new ops in
    let h : Holds ops d = add_all-Holds [] ops new unique new-Holds in
    let (sound, complete) = check_conflicts_clashing d sender idx access in
    (
      λ m.
          let (other, key, kind, inside, clash) = sound m in
          let (op, found, clashes) = clash_of d h key kind clash in
          let other' = subst (λ xs. other_sender xs sender idx ≡ true) h.senders_are other in
          (
            op,
            found,
            (other_sender-lem ops sender idx op found).0 other',
            key,
            kind,
            inside,
            clashes,
          ),
      λ (op, found, other, key, kind, inside, clashes).
          let other' =
            subst (λ xs. other_sender xs sender idx ≡ true) (sym h.senders_are)
              ((other_sender-lem ops sender idx op found).1 other) in
          complete key kind inside (clash_from d h key kind op found clashes) other',
    )
  where
    clash_of :
        (d : ConflictDetector) (h : Holds ops d) (key : Slot) (kind : AccessType)
        → Clashes d key kind idx
        → (op : Added) × (get_elem? ops idx ≡ some op) × ClashesWith ops idx op key kind
    clash_of d h key write clash = (h.touches key idx).0 clash
    clash_of d h key read clash = (h.writes key idx).0 clash

    clash_from :
        (d : ConflictDetector) (h : Holds ops d) (key : Slot) (kind : AccessType) (op : Added)
        → get_elem? ops idx ≡ some op
        → ClashesWith ops idx op key kind
        → Clashes d key kind idx
    clash_from d h key write op found clashes = (h.touches key idx).1 (op, found, clashes)
    clash_from d h key read op found clashes = (h.writes key idx).1 (op, found, clashes)
