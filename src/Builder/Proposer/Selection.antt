-- ===== src/Builder/Proposer/Selection.antt =====
-- What a proposed bundle holds (crates/builder/src/proposer.rs, `make_bundle`).
use Prim.Native.String.{String}
use mathlib.Core.List.{Perm, Sublist, map-append}
use mathlib.Core.List.Perm
use mathlib.Core.List.Sublist
use bunzo.Prelude.{
  ℕ, zero, suc, ◌+◌, ◌≤◌, ◌≡◌, refl, ◌≢◌, ◌⊎◌, inl, inr, Bool, true, subst, List, [], ◌∷◌, ◌++◌,
  some, arith, map, append_assoc, sym, ap, ◌∙◌, length, In, get_elem?, Option-cases, length-append,
  length-keep-le, In-keep,
}
use bunzo.Prelude.Result.{Result, ok, Result-cases}
use bunzo.Types.Gas.{GasFees, covers}
use bunzo.Types.UserOperation as Op
use bunzo.Pool.Entry.{PoolEntry}
use bunzo.Pool.Store.{best_operations}
use bunzo.Pool.Represents.{Represents}
use bunzo.Pool.Best.{best_operations_best}
use bunzo.Builder.Proposer.{
  Answers, BundleProposer, Bundle, RejectedOp, ProposerError, Outcome, done, failed, packed,
  bundle_of, finish, attempt_once, retry, propose, candidates, make_bundle, remove_at,
}

pub Outcome-cases :
    (o : Outcome)
    → ((r : Result ProposerError Bundle) × (o ≡ done r))
      ⊎ ((i : ℕ) × (reason : String) × (o ≡ failed i reason))
Outcome-cases (done r) = inl (r, refl)
Outcome-cases (failed i reason) = inr (i, reason, refl)

abbrev pub rejected_hashes : List RejectedOp → List ℕ
rejected_hashes rejected = map (λ x. x.hash) rejected

abbrev pub entry_hashes : List PoolEntry → List ℕ
entry_hashes entries = map (λ e. e.hash) entries

-- A bundle is made of kept operations out of a list, in its order, and rejects the others: the kept
-- and the dropped ones together are the list up to its order, each as often, and the rejections name
-- the dropped ones.
pub record IsMadeOf (start : List PoolEntry) (limit : ℕ) (b : Bundle) : Type 0 where
  pub kept : List PoolEntry
  pub some_left : kept ≢ []
  pub packs : b.ops ≡ packed kept
  pub from_start : (e : PoolEntry) → In e kept → In e start
  pub all_counted : length kept + length b.rejected_ops ≡ length start
  pub few_rejected : length b.rejected_ops ≤ limit
  pub dropped : List PoolEntry
  pub splits : Perm (dropped ++ kept) start
  pub in_order : Sublist kept start
  pub names_dropped : rejected_hashes b.rejected_ops ≡ entry_hashes dropped

-- What holds of the operations and the rejections before an attempt.
record Inv (start : List PoolEntry) (used : ℕ) (ops : List PoolEntry) (rejected : List RejectedOp)
    : Type 0 where
  from_start : (e : PoolEntry) → In e ops → In e start
  all_counted : length ops + length rejected ≡ length start
  few_rejected : length rejected ≤ used
  dropped : List PoolEntry
  splits : Perm (dropped ++ ops) start
  in_order : Sublist ops start
  names_dropped : rejected_hashes rejected ≡ entry_hashes dropped

In-remove_at : (i : ℕ) (xs : List PoolEntry) (e : PoolEntry) → In e (remove_at i xs) → In e xs
unfolding remove_at
In-remove_at i [] e m = m
In-remove_at zero (x ∷ xs) e m = inr m
In-remove_at (suc i) (x ∷ xs) e (inl h) = inl h
In-remove_at (suc i) (x ∷ xs) e (inr m) = inr (In-remove_at i xs e m)

length-remove_at :
    (i : ℕ) (xs : List PoolEntry) (e : PoolEntry)
    → get_elem? xs i ≡ some e
    → suc (length (remove_at i xs)) ≡ length xs
unfolding remove_at
length-remove_at i [] e h = cc
length-remove_at zero (x ∷ xs) e h = refl
length-remove_at (suc i) (x ∷ xs) e h = omega (arith, length-remove_at i xs e h)

remove_at-Perm :
    (i : ℕ) (xs : List PoolEntry) (e : PoolEntry)
    → get_elem? xs i ≡ some e
    → Perm (e ∷ remove_at i xs) xs
unfolding remove_at
remove_at-Perm i [] e h = cc
remove_at-Perm zero (x ∷ xs) e h = let same : e ≡ x = ground arith in Perm.cons' same (Perm.refl xs)
remove_at-Perm (suc i) (x ∷ xs) e h =
    Perm.trans (Perm.swap x e (remove_at i xs)) (Perm.cons x (remove_at-Perm i xs e h))

remove_at-Sublist : (i : ℕ) (xs : List PoolEntry) → Sublist (remove_at i xs) xs
unfolding remove_at
remove_at-Sublist i [] = Sublist.refl []
remove_at-Sublist zero (x ∷ xs) = Sublist.cons x (Sublist.refl xs)
remove_at-Sublist (suc i) (x ∷ xs) = Sublist.cons-cons x (remove_at-Sublist i xs)

module _ (start : List PoolEntry) where
  reject-Inv :
      (used idx : ℕ) (ops : List PoolEntry) (rejected : List RejectedOp) (removed : PoolEntry)
      (reason : String)
      → get_elem? ops idx ≡ some removed
      → Inv start used ops rejected
      → Inv start
          (suc used)
          (remove_at idx ops)
          (rejected ++ record { hash = removed.hash; reason = reason } ∷ [])
  reject-Inv used idx ops rejected removed reason found v =
      let x : RejectedOp = record { hash = removed.hash; reason = reason } in
      record {
        from_start = λ e m. v.from_start e (In-remove_at idx ops e m);
        all_counted = omega (
          arith,
          v.all_counted,
          length-remove_at idx ops removed found,
          length-append rejected (x ∷ []),
        );
        few_rejected = omega (arith, v.few_rejected, length-append rejected (x ∷ []));
        dropped = v.dropped ++ (removed ∷ []);
        splits =
            subst (λ ys. Perm ys start)
              (sym (append_assoc v.dropped (removed ∷ []) (remove_at idx ops)))
              (Perm.trans (Perm.append_left v.dropped (remove_at-Perm idx ops removed found))
                v.splits);
        in_order = Sublist.trans (remove_at-Sublist idx ops) v.in_order;
        names_dropped =
            map-append (λ (y : RejectedOp). y.hash) rejected (x ∷ [])
            ∙ ap (λ hs. hs ++ (removed.hash ∷ [])) v.names_dropped
            ∙ sym (map-append (λ (e : PoolEntry). e.hash) v.dropped (removed ∷ []));
      }

  made :
      (used limit : ℕ) (b : BundleProposer) (fees : GasFees) (op : PoolEntry) (ops : List PoolEntry)
      (rejected : List RejectedOp)
      → used ≤ limit
      → Inv start used (op ∷ ops) rejected
      → IsMadeOf start limit (bundle_of b fees (op ∷ ops) rejected)
  unfolding bundle_of
  made used limit b fees op ops rejected h v = record {
    kept = op ∷ ops;
    some_left = λ e. cc;
    packs = refl;
    from_start = v.from_start;
    all_counted = v.all_counted;
    few_rejected = omega (arith, v.few_rejected);
    dropped = v.dropped;
    splits = v.splits;
    in_order = v.in_order;
    names_dropped = v.names_dropped;
  }

  -- A bundle comes from the operations that were tried, by either way out of the loop.
  attempt_once_made :
      (env : Answers) (b : BundleProposer) (fees : GasFees) (attempt used limit : ℕ)
      (ops : List PoolEntry) (rejected : List RejectedOp) (bundle : Bundle)
      → used ≤ limit
      → Inv start used ops rejected
      → attempt_once env b fees attempt ops rejected ≡ done (ok bundle)
      → IsMadeOf start limit bundle
  unfolding attempt_once
  attempt_once_made env b fees attempt used limit [] rejected bundle h v e = cc
  attempt_once_made env b fees attempt used limit (op ∷ ops) rejected bundle h v e =
      let same : bundle_of b fees (op ∷ ops) rejected ≡ bundle = ground arith in
      subst (IsMadeOf start limit) same (made used limit b fees op ops rejected h v)

  finish_made :
      (b : BundleProposer) (fees : GasFees) (used limit : ℕ) (ops : List PoolEntry)
      (rejected : List RejectedOp) (bundle : Bundle)
      → used ≤ limit
      → Inv start used ops rejected
      → finish b fees ops rejected ≡ ok bundle
      → IsMadeOf start limit bundle
  unfolding finish
  finish_made b fees used limit [] rejected bundle h v e = cc
  finish_made b fees used limit (op ∷ ops) rejected bundle h v e =
      let same : bundle_of b fees (op ∷ ops) rejected ≡ bundle = ground arith in
      subst (IsMadeOf start limit) same (made used limit b fees op ops rejected h v)

  retry_made :
      (env : Answers) (b : BundleProposer) (fees : GasFees) (left attempt used limit : ℕ)
      (ops : List PoolEntry) (rejected : List RejectedOp) (bundle : Bundle)
      → used + left ≤ limit
      → Inv start used ops rejected
      → retry env b fees left attempt ops rejected ≡ ok bundle
      → IsMadeOf start limit bundle
  unfolding retry
  retry_made env b fees zero attempt used limit ops rejected bundle h v e =
      elim (Outcome-cases (attempt_once env b fees attempt ops rejected)) [
        | inl (r, o) ↦
            attempt_once_made env b fees attempt used limit ops rejected bundle (omega arith) v
              (ground arith)
        | inr (i, reason, o) ↦
            finish_made b fees used limit ops rejected bundle (omega arith) v (ground arith)
      ]
  retry_made env b fees (suc left) attempt used limit ops rejected bundle h v e =
      elim (Outcome-cases (attempt_once env b fees attempt ops rejected)) [
        | inl (r, o) ↦
            attempt_once_made env b fees attempt used limit ops rejected bundle (omega arith) v
              (ground arith)
        | inr (i, reason, o) ↦ elim (Option-cases (get_elem? ops i)) [
          | inl missing ↦
              finish_made b fees used limit ops rejected bundle (omega arith) v (ground arith)
          | inr (removed, found) ↦
              retry_made env b fees left (suc attempt) (suc used) limit (remove_at i ops)
                (rejected ++ record { hash = removed.hash; reason = reason } ∷ []) bundle
                (omega arith) (reject-Inv used i ops rejected removed reason found v) (ground arith)
        ]
      ]

start-Inv : (start : List PoolEntry) → Inv start 0 start []
start-Inv start = record {
  from_start = λ e m. m;
  all_counted = omega arith;
  few_rejected = omega arith;
  dropped = [];
  splits = Perm.refl start;
  in_order = Sublist.refl start;
  names_dropped = refl;
}

-- A proposed bundle is not empty and packs candidates that were kept, in the order of the
-- candidates. The other candidates, at most one for each retry, are exactly those that its
-- rejections name, by their hashes: kept and dropped candidates together are the candidates up to
-- their order, each as often.
pub make_bundle_made :
    (env : Answers) (b : BundleProposer) (base_fee : ℕ) (bundle : Bundle)
    → env.base_fee ≡ ok base_fee
    → make_bundle env b ≡ ok bundle
    → IsMadeOf (candidates b base_fee) b.max_retries bundle
unfolding make_bundle propose
make_bundle_made env b base_fee bundle asked made = elim (Result-cases env.current_fees) [
  | inr (e, bad) ↦ absurd (ground arith)
  | inl (fees, good) ↦ propose_made env b fees (candidates b base_fee) bundle (ground arith)
]
  where
    propose_made :
        (env : Answers) (b : BundleProposer) (fees : GasFees) (start : List PoolEntry)
        (bundle : Bundle)
        → propose env b fees start ≡ ok bundle
        → IsMadeOf start b.max_retries bundle
    propose_made env b fees [] bundle e = cc
    propose_made env b fees (op ∷ ops) bundle e =
        retry_made (op ∷ ops) env b fees b.max_retries 0 0 b.max_retries (op ∷ ops) [] bundle
          (omega arith) (start-Inv (op ∷ ops)) e

-- A candidate is an operation of the pool whose fees cover the base fee and the minimum tip, and
-- there are at most `max_bundle_size` candidates.
pub candidates_lem :
    (b : BundleProposer) (l : List PoolEntry) (base_fee : ℕ) (e : PoolEntry)
    → Represents b.pool l
    → (length (candidates b base_fee) ≤ b.chain_spec.max_bundle_size)
      × (In e (candidates b base_fee)
          → In e l
            × (covers (Op.gas_fees e.uo) base_fee b.chain_spec.min_max_priority_fee_per_gas ≡ true))
unfolding candidates
candidates_lem b l base_fee e r =
    let (count, _, from_pool, _) = best_operations_best b.pool l r b.chain_spec.max_bundle_size e in
    let best = best_operations b.pool b.chain_spec.max_bundle_size in
    let pays : PoolEntry → Bool =
      λ x. covers (Op.gas_fees x.uo) base_fee b.chain_spec.min_max_priority_fee_per_gas in
    (
      omega (arith, count, length-keep-le pays best),
      λ m. let (inside, paid) = In-keep pays best e m in (from_pool inside, paid),
    )
