-- ===== src/Pool/Status.antt =====
-- The lifecycle status of operations (crates/pool/src/status.rs). The clock is an argument of each
-- call: `now` is what `Instant::now()` returns, and `duration_since` is 0 for a later instant.
use bunzo.Prelude.{
  ℕ, ◌-◌, ◌≤◌, ◌≡◌, Bool, [], Option, none, some, arith, ltb, if◌then◌else◌, length, ℕ_discrete,
  ◌==◌,
}
use bunzo.Prelude.Maps.{
  HashMap, get, insert, retain, UniqueKeys, get-insert, get-retain, insert-UniqueKeys,
}
use Prim.Native.String.{String}

pub data UserOpStatus : Type 0 where
  received validated pooled submitted included finalized failed : UserOpStatus

pub record StatusEntry : Type 0 where
  pub status : UserOpStatus
  pub updated_at : ℕ
  pub detail : Option String

pub record StatusTracker : Type 0 where
  pub entries : HashMap ℕ StatusEntry
  pub ttl : ℕ

unfoldable pub new : ℕ → StatusTracker
new ttl = record { entries = []; ttl = ttl }

unfoldable pub set_status : ℕ → StatusTracker → ℕ → UserOpStatus → StatusTracker
set_status now t hash status = record t {
  entries =
      insert ℕ_discrete hash (record { status = status; updated_at = now; detail = none })
        t.entries;
}

unfoldable pub set_status_with_detail :
    ℕ → StatusTracker → ℕ → UserOpStatus → String → StatusTracker
set_status_with_detail now t hash status detail = record t {
  entries =
      insert ℕ_discrete hash (record { status = status; updated_at = now; detail = some detail })
        t.entries;
}

unfoldable pub get_status : StatusTracker → ℕ → Option UserOpStatus
get_status t hash = elim (get ℕ_discrete hash t.entries) [ none ↦ none | some e ↦ some e.status ]

unfoldable pub get_status_detail : StatusTracker → ℕ → Option (UserOpStatus × Option String)
get_status_detail t hash = elim (get ℕ_discrete hash t.entries) [
  | none ↦ none
  | some e ↦ some (e.status, e.detail)
]

unfoldable pub cleanup : ℕ → StatusTracker → StatusTracker
cleanup now t = record t {
  entries = retain (λ e. e) (λ e. ltb (now - e.updated_at) t.ttl) t.entries;
}

unfoldable pub len : StatusTracker → ℕ
len t = length t.entries

unfoldable pub is_empty : StatusTracker → Bool
is_empty t = length t.entries == 0

-- A status is readable from the moment it is set until its age reaches the time to live: after
-- `set_status` at one instant and `cleanup` at a later one, the hash has the new status if less
-- time than `ttl` passed, and none otherwise. No other hash is affected by the setting.
pub get_status-cleanup-set_status :
    (t : StatusTracker) (then' now hash k : ℕ) (s : UserOpStatus)
    → UniqueKeys ℕ_discrete t.entries
    → then' ≤ now
    → get_status (cleanup now (set_status then' t hash s)) k ≡ (
        if hash == k
        then (if ltb (now - then') t.ttl then some s else none)
        else get_status (cleanup now t) k)
unfolding get_status cleanup set_status
get_status-cleanup-set_status t then' now hash k s u later =
    let entry : StatusEntry = record { status = s; updated_at = then'; detail = none } in
    let test : StatusEntry → Bool = λ e. ltb (now - e.updated_at) t.ttl in
    let inserted = insert ℕ_discrete hash entry t.entries in
    ground (
      arith,
      get-retain ℕ_discrete (λ e. e) test k inserted
          (insert-UniqueKeys ℕ_discrete hash entry t.entries u),
      get-retain ℕ_discrete (λ e. e) test k t.entries u,
      get-insert ℕ_discrete hash k entry t.entries,
    )
