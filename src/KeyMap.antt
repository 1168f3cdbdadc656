-- ===== src/KeyMap.antt =====
-- src/kvtsjl/keymap.py: versions, conditional writes, and `update`, which decides from what an
-- entry holds and writes only if the entry is still that.
use kvtsjl.Prelude.{
  ℕ, zero, suc, not, Option, none, some, is_none, List, [], ◌∷◌, Eq, contains, filter, ltb,
  if◌then◌else◌,
}
use kvtsjl.Prelude.Dict.{Dict, keys, lookup, insert, dedup}
use kvtsjl.Errors.{value_error, key_error, Result, ok, raise}
use kvtsjl.Exec.{Exec, pure, throw, lift, ◌>>=◌}
use kvtsjl.Ttl.{TtlPolicy}

-- `Versioned`: what a map holds for a key, and a token for exactly that state.
pub record Versioned (V Ver : Type 0) : Type 0 where
  pub value : Option V
  pub version : Option Ver

-- `Versioned.absent()`
abbrev pub absent : {V Ver : Type 0} → Versioned V Ver
absent = record { value = none; version = none }

pub data Change (V : Type 0) : Type 0 where
  put : V → Change V
  remove : Change V

pub data Decision (V : Type 0) : Type 0 where
  keep : Decision V
  change : Change V → Decision V

-- `created_at` is the record's write clock.
pub record ConditionalWrite (V Ver : Type 0) : Type 0 where
  pub seen : Versioned V Ver
  pub change : Change V
  pub created_at : Option ℕ

-- The two halves of a medium's conditional write, as a map's operations on the state `W`.
pub record Conditional (W K V Ver : Type 0) : Type 0 where
  pub batch_read_versioned : List K → Exec W (Dict K (Versioned V Ver))
  pub batch_write_if_unchanged :
      Dict K (ConditionalWrite V Ver) → Option TtlPolicy → Exec W (List K)

-- What `batch_update` returns, or raises as `KvStoreConflict`.
pub data Outcome (K V : Type 0) : Type 0 where
  done : Dict K V → Outcome K V
  conflict : List K → Dict K V → Outcome K V

-- `d[k]`
abbrev pub item : {K V : Type 0} ⦃e : Eq K⦄ → Dict K V → K → Result V
item d k = elim (lookup k d) [ none ↦ raise key_error | some v ↦ ok v ]

abbrev pub get_or {ℓ} : {A : Type ℓ} → A → Option A → A
get_or d none = d
get_or d (some a) = a

-- What is held, and the writes to make.
abbrev pub Plan : Type 0 → Type 0 → Type 0 → Type 0
Plan K V Ver = Dict K V × Dict K (ConditionalWrite V Ver)

module _ {K V : Type 0} ⦃e : Eq K⦄ where
  abbrev pub hold : K → Option V → Dict K V → Dict K V
  hold k none held = held
  hold k (some v) held = insert k v held

  abbrev pub hold_put : K → Change V → Dict K V → Dict K V
  hold_put k (put v) held = insert k v held
  hold_put k remove held = held

  -- `lambda seen: {key: decide(seen[key])}`
  unfoldable pub decide_one :
      K → (Option V → Decision V) → Dict K (Option V) → Result (Dict K (Decision V))
  decide_one key decide seen = elim (lookup key seen) [
    | none ↦ raise key_error
    | some v ↦ ok ((key, decide v) ∷ [])
  ]

  -- `held.get(key)`: `some (some v)` where the entry holds `v` afterwards, `some none` where it
  -- holds nothing, and `none` where `KvStoreConflict` is raised.
  unfoldable pub updated : K → Outcome K V → Option (Option V)
  updated key (done held) = some (lookup key held)
  updated key (conflict lost held) = none

module _ {K V Ver : Type 0} ⦃e : Eq K⦄ where
  -- `{k: seen[k].value for k in pending}`
  unfoldable pub shown : List K → Dict K (Versioned V Ver) → Result (Dict K (Option V))
  shown [] seen = ok []
  shown (k ∷ ks) seen = elim (lookup k seen) [
    | none ↦ raise key_error
    | some current ↦ elim (shown ks seen) [
      | raise exn ↦ raise exn
      | ok rest ↦ ok ((k, current.value) ∷ rest)
    ]
  ]

  -- The body of the loop over `pending`.
  unfoldable pub plan_one :
      Option ℕ → K → Versioned V Ver → Decision V → Plan K V Ver → Plan K V Ver
  plan_one created_at k current keep (held, writes) = (hold k current.value held, writes)
  plan_one created_at k current (change remove) (held, writes) =
      if is_none current.version then (held, writes) else (
        held,
        insert k (record { seen = current; change = remove; created_at = created_at }) writes,
      )
  plan_one created_at k current (change (put v)) (held, writes) =
      (held, insert k (record { seen = current; change = put v; created_at = created_at }) writes)

  unfoldable pub plan :
      Option ℕ
      → List K
      → Dict K (Versioned V Ver)
      → Dict K (Decision V)
      → Plan K V Ver
      → Result (Plan K V Ver)
  unfolding plan_one
  plan created_at [] seen decisions p = ok p
  plan created_at (k ∷ ks) seen decisions p = elim (lookup k seen) [
    | none ↦ raise key_error
    | some current ↦
        plan created_at ks seen decisions
          (plan_one created_at k current (get_or keep (lookup k decisions)) p)
  ]

  -- The loop over `written`.
  unfoldable pub hold_written :
      List K → Dict K (ConditionalWrite V Ver) → Dict K V → Result (Dict K V)
  hold_written [] writes held = ok held
  hold_written (k ∷ ks) writes held = elim (lookup k writes) [
    | none ↦ raise key_error
    | some w ↦ hold_written ks writes (hold_put k w.change held)
  ]

  module _ {W : Type 0} (m : Conditional W K V Ver)
      (decide : Dict K (Option V) → Result (Dict K (Decision V))) (ttl : Option TtlPolicy)
      (created_at : Option ℕ) where
    -- `batch_write_if_unchanged(writes) if writes else set()`
    abbrev pub write_all : Dict K (ConditionalWrite V Ver) → Exec W (List K)
    write_all [] = pure []
    write_all (w ∷ ws) = m.batch_write_if_unchanged (w ∷ ws) ttl

    -- One attempt: what is held after it, and the keys that are still pending.
    unfoldable pub attempt : List K → Dict K V → Exec W (Dict K V × List K)
    unfolding shown plan hold_written
    attempt pending held = do
      seen ← m.batch_read_versioned pending
      values ← lift (shown pending seen)
      decisions ← lift (decide values)
      (held', writes) ← lift (plan created_at pending seen decisions (held, []))
      written ← write_all writes
      held'' ← lift (hold_written written writes held')
      pure (held'', filter (λ k. not (contains written k)) (keys writes))

    unfoldable pub rounds : ℕ → List K → Dict K V → Exec W (Outcome K V)
    unfolding attempt
    rounds zero pending held = pure (conflict pending held)
    rounds (suc attempts) pending held = do
      (held', pending') ← attempt pending held
      elim pending' [ [] ↦ pure (done held') | k ∷ ks ↦ rounds attempts (k ∷ ks) held' ]

    unfoldable pub batch_update : List K → ℕ → Exec W (Outcome K V)
    unfolding rounds
    batch_update ks attempts =
        if ltb attempts 1 then throw value_error else rounds attempts (dedup ks) []

  -- `batch_update` of one key.
  unfoldable pub update :
      {W : Type 0}
      → Conditional W K V Ver
      → K
      → (Option V → Decision V)
      → Option TtlPolicy
      → Option ℕ
      → ℕ
      → Exec W (Option (Option V))
  unfolding batch_update updated
  update m key decide ttl created_at attempts = do
    outcome ← batch_update m (decide_one key decide) ttl created_at (key ∷ []) attempts
    pure (updated key outcome)
