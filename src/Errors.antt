-- ===== src/Errors.antt =====
-- kvtsjl.exceptions: what an operation raises, as a value, and the classes that handlers test.
-- `failed` is an exception of a medium, which the library passes on; its argument is opaque. The
-- messages are not modelled. `failures` maps a target's label to what it raised.
use kvtsjl.Prelude.{ℕ, ◌≡◌, refl, ◌⊎◌, inl, inr, String, Bool, true, false}

mutual
  pub data Exn : Type 0 where
    value_error type_error key_error assertion_error not_implemented : Exn
    failed : ℕ → Exn
    store_error serde_error read_only scope_error compose_error index_error : Exn
    unsupported scan_unsupported ttl_unsupported index_unsupported : Exn
    uncommitted partial_sync : Failures → Exn

  pub data Failures : Type 0 where
    none_failed : Failures
    failure : String → Exn → Failures → Failures

-- `isinstance(exc, KvStoreUnsupported)`
unfoldable pub is_unsupported : Exn → Bool
is_unsupported unsupported = true
is_unsupported scan_unsupported = true
is_unsupported ttl_unsupported = true
is_unsupported index_unsupported = true
is_unsupported _ = false

-- `isinstance(exc, UncommittedWriteError)`
unfoldable pub is_uncommitted : Exn → Bool
is_uncommitted (uncommitted _) = true
is_uncommitted _ = false

-- `isinstance(exc, PartialSyncError)`
unfoldable pub is_partial_sync : Exn → Bool
is_partial_sync (partial_sync _) = true
is_partial_sync _ = false

-- `isinstance(exc, RecordWriteError)`
unfoldable pub is_record_write_error : Exn → Bool
is_record_write_error (uncommitted _) = true
is_record_write_error (partial_sync _) = true
is_record_write_error _ = false

pub data Result {ℓ} (A : Type ℓ) : Type ℓ where
  ok : A → Result A
  raise : Exn → Result A

pub Result-cases {ℓ} :
    {A : Type ℓ} (r : Result A) → ((a : A) × (r ≡ ok a)) ⊎ ((exn : Exn) × (r ≡ raise exn))
Result-cases (ok a) = inl (a, refl)
Result-cases (raise exn) = inr (exn, refl)

pub ok-injective {ℓ} : {A : Type ℓ} {a b : A} → ok a ≡ ok b → a ≡ b
ok-injective same = cc

-- The first exception ends a chain of results.
infixl 5 ◌>>=◌ ◌>>◌
abbrev pub ◌>>=◌ {ℓ κ} : {B : Type κ} {A : Type ℓ} → Result A → (A → Result B) → Result B
raise exn >>= next = raise exn
ok value >>= next = next value

abbrev pub ◌>>◌ {ℓ} : {C : Type ℓ} → Result (Unit {0}) → Result C → Result C
first >> second = first >>= λ _. second

-- A result that a chain ends in was handed on by its first step.
pub bind-ok :
    {A C : Type 0} (r : Result A) (next : A → Result C) (c : C)
    → (r >>= next) ≡ ok c
    → (a : A) × (r ≡ ok a) × (next a ≡ ok c)
bind-ok (ok a) next c p = (a, refl, p)
bind-ok (raise exn) next c p = absurd cc
