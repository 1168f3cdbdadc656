-- ===== src/Topology/Loops.antt =====
-- Laws of the loops of src/kvtsjl/keymap_algebra/topology.py: what each step keeps, the loop keeps,
-- and which exceptions the two sides of the commit point let through.
use kvtsjl.Prelude.{String, ◌≡◌, refl, ◌∙◌, Bool, true, false, List, [], ◌∷◌, arith}
use kvtsjl.Errors.{Exn, is_uncommitted, is_partial_sync, is_record_write_error, Result, ok, raise}
use kvtsjl.Exec.{Exec, continue}
use kvtsjl.Topology.Target.{Role, SyncPolicy}
use kvtsjl.Topology.Sync.{committing, committing_error, settle, settle_error}
use kvtsjl.Topology.Write.{for_each}

-- `P` holds of each element.
unfoldable pub Each {ℓ κ} : {A : Type ℓ} → (A → Type κ) → List A → Type κ
Each P [] = Unit
Each P (x ∷ xs) = P x × Each P xs

-- Whatever the state, the action leaves what `view` shows of it.
abbrev pub Keeps : {W X A : Type 0} → (W → X) → Exec W A → Type 0
Keeps {W} view m = (w : W) → view (m w).1 ≡ view w

-- Whatever the state, an exception of the action passes the test.
abbrev pub Raises : {W A : Type 0} → (Exn → Bool) → Exec W A → Type 0
Raises {W} test m = (w : W) (exn : Exn) → (m w).0 ≡ raise exn → test exn ≡ true

module _ {W X : Type 0} (view : W → X) where
  pub continue-Keeps :
      {A B : Type 0} {x : X} (r : Result A) (v : W) (f : A → Exec W B)
      → ((a : A) → Keeps view (f a))
      → view v ≡ x
      → view (continue r f v).1 ≡ x
  continue-Keeps (ok a) v f h p = h a v ∙ p
  continue-Keeps (raise exn) v f h p = p

module _ {W X A : Type 0} (view : W → X) (body : A → Exec W (Unit {0})) where
  pub for_each-Keeps :
      (xs : List A) → Each (λ x. Keeps view (body x)) xs → Keeps view (for_each xs body)
  unfolding for_each Each
  for_each-Keeps [] h w = refl
  for_each-Keeps (x ∷ xs) h w = ground (arith, h.0 w, for_each-Keeps xs h.1 (body x w).1)

module _ {W A : Type 0} (test : Exn → Bool) (body : A → Exec W (Unit {0})) where
  pub for_each-Raises :
      (xs : List A) → Each (λ x. Raises test (body x)) xs → Raises test (for_each xs body)
  unfolding for_each Each
  for_each-Raises [] h w exn p = ground arith
  for_each-Raises (x ∷ xs) h w exn p =
      ground (arith, h.0 w exn, for_each-Raises xs h.1 (body x w).1 exn)

module _ {A : Type 0} (P : A → Type 0) where
  pub Each-of : ((x : A) → P x) → (xs : List A) → Each P xs
  unfolding Each
  Each-of h [] = tt
  Each-of h (x ∷ xs) = (h x, Each-of h xs)

module _ {A : Type 0} {P Q : A → Type 0} where
  pub Each-map : ((x : A) → P x → Q x) → (xs : List A) → Each P xs → Each Q xs
  unfolding Each
  Each-map f [] h = tt
  Each-map f (x ∷ xs) h = (f x h.0, Each-map f xs h.1)

module _ {W : Type 0} where
  pub committing-Raises :
      {A : Type 0} (name : String) (role : Role) (run : Exec W A)
      → Raises is_record_write_error (committing name role run)
  unfolding committing committing_error is_record_write_error
  committing-Raises name role run w exn p = ground arith

  pub committing-Keeps :
      {A X : Type 0} (view : W → X) (name : String) (role : Role) (run : Exec W A)
      → Keeps view run
      → Keeps view (committing name role run)
  unfolding committing
  committing-Keeps view name role run h w = ground (arith, h w)

  pub settle-Keeps :
      {X : Type 0} (view : W → X) (name : String) (policy : SyncPolicy) (b : Bool)
      (run : Exec W (Unit {0}))
      → Keeps view run
      → Keeps view (settle name policy b run)
  unfolding settle
  settle-Keeps view name policy b run h w = ground (arith, h w)

  -- After the commit point only `PartialSyncError` is raised.
  pub settle-Raises :
      (name : String) (policy : SyncPolicy) (run : Exec W (Unit {0}))
      → Raises is_partial_sync (settle name policy false run)
  unfolding settle settle_error is_partial_sync
  settle-Raises name policy run w exn p = ground arith

  pub settle-Raises_before :
      (name : String) (policy : SyncPolicy) (run : Exec W (Unit {0}))
      → Raises is_uncommitted (settle name policy true run)
  unfolding settle settle_error is_uncommitted
  settle-Raises_before name policy run w exn p = ground arith
