-- ===== src/Exec.antt =====
-- Code that changes media and may raise: an action takes the state and returns a result and the
-- state that it leaves, also beside an exception.
use kvtsjl.Prelude.{◌≡◌, refl}
use kvtsjl.Errors.{Exn, Result, ok, raise, ◌>>=◌ as chain}

abbrev pub Exec : Type 0 → Type 0 → Type 0
Exec W A = W → Result A × W

module _ {W A : Type 0} where
  abbrev pub pure : A → Exec W A
  pure a w = (ok a, w)

  abbrev pub throw : Exn → Exec W A
  throw e w = (raise e, w)

  abbrev pub lift : Result A → Exec W A
  lift r w = (r, w)

module _ {W A B : Type 0} where
  abbrev pub continue : Result A → (A → Exec W B) → Exec W B
  continue (ok a) f w = f a w
  continue (raise e) f w = (raise e, w)

  infixl 5 ◌>>=◌ ◌>>◌
  abbrev pub ◌>>=◌ : Exec W A → (A → Exec W B) → Exec W B
  ◌>>=◌ m f w = let r = m w in continue r.0 f r.1

  abbrev pub ◌>>◌ : Exec W A → Exec W B → Exec W B
  m >> k = m >>= λ _. k

-- A step that only computes on what an action returns leaves the state as the action did.
pub continue-lift :
    {W A B : Type 0} (r : Result A) (g : A → Result B) (w : W)
    → continue r (λ a. lift (g a)) w ≡ (chain r g, w)
continue-lift (ok a) g w = refl
continue-lift (raise exn) g w = refl

-- `try: m except Exception as exc: handler(exc)`
abbrev pub handled : {W A : Type 0} → Result A → (Exn → Exec W A) → Exec W A
handled (ok a) h w = (ok a, w)
handled (raise e) h w = h e w

abbrev pub catch : {W A : Type 0} → Exec W A → (Exn → Exec W A) → Exec W A
catch m h w = let r = m w in handled r.0 h r.1
