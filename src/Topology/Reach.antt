-- ===== src/Topology/Reach.antt =====
-- Writes and removals of src/kvtsjl/keymap_algebra/topology.py that succeed: they have reached
-- every target that the roles name.
use kvtsjl.Prelude.{String, ◌≡◌, refl, sym, subst, Bool, false, Option, none, List, [], ◌∷◌, arith}
use kvtsjl.Errors.{Exn, Result, ok, raise}
use kvtsjl.Exec.{Exec, continue, handled}
use kvtsjl.KeyMap.{get_or}
use kvtsjl.Topology.Target.{Role, SyncPolicy, required, Target}
use kvtsjl.Topology.Sync.{Node, committing, on_media, settle, settle_error, run_sync}
use kvtsjl.Topology.Shape.{Topology, committing_targets, deferred}
use kvtsjl.Topology.Write.{for_each, sync_one, commit_all}
use kvtsjl.Topology.Loops.{Each}

module _ {W B : Type 0} where
  -- An action that succeeds establishes `P`.
  abbrev pub Establishes : (W → Type 0) → Exec W B → Type 0
  Establishes P m = (w : W) (b : B) → (m w).0 ≡ ok b → P (m w).1

  -- Whatever it does, an action leaves `P` true.
  abbrev pub Leaves : (W → Type 0) → Exec W B → Type 0
  Leaves P m = (w : W) → P w → P (m w).1

module _ {W A B : Type 0} where
  pub continue-Leaves :
      (P : W → Type 0) (r : Result A) (f : A → Exec W B)
      → ((a : A) → Leaves P (f a))
      → (w : W) → P w
      → P (continue r f w).1
  continue-Leaves P (ok a) f h w p = h a w p
  continue-Leaves P (raise exn) f h w p = p

module _ {W A : Type 0} (P : A → W → Type 0) where
  abbrev pub Reached : List A → Result (Unit {0}) × W → Type 0
  Reached xs r = r.0 ≡ ok tt → Each (λ x. P x r.1) xs

  continue-Reached :
      (x : A) (xs : List A) (rest : Exec W (Unit {0})) (r : Result (Unit {0})) (w : W)
      → ((b : Unit {0}) → r ≡ ok b → P x w)
      → Leaves (P x) rest
      → Reached xs (rest w)
      → Reached (x ∷ xs) (continue r (λ _. rest) w)
  unfolding Each
  continue-Reached x xs rest (ok b) w h leaves reached done = (leaves w (h b refl), reached done)
  continue-Reached x xs rest (raise exn) w h leaves reached done = absurd (ground arith)

module _ {W A : Type 0} (Good : A → Type 0) (P : A → W → Type 0)
    (body : A → Exec W (Unit {0})) where
  pub for_each-Leaves :
      (x : A)
      → ((y : A) → Good y → Leaves (P x) (body y))
      → (ys : List A) → Each Good ys
      → Leaves (P x) (for_each ys body)
  unfolding for_each Each
  for_each-Leaves x h [] g w p = p
  for_each-Leaves x h (y ∷ ys) g w p =
      continue-Leaves (P x) (body y w).0 (λ _. for_each ys body) (λ _. for_each-Leaves x h ys g.1)
        (body y w).1 (h y g.0 w p)

  -- A loop of actions that each establish their own and leave the others' reaches all.
  pub for_each-Reached :
      (xs : List A)
      → Each Good xs
      → ((x : A) → Good x → Establishes (P x) (body x))
      → ((x y : A) → Good x → Good y → Leaves (P x) (body y))
      → (w : W) → Reached P xs (for_each xs body w)
  unfolding for_each Each
  for_each-Reached [] g h leaves w = λ done. tt
  for_each-Reached (x ∷ xs) g h leaves w =
      continue-Reached P x xs (for_each xs body) (body x w).0 (body x w).1 (h x g.0 w)
        (for_each-Leaves x (λ y. leaves x y g.0) xs g.1)
        (for_each-Reached xs g.1 h leaves (body x w).1)

module _ {W A : Type 0} (P : W → Type 0) where
  handled-Establishes :
      (r : Result A) (handler : Exn → Exec W A) (w : W)
      → ((b : A) → r ≡ ok b → P w)
      → ((exn : Exn) (b : A) → (handler exn w).0 ≡ ok b → P (handler exn w).1)
      → (b : A) → (handled r handler w).0 ≡ ok b
      → P (handled r handler w).1
  handled-Establishes (ok a) handler w h on_raise b done = h a refl
  handled-Establishes (raise exn) handler w h on_raise b done = on_raise exn b done

  handled-Leaves :
      (r : Result A) (handler : Exn → Exec W A) (w : W)
      → P w
      → ((exn : Exn) → P (handler exn w).1)
      → P (handled r handler w).1
  handled-Leaves (ok a) handler w p h = p
  handled-Leaves (raise exn) handler w p h = h exn

  committing-Establishes :
      (name : String) (role : Role) (run : Exec W A)
      → Establishes P run
      → Establishes P (committing name role run)
  unfolding committing
  committing-Establishes name role run h w =
      handled-Establishes (run w).0 _ (run w).1 (h w) (λ exn b done. absurd (ground arith))

  committing-Leaves :
      (name : String) (role : Role) (run : Exec W A)
      → Leaves P run
      → Leaves P (committing name role run)
  unfolding committing
  committing-Leaves name role run h w p =
      handled-Leaves (run w).0 _ (run w).1 (h w p) (λ exn. h w p)

module _ {W : Type 0} (P : W → Type 0) where
  settle-Establishes :
      (name : String) (run : Exec W (Unit {0})) (b : Bool)
      → Establishes P run
      → Establishes P (settle name required b run)
  unfolding settle settle_error
  settle-Establishes name run b h w =
      handled-Establishes P (run w).0 _ (run w).1 (h w) (λ exn c done. absurd (ground arith))

  settle-Leaves :
      (name : String) (policy : SyncPolicy) (run : Exec W (Unit {0})) (b : Bool)
      → Leaves P run
      → Leaves P (settle name policy b run)
  unfolding settle
  settle-Leaves name policy run b h w p =
      handled-Leaves P (run w).0 _ (run w).1 (h w p) (λ exn. h w p)

-- What holds of a node's media.
abbrev pub HoldsIn : {W A : Type 0} → (A → W → Type 0) → A → Node W → Type 0
HoldsIn P x n = P x n.media

module _ {W K V O Ver : Type 0} (t : Topology W K V O Ver) where
  -- Where the commit is not the caller's, a dependent's operation runs at once.
  sync_one_now :
      (p : Target W K V O Ver) (what : String) (run : Exec W (Unit {0}))
      (policy : Option SyncPolicy)
      → deferred t ≡ false
      → (n : Node W)
      → on_media (settle p.name (get_or p.policy policy) false run) n
        ≡ sync_one t p what run policy n
  unfolding sync_one run_sync
  sync_one_now p what run policy d n = ground (arith, d)

  module _ (Good : Target W K V O Ver → Type 0) (P : Target W K V O Ver → W → Type 0)
      (op : Target W K V O Ver → Exec W (Unit {0})) (now : deferred t ≡ false)
      (establishes : (p : Target W K V O Ver) → Good p → Establishes (P p) (op p))
      (leaves : (p q : Target W K V O Ver) → Good p → Good q → Leaves (P p) (op q)) where
    sync_one-Leaves :
        (what : String) (p q : Target W K V O Ver)
        → Good p
        → Good q
        → Leaves (HoldsIn P p) (sync_one t q what (op q) none)
    unfolding on_media
    sync_one-Leaves what p q f g n h =
        subst (λ r. HoldsIn P p r.1) (sync_one_now q what (op q) none now n)
          (settle-Leaves (P p) q.name q.policy (op q) false (leaves p q f g) n.media h)

    sync_one-Establishes :
        (what : String) (p : Target W K V O Ver)
        → Good p
        → p.policy ≡ required
        → Establishes (HoldsIn P p) (sync_one t p what (op p) none)
    unfolding on_media
    sync_one-Establishes what p g r n =
        subst (λ r. (b : Unit {0}) → r.0 ≡ ok b → HoldsIn P p r.1)
          (sync_one_now p what (op p) none now n)
          (subst
            (λ policy.
              (b : Unit {0})
              → (settle p.name policy false (op p) n.media).0 ≡ ok b
              → P p (settle p.name policy false (op p) n.media).1)
            (sym r) (settle-Establishes (P p) p.name (op p) false (establishes p g) n.media))

    pub commit_all-Reached :
        Each Good (committing_targets t)
        → (w : W) → Reached P (committing_targets t) (commit_all t op w)
    unfolding commit_all
    commit_all-Reached g =
        for_each-Reached Good P _ (committing_targets t) g
          (λ p f. committing-Establishes (P p) p.name p.role (op p) (establishes p f))
          (λ p q f g. committing-Leaves (P p) q.name q.role (op q) (leaves p q f g))

    -- Of a loop over targets that are required: what follows the commit point.
    pub sync_all-Reached :
        (what : String) (ps : List (Target W K V O Ver))
        → Each (λ p. Good p × (p.policy ≡ required)) ps
        → (n : Node W) → Reached (HoldsIn P) ps (for_each ps (λ p. sync_one t p what (op p) none) n)
    sync_all-Reached what ps h =
        for_each-Reached (λ p. Good p × (p.policy ≡ required)) (HoldsIn P) _ ps h
          (λ p g. sync_one-Establishes what p g.0 g.1) (λ p q f g. sync_one-Leaves what p q f.0 g.0)

    pub sync_all-Leaves :
        (what : String) (p : Target W K V O Ver)
        → Good p
        → (ps : List (Target W K V O Ver)) → Each (λ p. Good p × (p.policy ≡ required)) ps
        → Leaves (HoldsIn P p) (for_each ps (λ p. sync_one t p what (op p) none))
    sync_all-Leaves what p f =
        for_each-Leaves (λ p. Good p × (p.policy ≡ required)) (HoldsIn P) _ p
          (λ q g. sync_one-Leaves what p q f g.0)
