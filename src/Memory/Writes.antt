-- ===== src/Memory/Writes.antt =====
-- What `set` and `delete` of src/kvtsjl/backends/memory.py do to what the collections hold.
use kvtsjl.Prelude.{
  ℕ, suc, ◌+◌, ◌*◌, ◌≡◌, refl, sym, ap, subst, ◌∙◌, Bool, true, false, ◌&&◌, ◌==◌, Option, none,
  some, leb, if◌then◌else◌, arith, nat_eq,
}
use kvtsjl.Errors.{Result, ok}
use kvtsjl.Exec.{Exec, continue, ◌>>=◌}
use kvtsjl.Ttl.{TtlPolicy, second, require_write_clock_supported}
use kvtsjl.KeyMap.{get_or}
use kvtsjl.Serde.{deserialize, serialize}
use kvtsjl.Keys.Text.{Text, text_eq}
use kvtsjl.Memory.{
  Entry, Root, Backend, store_at, clock_base, expires_at, lives_for, resolve_ttl_seconds, name,
  physical_key, store_entry, get, set,
}
use kvtsjl.Memory.View.{view, held, entry-store_at, get-view, read_view}

-- When an entry expires that is written with so many seconds to live, at a base or now.
abbrev pub until : ℕ → Option ℕ → Option ℕ → Option ℕ
until now none created_at = none
until now (some secs) created_at = some (get_or now created_at + secs * second)

until-given :
    (now other : ℕ) (secs : Option ℕ) (created_at : ℕ)
    → until now secs (some created_at) ≡ until other secs (some created_at)
until-given now other none created_at = refl
until-given now other (some secs) created_at = refl

-- Whether an instant has come.
abbrev pub has_come : Option ℕ → ℕ → Bool
has_come none at = false
has_come (some end) at = leb end at

both_same : {A : Type 0} (x y : A) (a b : Text) → (if a == a && b == b then x else y) ≡ x
both_same x y a b = ground arith

module _ (clock : ℕ → ℕ) {K V B : Type 0} (backend : Backend K V B) where
  -- The expiry is computed without touching the collections.
  lives_for-lem :
      (secs created_at : Option ℕ) (root : Root B)
      → (later : Root B) × (lives_for clock backend secs created_at root
          ≡ (ok (until (clock root.ticks) secs created_at), later))
        × (later.collections ≡ root.collections)
        × (later.made ≡ root.made)
  unfolding clock_base
  lives_for-lem none created_at root = (root, refl, refl, refl)
  lives_for-lem (some secs) none root = (record root { ticks = suc root.ticks }, refl, refl, refl)
  lives_for-lem (some secs) (some created_at) root = (root, refl, refl, refl)

  -- `set` stores one new entry, which holds the blob and expires as the policy says.
  unfoldable pub Stores : Text → B → Option ℕ → Root B → Result (Unit {0}) × Root B → Type 0
  Stores pk blob end root r =
      (r.0 ≡ ok tt)
      × ((entry : Entry B) × (later : Root B) × (entry.value_blob ≡ blob)
          × (entry.expires_at ≡ end)
          × (entry.number ≡ root.made)
          × (later.collections ≡ root.collections)
          × (later.made ≡ suc root.made)
          × (r.1 ≡ (store_at (name clock backend) pk entry later).1))

  -- The last step of `store_entry`.
  abbrev store_ending : Text → B → ℕ → ℕ → Option ℕ → Exec (Root B) (Unit {0})
  store_ending pk blob base written end root =
      store_at (name clock backend) pk
        (record {
          number = root.made;
          value_blob = blob;
          expires_at = end;
          created_at = base;
          written_at = written;
        })
        (record root { made = suc root.made })

  store_ending-Stores :
      (pk : Text) (blob : B) (base written now : ℕ) (secs created_at : Option ℕ)
      (root before : Root B)
      → before.collections ≡ root.collections
      → before.made ≡ root.made
      → now ≡ clock before.ticks
      → Stores pk blob
          (until now secs created_at)
          root
          ((lives_for clock backend secs created_at >>= store_ending pk blob base written) before)
  unfolding store_at Stores
  store_ending-Stores pk blob base written now secs created_at root before same number reading =
      let l = lives_for-lem secs created_at before in
      subst
        (λ p.
          Stores pk blob (until now secs created_at) root
            (continue p.0 (store_ending pk blob base written) p.1))
        (sym l.1)
        (
          refl,
          (
            record {
              number = l.0.made;
              value_blob = blob;
              expires_at = until (clock before.ticks) secs created_at;
              created_at = base;
              written_at = written;
            },
            record l.0 { made = suc l.0.made },
            refl,
            ap (λ t. until t secs created_at) (sym reading),
            l.3 ∙ number,
            l.2 ∙ same,
            ap suc (l.3 ∙ number),
            refl,
          ),
        )

  pub store_entry-Stores :
      (pk : Text) (blob : B) (ttl : Option TtlPolicy) (created_at : Option ℕ) (root : Root B)
      → Stores pk blob
          (until (clock (suc (suc root.ticks))) (resolve_ttl_seconds clock backend ttl) created_at)
          root
          (store_entry clock backend pk blob ttl created_at root)
  unfolding store_entry expires_at
  store_entry-Stores pk blob ttl none root =
      store_ending-Stores pk blob (clock root.ticks) (clock (suc root.ticks))
        (clock (suc (suc root.ticks))) (resolve_ttl_seconds clock backend ttl) none root
        (record root { ticks = suc (suc root.ticks) }) refl refl refl
  store_entry-Stores pk blob ttl (some created_at) root =
      subst
        (λ end.
          Stores pk blob end root (store_entry clock backend pk blob ttl (some created_at) root))
        (until-given (clock (suc root.ticks)) (clock (suc (suc root.ticks)))
          (resolve_ttl_seconds clock backend ttl) created_at)
        (store_ending-Stores pk blob created_at (clock root.ticks) (clock (suc root.ticks))
          (resolve_ttl_seconds clock backend ttl) (some created_at) root
          (record root { ticks = suc root.ticks }) refl refl refl)

  require_write_clock-allowed :
      (created_at : Option ℕ) → require_write_clock_supported created_at true ≡ ok tt
  unfolding require_write_clock_supported
  require_write_clock-allowed none = refl
  require_write_clock-allowed (some created_at) = refl

  held-stored :
      (entry : Entry B) (blob : B) (end : Option ℕ) (at : ℕ)
      → entry.value_blob ≡ blob
      → entry.expires_at ≡ end
      → held (some entry) at ≡ (if has_come end at then none else some blob)
  held-stored entry blob none at same ends = ground (arith, same, ends)
  held-stored entry blob (some end) at same ends = ground (arith, same, ends)

  read_view-held :
      (blob : B) (value : V) (dead : Bool)
      → deserialize backend.value_serde blob ≡ ok value
      → read_view clock backend (if dead then none else some blob)
        ≡ ok (if dead then none else some value)
  read_view-held blob value true read = refl
  read_view-held blob value false read = ground (arith, read)

  module _ (key : K) (pk : Text) (value : V) (blob : B) (ttl : Option TtlPolicy)
      (created_at : Option ℕ) (composed : physical_key clock backend key ≡ ok pk)
      (written : serialize backend.value_serde value ≡ ok blob) where
    pub set-store_entry :
        (root : Root B)
        → set clock backend key value ttl created_at root
          ≡ store_entry clock backend pk blob ttl created_at root
    unfolding set
    set-store_entry root = rw (require_write_clock-allowed created_at, composed, written)

    -- When what is written at a state expires.
    abbrev pub end : Root B → Option ℕ
    end root =
        until (clock (suc (suc root.ticks))) (resolve_ttl_seconds clock backend ttl) created_at

    set-view :
        (root : Root B) (other_name other : Text) (at : ℕ)
        → view (set clock backend key value ttl created_at root).1 other_name other at ≡ (
            if other_name == name clock backend && other == pk
            then (if has_come (end root) at then none else some blob)
            else view root other_name other at)
    unfolding Stores
    set-view root other_name other at =
        let (done, (entry, later, same, ends, number, kept, made, left)) =
          store_entry-Stores pk blob ttl created_at root in
        ap (λ r. view r.1 other_name other at) (set-store_entry root)
        ∙ ap (λ r. view r other_name other at) left
        ∙ ap (λ found. held found at)
            (entry-store_at later (name clock backend) pk entry other_name other)
        ∙ ground (arith, held-stored entry blob (end root) at same ends, kept)

    -- A write succeeds, and after it the key holds the value until it expires: without seconds to
    -- live it never does, and otherwise they are counted from the record's clock, or where none is
    -- given from the clock's reading during the write. A read after the write returns the value
    -- if it has not expired by then. Every other key holds what it held.
    pub get-set :
        deserialize backend.value_serde blob ≡ ok value
        → (root : Root B)
        → ((set clock backend key value ttl created_at root).0 ≡ ok tt)
          × ((get clock backend key (set clock backend key value ttl created_at root).1).0
              ≡ ok (
                  if has_come
                    (end root)
                    (clock (set clock backend key value ttl created_at root).1.ticks)
                  then none
                  else some value))
          × ((other_name other : Text) (at : ℕ)
              → view (set clock backend key value ttl created_at root).1 other_name other at ≡ (
                  if other_name == name clock backend && other == pk
                  then (if has_come (end root) at then none else some blob)
                  else view root other_name other at))
    unfolding Stores
    get-set read root =
        let (done, rest) = store_entry-Stores pk blob ttl created_at root in
        let after = (set clock backend key value ttl created_at root).1 in
        (
          ap (λ r. r.0) (set-store_entry root) ∙ done,
          (get-view clock backend key pk composed after).0
              ∙ ap (read_view clock backend)
                  (set-view root (name clock backend) pk (clock after.ticks))
              ∙ ap (read_view clock backend) (both_same _ _ (name clock backend) pk)
              ∙ read_view-held blob value (has_come (end root) (clock after.ticks)) read,
          set-view root,
        )
