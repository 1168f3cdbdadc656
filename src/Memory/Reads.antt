-- ===== src/Memory/Reads.antt =====
-- Reads of src/kvtsjl/backends/memory.py one after another: that a read deletes an entry that has
-- expired does not change what reads answer.
use kvtsjl.Prelude.{ℕ, ◌≤◌, ◌≡◌, sym, ap, ◌∙◌, is_some}
use kvtsjl.Errors.{ok}
use kvtsjl.Keys.Text.{Text}
use kvtsjl.Memory.{Root, Backend, name, physical_key, get, exists}
use kvtsjl.Memory.View.{view, read_view, get-view}

module _ (clock : ℕ → ℕ) {K V B : Type 0} (backend : Backend K V B) where
  -- A read, also one by `exists`, answers what the collection holds for the key at the instant of
  -- the read, where an entry that has expired counts as nothing; and whether or not it has deleted
  -- an entry that has expired, a read of any key at that instant or later, by `get` or `exists`,
  -- answers what it would have answered without the first read; provided that the physical keys of
  -- both can be composed.
  pub get-get :
      (key : K) (pk : Text) (composed : physical_key clock backend key ≡ ok pk) (other : K)
      (other_pk : Text) (other_composed : physical_key clock backend other ≡ ok other_pk)
      (root : Root B) (later : ℕ)
      → clock root.ticks ≤ clock later
      → ((get clock backend key root).0
          ≡ read_view clock backend (view root (name clock backend) pk (clock root.ticks)))
        × ((exists clock backend key root).0
            ≡ ok (is_some (view root (name clock backend) pk (clock root.ticks))))
        × ((get clock backend other (record (get clock backend key root).1 { ticks = later })).0
            ≡ (get clock backend other (record root { ticks = later })).0)
        × ((exists clock backend other (record (get clock backend key root).1 { ticks = later })).0
            ≡ (exists clock backend other (record root { ticks = later })).0)
        × ((get clock backend other (record (exists clock backend key root).1 { ticks = later })).0
            ≡ (get clock backend other (record root { ticks = later })).0)
        × ((exists clock backend other
              (record (exists clock backend key root).1 { ticks = later })).0
            ≡ (exists clock backend other (record root { ticks = later })).0)
  get-get key pk composed other other_pk other_composed root later after =
      let first = get-view clock backend key pk composed root in
      let got = (get clock backend key root).1 in
      let asked = (exists clock backend key root).1 in
      let without = reads (record root { ticks = later }) in
      let kept = first.2 (name clock backend) other_pk (clock later) after in
      let kept' = first.3 (name clock backend) other_pk (clock later) after in
      (
        first.0,
        first.1,
        (reads (record got { ticks = later })).0
            ∙ ap (read_view clock backend) kept
            ∙ sym without.0,
        (reads (record got { ticks = later })).1 ∙ ap (λ o. ok (is_some o)) kept ∙ sym without.1,
        (reads (record asked { ticks = later })).0
            ∙ ap (read_view clock backend) kept'
            ∙ sym without.0,
        (reads (record asked { ticks = later })).1 ∙ ap (λ o. ok (is_some o)) kept' ∙ sym without.1,
      )
    where
      reads :
          (at : Root B)
          → ((get clock backend other at).0
              ≡ read_view clock backend (view at (name clock backend) other_pk (clock at.ticks)))
            × ((exists clock backend other at).0
                ≡ ok (is_some (view at (name clock backend) other_pk (clock at.ticks))))
      reads at = let r = get-view clock backend other other_pk other_composed at in (r.0, r.1)
