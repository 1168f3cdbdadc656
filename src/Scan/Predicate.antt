-- ===== src/Scan/Predicate.antt =====
-- The predicate language of src/kvtsjl/store/schema/scan.py: its classes, what each needs of a
-- row, and its evaluation at the time `now`.
pub mod Laws
use kvtsjl.Prelude.{
  ℕ, String, Bool, true, false, not as flip, ◌&&◌, ◌||◌, Option, none, some, List, Eq, ◌==◌,
  contains, ltb, leb, all, if◌then◌else◌,
}
use kvtsjl.Scan.Row.{Cmp, before, same, after, KeyClass, ScanRow, ScanStat}

pub record KeyRange (K : Type 0) : Type 0 where
  pub start : Option K
  pub stop : Option K
  pub include_start : Bool
  pub include_stop : Bool
  pub compare : Option (K → K → Cmp)

pub data Predicate (K V : Type 0) : Type 0 where
  always_true : Predicate K V
  and or : Predicate K V → Predicate K V → Predicate K V
  not : Predicate K V → Predicate K V
  key_prefix : K → Predicate K V
  key_range : KeyRange K → Predicate K V
  key_in : List K → Predicate K V
  key_matches : String → Predicate K V
  modified_before modified_after : ℕ → Predicate K V
  size_between : Option ℕ → Option ℕ → Predicate K V
  expired : Predicate K V
  value_where : (V → Bool) → Predicate K V

-- The flags of `Needs`.
pub record Needs : Type 0 where
  pub key : Bool
  pub stat : Bool
  pub value : Bool

abbrev needs_union : Needs → Needs → Needs
needs_union a b = record {
  key = a.key || b.key;
  stat = a.stat || b.stat;
  value = a.value || b.value;
}

abbrev of_key : Needs
of_key = record { key = true; stat = false; value = false }

abbrev of_stat : Needs
of_stat = record { key = false; stat = true; value = false }

module _ {K V : Type 0} where
  unfoldable pub needs : Predicate K V → Needs
  needs always_true = record { key = false; stat = false; value = false }
  needs (and l r) = needs_union (needs l) (needs r)
  needs (or l r) = needs_union (needs l) (needs r)
  needs (not p) = needs p
  needs (key_prefix _) = of_key
  needs (key_range _) = of_key
  needs (key_in _) = of_key
  needs (key_matches _) = of_key
  needs (modified_before _) = of_stat
  needs (modified_after _) = of_stat
  needs (size_between _ _) = of_stat
  needs expired = of_stat
  needs (value_where _) = record { key = false; stat = false; value = true }

-- `c < 0` or, without `include_start`, `c <= 0`: the key stands before the range.
below_start : Bool → Cmp → Bool
below_start _ before = true
below_start included same = flip included
below_start _ after = false

above_stop : Bool → Cmp → Bool
above_stop _ after = true
above_stop included same = flip included
above_stop _ before = false

module _ {K : Type 0} (c : KeyClass K) where
  range_cmp : KeyRange K → K → K → Cmp
  range_cmp r = elim r.compare [ none ↦ c.cmp | some f ↦ f ]

  unfoldable pub in_range : KeyRange K → K → Bool
  unfolding below_start above_stop range_cmp
  in_range r key =
      if (elim r.start [ none ↦ false | some s ↦ below_start r.include_start (range_cmp r key s) ])
      then false
      else if (elim r.stop [
        | none ↦ false
        | some e ↦ above_stop r.include_stop (range_cmp r key e)
      ])
      then false
      else true

-- `row.stat.modified_at`, or `None` where either is missing.
abbrev stat_field : Option ScanStat → (ScanStat → Option ℕ) → Option ℕ
stat_field none f = none
stat_field (some s) f = f s

abbrev test : Option ℕ → (ℕ → Bool) → Bool
test none p = false
test (some n) p = p n

size_ok : Option ℕ → Option ℕ → ℕ → Bool
size_ok low high size =
    if (elim low [ none ↦ false | some n ↦ ltb size n ])
    then false
    else if (elim high [ none ↦ false | some n ↦ ltb n size ])
    then false
    else true

module _ {K V : Type 0} ⦃e : Eq K⦄ (c : KeyClass K) (now : ℕ) where
  unfoldable pub evaluate : Predicate K V → ScanRow K V → Bool
  unfolding in_range size_ok
  evaluate always_true row = true
  evaluate (and l r) row = evaluate l row && evaluate r row
  evaluate (or l r) row = evaluate l row || evaluate r row
  evaluate (not p) row = flip (evaluate p row)
  evaluate (key_prefix p) row = c.starts_with row.key p
  evaluate (key_range r) row = in_range c r row.key
  evaluate (key_in ks) row = contains ks row.key
  evaluate (key_matches p) row = c.matches p row.key
  evaluate (modified_before t) row = test (stat_field row.stat (λ s. s.modified_at)) (λ m. ltb m t)
  evaluate (modified_after t) row = test (stat_field row.stat (λ s. s.modified_at)) (λ m. ltb t m)
  evaluate (size_between lo hi) row = test (stat_field row.stat (λ s. s.size)) (size_ok lo hi)
  evaluate expired row = test (stat_field row.stat (λ s. s.expires_at)) (λ t. leb t now)
  evaluate (value_where p) row = elim row.value [ none ↦ false | some v ↦ p v ]

  -- `_all_pass`
  abbrev pub all_pass : List (Predicate K V) → ScanRow K V → Bool
  all_pass ps row = all ps (λ p. evaluate p row)
