-- ===== src/DictMap/Tests.antt =====
-- Runs of the map of src/kvtsjl/keymap_algebra/dict_map.py, and its theorems at them.
use kvtsjl.Prelude.{
  ℕ, suc, ◌<◌, ◌≡◌, ◌≢◌, ◌⊎◌, refl, Bool, true, false, Option, none, some, is_some, List, [], ◌∷◌,
  arith, nat_eq,
}
use kvtsjl.Prelude.Dict.{lookup, insert}
use kvtsjl.KeyMap.{update, Decision, change, put, keep, ConditionalWrite}
use kvtsjl.Errors.{ok}
use kvtsjl.DictMap.{DictMap, empty, set, delete, conditional, from_pairs, make, write_one}
use kvtsjl.DictMap.Contended.{Contended, contended}
use kvtsjl.DictMap.Linear.{TakesEffect, Linear, update-Linear}
use kvtsjl.DictMap.Live.{update-TakesEffect}
use kvtsjl.DictMap.Steps.{
  IsValid, sets, deletes, Evolves, here, next, Evolves-IsValid, write_one-Evolves,
}

abbrev one : DictMap ℕ ℕ
one = set 3 7 empty

-- An update adds one to what the entry holds.
abbrev increment : Option ℕ → Decision ℕ
increment none = keep
increment (some n) = change (put (suc n))

update-one : (update conditional 3 increment none none 4 one).0 ≡ ok (some (some 8))
unfolding update kvtsjl.DictMap.read_versions kvtsjl.Prelude.Dict.dedup set insert
    kvtsjl.Prelude.ℕ_discrete kvtsjl.KeyMap.decide_one kvtsjl.DictMap.write_each
    kvtsjl.DictMap.write_one
update-one = refl

empty-IsValid : IsValid (empty {K = ℕ} {V = ℕ})
empty-IsValid = record { paired = λ k. refl; past = λ k n h. absurd (ground arith) }

one-IsValid : IsValid one
one-IsValid = Evolves-IsValid (next here (sets 3 7 empty)) empty-IsValid

abbrev later : DictMap ℕ ℕ
later = (delete 5 (set 4 9 one)).1

later-Evolves : Evolves one later
later-Evolves = next (next here (sets 4 9 one)) (deletes 5 (set 4 9 one))

-- A write of 8 against what was read from the first map.
abbrev to_eight : ConditionalWrite ℕ ℕ
to_eight = record {
  seen = record { value = some 7; version = some 1 };
  change = put 8;
  created_at = none;
}

write_one-Evolves_example :
    ((lookup 3 later.version ≡ some 1)
      × (lookup 3 later.entries ≡ some 7)
      × (write_one 3 to_eight later ≡ make 3 (put 8) later))
    ⊎ ((lookup 3 later.version ≢ some 1) × (write_one 3 to_eight later ≡ (false, later)))
unfolding kvtsjl.DictMap.read_version set insert kvtsjl.Prelude.ℕ_discrete
write_one-Evolves_example = write_one-Evolves 3 to_eight one-IsValid later-Evolves refl

-- Another writes the entry before the first attempt, and nobody before the second.
abbrev raced : Contended ℕ ℕ
raced = record { shared = one; bursts = ((3, put 20) ∷ []) ∷ [] ∷ [] }

update-raced : (update contended 3 increment none none 4 raced).0 ≡ ok (some (some 21))
unfolding update kvtsjl.DictMap.read_versions kvtsjl.Prelude.Dict.dedup set insert
    kvtsjl.Prelude.ℕ_discrete kvtsjl.KeyMap.decide_one kvtsjl.DictMap.write_each
    kvtsjl.DictMap.write_one kvtsjl.DictMap.Contended.interrupt
update-raced = refl

update-TakesEffect_example :
    TakesEffect 3 increment none none 4 raced (update contended 3 increment none none 4 raced)
update-TakesEffect_example =
    update-TakesEffect 3 increment none none 4 raced (omega arith) one-IsValid

update-Linear_example :
    Linear 3 increment none none 4 raced (update contended 3 increment none none 4 raced)
update-Linear_example = update-Linear 3 increment none none 4 raced (omega arith) one-IsValid
