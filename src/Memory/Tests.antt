-- ===== src/Memory/Tests.antt =====
-- Tests of the memory backend, and the instances of what is proved of it.
use kvtsjl.Prelude.{
  ℕ, ◌+◌, ◌*◌, ◌≤◌, ◌≡◌, ◌≢◌, ◌⊎◌, refl, Bool, true, false, ◌&&◌, ◌==◌, Option, none, some, is_some,
  List, [], ◌∷◌, ◌++◌, if◌then◌else◌, arith,
}
use kvtsjl.Prelude.Dict.{lookup}
use kvtsjl.Errors.{ok, raise, value_error}
use kvtsjl.Ttl.{TtlPolicy, ExpiryGc, lazy_delete, hide, second, no_expiry}
use kvtsjl.KeyMap.{absent, put, ConditionalWrite}
use kvtsjl.Serde.{identity, serialize, deserialize}
use kvtsjl.Keys.Text.{Text, text_eq}
use kvtsjl.Keys.Scope.{scope_of}
use kvtsjl.Keys.KvSet.{with_str_keys}
use kvtsjl.Keys.Codec.{scan_prefix_blob, decode_key_from_physical}
use kvtsjl.Memory.{Root, Backend, bucket_at, open_at, physical_key, get, exists, set}
use kvtsjl.Memory.Batch.{batch_delete}
use kvtsjl.Memory.Versions.{read_version, write_one, make}
use kvtsjl.Memory.Listing.{decode, scan_entries, expired_keys, gc_expired_keys}
use kvtsjl.Memory.Expired.{expired_keys-take}
use kvtsjl.Memory.View.{view, read_view}
use kvtsjl.Memory.Reads.{get-get}
use kvtsjl.Memory.Writes.{has_come, get-set}
use kvtsjl.Memory.Fresh.{IsFresh, number_of}
use kvtsjl.Memory.Evolves.{here, next, sets}
use kvtsjl.Memory.Conflicts.{write_one-read_version}

-- A clock that goes on by a second with each reading.
abbrev clock : ℕ → ℕ
clock n = n * second

-- `"u"`, `"b"`, `"s"`
abbrev user : Text
user = 117 ∷ []

abbrev b : Text
b = 98 ∷ []

abbrev s : Text
s = 115 ∷ []

-- The records of one user, whose scopes have one kind, `"u"`.
abbrev records_of : Text → Backend Text Text Text
records_of id = record {
  kvset = with_str_keys identity (some (user ∷ []));
  value_serde = identity;
  ttl_policy = record { ttl_duration = some (10 * second) };
  scope = scope_of ((user, id) ∷ []);
  binding = record { collection = some s; name_version_prefix = [] };
  batch_size = 2;
  expiry_gc = lazy_delete;
}

abbrev no_records : Root Text
no_records = record { collections = []; made = 0; ticks = 0 }

-- The user `"b"` writes the key `"s"`: readings 0, 1 and 2, so that it expires at second 12.
abbrev written : Root Text
written = (set clock (records_of b) s user none none no_records).1

found : (get clock (records_of b) s written).0 ≡ ok (some user)
unfolding get kvtsjl.Keys.Codec.physical_key_blob with_str_keys kvtsjl.Prelude.ℕ_discrete set
    kvtsjl.Prelude.Dict.insert text_eq
found = refl

-- The same at second 12.
gone : (get clock (records_of b) s (record written { ticks = 12 })).0 ≡ ok none
unfolding get kvtsjl.Keys.Codec.physical_key_blob with_str_keys kvtsjl.Prelude.ℕ_discrete set
    kvtsjl.Prelude.Dict.insert text_eq
gone = refl

counted : (batch_delete clock (records_of b) (s ∷ b ∷ s ∷ []) written).0 ≡ ok 1
unfolding batch_delete kvtsjl.Keys.Codec.physical_key_blob with_str_keys kvtsjl.Prelude.ℕ_discrete
    kvtsjl.Prelude.Dict.insert set text_eq kvtsjl.Prelude.Dict.erase
counted = refl

listed : (scan_entries clock (records_of b) none true written).0 ≡ ok ((s, some user) ∷ [])
unfolding scan_entries with_str_keys set kvtsjl.Keys.Codec.physical_key_blob
    kvtsjl.Prelude.ℕ_discrete kvtsjl.Prelude.Dict.insert text_eq
listed = refl

none_expired : (expired_keys clock (records_of b) none 1 written).0 ≡ ok []
unfolding expired_keys with_str_keys set kvtsjl.Keys.Codec.physical_key_blob
    kvtsjl.Prelude.ℕ_discrete kvtsjl.Prelude.Dict.insert text_eq
none_expired = refl

one_expired : (expired_keys clock (records_of b) (some (12 * second)) 1 written).0 ≡ ok (s ∷ [])
unfolding expired_keys with_str_keys set kvtsjl.Keys.Codec.physical_key_blob
    kvtsjl.Prelude.ℕ_discrete kvtsjl.Prelude.Dict.insert text_eq
one_expired = refl

no_room : (expired_keys clock (records_of b) none 0 written).0 ≡ raise value_error
unfolding expired_keys
no_room = refl

-- The user `"bb"` has a key `"s"` that has expired, and the user `"b"` a key `"b:s"` that never
-- expires.
abbrev neighbours : Root Text
neighbours =
    (set clock (records_of b) (b ++ 58 ∷ s) user (some no_expiry) none
      (record (set clock (records_of (b ++ b)) s user none none no_records).1 { ticks = 20 })).1

kept_before : (get clock (records_of b) (b ++ 58 ∷ s) neighbours).0 ≡ ok (some user)
unfolding get kvtsjl.Keys.Codec.physical_key_blob with_str_keys kvtsjl.Prelude.ℕ_discrete set
    kvtsjl.Prelude.Dict.insert text_eq
kept_before = refl

-- The collection of the expired entries of `"b"` takes the one for the other.
collected : (gc_expired_keys clock (records_of b) 5 neighbours).0 ≡ ok ((b ++ 58 ∷ s) ∷ [])
unfolding gc_expired_keys with_str_keys set kvtsjl.Keys.Codec.physical_key_blob
    kvtsjl.Prelude.ℕ_discrete kvtsjl.Prelude.Dict.insert text_eq
collected = refl

lost_after :
    (get clock (records_of b) (b ++ 58 ∷ s) (gc_expired_keys clock (records_of b) 5 neighbours).1).0
    ≡ ok none
unfolding get kvtsjl.Keys.Codec.physical_key_blob with_str_keys kvtsjl.Prelude.ℕ_discrete
    gc_expired_keys set kvtsjl.Prelude.Dict.insert text_eq kvtsjl.Prelude.Dict.erase
lost_after = refl

-- `"u:b:s"`
abbrev physical_text : Text
physical_text = 117 ∷ 58 ∷ 98 ∷ 58 ∷ 115 ∷ []

composed : physical_key clock (records_of b) s ≡ ok physical_text
unfolding kvtsjl.Keys.Codec.physical_key_blob with_str_keys kvtsjl.Prelude.ℕ_discrete
composed = refl

-- At second 12, where the record has expired and the first read deletes it.
abbrev at_end : Root Text
at_end = record written { ticks = 12 }

get-get_example :
    ((get clock (records_of b) s at_end).0
      ≡ read_view clock (records_of b) (view at_end s physical_text (12 * second)))
    × ((exists clock (records_of b) s at_end).0
        ≡ ok (is_some (view at_end s physical_text (12 * second))))
    × ((get clock (records_of b) s (record (get clock (records_of b) s at_end).1 { ticks = 20 })).0
        ≡ (get clock (records_of b) s (record at_end { ticks = 20 })).0)
    × ((exists clock
          (records_of b)
          s
          (record (get clock (records_of b) s at_end).1 { ticks = 20 })).0
        ≡ (exists clock (records_of b) s (record at_end { ticks = 20 })).0)
    × ((get clock
          (records_of b)
          s
          (record (exists clock (records_of b) s at_end).1 { ticks = 20 })).0
        ≡ (get clock (records_of b) s (record at_end { ticks = 20 })).0)
    × ((exists clock
          (records_of b)
          s
          (record (exists clock (records_of b) s at_end).1 { ticks = 20 })).0
        ≡ (exists clock (records_of b) s (record at_end { ticks = 20 })).0)
get-get_example =
    get-get clock (records_of b) s physical_text composed s physical_text composed at_end 20
      (omega arith)

text_written : (value : Text) → serialize identity value ≡ ok value
unfolding serialize identity
text_written value = refl

text_read : (value : Text) → deserialize identity value ≡ ok value
unfolding deserialize identity
text_read value = refl

get-set_example :
    ((set clock (records_of b) s user none none no_records).0 ≡ ok tt)
    × ((get clock (records_of b) s written).0 ≡ ok (some user))
    × ((other_name other : Text) (at : ℕ)
        → view written other_name other at ≡ (
            if other_name == s && other == physical_text
            then (if has_come (some (12 * second)) at then none else some user)
            else none))
unfolding kvtsjl.Ttl.ttl_seconds set kvtsjl.Keys.Codec.physical_key_blob with_str_keys
    kvtsjl.Prelude.ℕ_discrete
get-set_example =
    get-set clock (records_of b) s physical_text user user none none composed (text_written user)
      (text_read user) no_records

absent_read : read_version clock (records_of b) s no_records ≡ (ok absent, no_records)
unfolding read_version kvtsjl.Keys.Codec.physical_key_blob with_str_keys kvtsjl.Prelude.ℕ_discrete
absent_read = refl

none-some : {A : Type 0} {a : A} → none ≡ some a → ⊥
none-some same = cc

no_records-IsFresh : IsFresh no_records
no_records-IsFresh collection pk entry holds = absurd (none-some holds)

-- A write of the record against its absence, and another's write since it was read.
abbrev over_absence : ConditionalWrite Text ℕ
over_absence = record { seen = absent; change = put user; created_at = none }

abbrev overtaken : Root Text
overtaken = (set clock (records_of b) s b none none no_records).1

turned_down : (write_one clock (records_of b) s over_absence none overtaken).0 ≡ ok false
unfolding write_one set kvtsjl.Keys.Codec.physical_key_blob with_str_keys kvtsjl.Prelude.ℕ_discrete
    kvtsjl.Prelude.Dict.insert text_eq
turned_down = refl

write_one-read_version_example :
    (((number_of (lookup physical_text (bucket_at overtaken s)) ≡ none)
        × (lookup physical_text (bucket_at overtaken s)
            ≡ lookup physical_text (bucket_at no_records s))
        × (write_one clock (records_of b) s over_absence none overtaken
            ≡ make clock (records_of b) s physical_text over_absence (put user) none overtaken))
      ⊎ ((number_of (lookup physical_text (bucket_at overtaken s)) ≢ none)
          × (write_one clock (records_of b) s over_absence none overtaken ≡ (ok false, overtaken))))
    × IsFresh overtaken
write_one-read_version_example =
    write_one-read_version clock (records_of b) s physical_text composed no_records no_records
      overtaken over_absence none no_records-IsFresh absent_read
      (next here (sets (records_of b) s b none none no_records))

-- `"u:b"`
prefix_composed :
    scan_prefix_blob (records_of b).kvset (records_of b).binding (records_of b).scope none
    ≡ ok (117 ∷ 58 ∷ 98 ∷ [])
unfolding scan_prefix_blob with_str_keys kvtsjl.Prelude.ℕ_discrete text_eq
prefix_composed = refl

read_back : decode clock (records_of b) physical_text ≡ ok (some s)
unfolding decode_key_from_physical with_str_keys kvtsjl.Prelude.ℕ_discrete text_eq
read_back = refl

expired_keys-take_example :
    expired_keys clock (records_of b) (some (12 * second)) 1 written
    ≡ (ok (s ∷ []), (open_at s written).1)
unfolding set kvtsjl.Keys.Codec.physical_key_blob with_str_keys kvtsjl.Prelude.ℕ_discrete
    kvtsjl.Prelude.Dict.insert text_eq
expired_keys-take_example =
    expired_keys-take clock (records_of b) (117 ∷ 58 ∷ 98 ∷ []) (12 * second) 1 (λ _. some s)
      written (omega arith) prefix_composed (read_back, tt)
