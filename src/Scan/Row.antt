-- ===== src/Scan/Row.antt =====
-- Rows and specifications of src/kvtsjl/store/schema/scan.py. A `datetime` is a number of
-- microseconds. A key type comes with what the predicates ask of a key: its text by `str`, its
-- order, the prefix test of its type, and `fnmatch` of its text. `KeyRange` on keys that have no
-- order, which raises `TypeError`, is not modelled.
use kvtsjl.Prelude.{ℕ, String, Bool, Option}

pub data Cmp : Type 0 where
  before same after : Cmp

pub record KeyClass (K : Type 0) : Type 0 where
  pub starts_with : K → K → Bool
  pub cmp : K → K → Cmp
  pub matches : String → K → Bool

pub record ScanStat : Type 0 where
  pub size : Option ℕ
  pub modified_at : Option ℕ
  pub expires_at : Option ℕ
  pub etag : Option String

pub record ScanRow (K V : Type 0) : Type 0 where
  pub key : K
  pub value : Option V
  pub stat : Option ScanStat

pub data Projection : Type 0 where
  keys stats entries : Projection

pub data ScanOrder : Type 0 where
  unordered key_asc key_desc : ScanOrder

pub record OrderBy : Type 0 where
  pub column : String
  pub descending : Bool

pub data Pushdown : Type 0 where
  client_side strict : Pushdown

pub record ScanQuery (K : Type 0) : Type 0 where
  pub prefix : Option K
  pub include_values : Bool
  pub page_size : ℕ
