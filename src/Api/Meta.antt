-- ===== src/Api/Meta.antt =====
-- The metadata that the controllers read and write, and time as the standard library shows it.
use formol.Prelude.{ℕ, ℤ, negsuc, String, Option, List}

pub data Weekday : Type 0 where
  sunday monday tuesday wednesday thursday friday saturday : Weekday

-- A `time.Time`, by the values that its methods return: `Unix`, `Year`, `Month`, `Day`, `YearDay`
-- and `Weekday`.
pub record Time : Type 0 where
  pub unix : ℤ
  pub year : ℕ
  pub month : ℕ
  pub day : ℕ
  pub year_day : ℕ
  pub weekday : Weekday

-- `time.Time{}`: Monday the first of January of the year 1, in UTC.
abbrev pub zero_time : Time
zero_time = record {
  unix = negsuc 62135596799;
  year = 1;
  month = 1;
  day = 1;
  year_day = 1;
  weekday = Weekday.monday;
}

pub record ObjectKey : Type 0 where
  pub namespace : String
  pub name : String

-- `metav1.ObjectMeta`, as far as it is used.
pub record ObjectMeta : Type 0 where
  pub namespace : String
  pub name : String
  pub generate_name : String
  pub deletion_timestamp : Option Time
  pub finalizers : List String
  pub owner_references : List String

-- The key under which an object with this metadata is stored.
abbrev pub key_of : ObjectMeta → ObjectKey
key_of m = record { namespace = m.namespace; name = m.name }

-- The metadata of an object that is built from a namespace and a name alone.
abbrev pub named : String → String → ObjectMeta
named namespace name = record {
  namespace = namespace;
  name = name;
  generate_name = "";
  deletion_timestamp = Option.none;
  finalizers = List.[];
  owner_references = List.[];
}
