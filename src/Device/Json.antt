-- ===== src/Device/Json.antt =====
-- What the device manager asks of cbcc-util/cbcc_json.c, which stands on json-c, and of its
-- surroundings: an interface.
use chroot_cbccd.Base.{ℕ, Option, none, some, List, Text, get_elem?}
use chroot_cbccd.Cache.{TblInfo, cbccd_pgsql_cache_get_tbl_data}
use chroot_cbccd.Cache.Names.{cbccd_pgsql_get_tbl_idx}

-- A key, with its parent's key where it has one.
pub record Key : Type 0 where
  pub parent_key : Option Text
  pub key : Text

pub data Value : Type 0 where
  str_val : Text → Value
  int_val : ℕ → Value

-- cbcc_json_parse_from_buffer: `none` is -1; else, for each key, what its array received, if
-- anything. cbcc_json_update: `none` is -1, with nothing written.
pub record Json : Type 0 where
  pub parse : Text → List Key → Option (List (Option Text))
  pub parse_roles : Text → Option (List Text)
  pub build : List (Key × Value) → Text
  pub update : Text → List (Key × Value) → Option Text

-- The surroundings of a call: the cached tables, the clock, the default OU, and what an array
-- on the stack holds that nothing was written to.
pub record Env : Type 0 where
  pub json : Json
  pub tables : List TblInfo
  pub now : ℕ
  pub default_ou : Option Text
  pub uninit : Text

-- An array that was to receive the value of key number `i`.
abbrev pub received : Text → Option (Option Text) → Text
received uninit none = uninit
received uninit (some none) = uninit
received uninit (some (some text)) = text

abbrev pub field : Env → List (Option Text) → ℕ → Text
field env fields i = received env.uninit (get_elem? fields i)

-- `cbccd_pgsql_cache_get_tbl_data` by the name of a table whose index is in the array.
abbrev read_data : Option (Option Text) → Option Text
read_data none = none
read_data (some content) = content

unfoldable pub cached : Env → Text → Text → Option Text
cached env name guid =
    read_data (cbccd_pgsql_cache_get_tbl_data env.tables (cbccd_pgsql_get_tbl_idx name) (some guid))
