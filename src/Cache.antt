-- ===== src/Cache.antt =====
-- The cache of the database tables and the change log in cbccd/cbccd_pgsql.c. Texts are taken to
-- fit the arrays that `strcpy` copies them into.
pub mod Names
pub mod Rows
pub mod Lookup
pub mod Changelog
pub mod Database
pub mod Index
pub mod Reading
use Names.{tbl_names, max_tbl_num}
use chroot_cbccd.Base.{
  ℕ, ◌+◌, ◌-◌, Option, none, some, List, [], ◌∷◌, ◌++◌, map, length, get_elem?, take, ltb, ◌==◌,
  if◌then◌else◌, ◌>>=◌, Text, codes, str_eq,
}

-- struct cbccd_tbl_row; the links are the order of the list below
pub record Row : Type 0 where
  pub guid : Text
  pub row_data : Text
  pub changelog_type : Text
  pub rev : ℕ

-- struct cbccd_tbl_info
pub record TblInfo : Type 0 where
  pub tbl_name : Text
  pub rows_count : ℕ
  pub rows : List Row
  pub total_rev : ℕ

-- A row after `memset` and the two copies: `set_tbl_row`, and the start of `add_tbl_row`.
pub set_tbl_row : Text → Text → Row
set_tbl_row guid content = record { guid = guid; row_data = content; changelog_type = []; rev = 0 }

-- The first row of a table gets no revision.
pub add_tbl_row : TblInfo → Text → Text → TblInfo
add_tbl_row t guid content =
    let row = set_tbl_row guid content in
    if t.rows_count == 0
    then record t { rows = row ∷ []; rows_count = t.rows_count + 1 }
    else record t {
      rows = t.rows ++ (record row { rev = t.total_rev + 1 } ∷ []);
      rows_count = t.rows_count + 1;
      total_rev = t.total_rev + 1;
    }

-- The walk of `get_tbl_row` and of the loops that look for a guid.
unfoldable pub find_row : List Row → Text → Option Row
find_row [] guid = none
find_row (r ∷ rs) guid = if str_eq r.guid guid then some r else find_row rs guid

pub get_tbl_row : TblInfo → Text → Option Row
get_tbl_row t guid = find_row t.rows guid

-- Writing through the pointer to the row that was found.
pub put_row : List Row → Row → List Row
put_row [] row = []
put_row (r ∷ rs) row = if str_eq r.guid row.guid then row ∷ rs else r ∷ put_row rs row

pub unlink_row : List Row → Text → List Row
unlink_row [] guid = []
unlink_row (r ∷ rs) guid = if str_eq r.guid guid then rs else r ∷ unlink_row rs guid

-- `remove_tbl_row` of the row that was found.
pub remove_tbl_row : TblInfo → Text → TblInfo
remove_tbl_row t guid =
    let n = t.rows_count - 1 in
    record t { rows = if n == 0 then [] else unlink_row t.rows guid; rows_count = n }

-- `update_db_cache` on the table with the name.
pub update_table : TblInfo → Text → Text → TblInfo
update_table t guid content = elim (find_row t.rows guid) [
  | none ↦ add_tbl_row t guid content
  | some r ↦ record t { rows = put_row t.rows (set_tbl_row guid content) }
]

-- Only the first table with the name is touched.
pub update_db_cache : List TblInfo → Text → Text → Text → List TblInfo
update_db_cache [] name guid content = []
update_db_cache (t ∷ ts) name guid content =
    if str_eq name t.tbl_name
    then update_table t guid content ∷ ts
    else t ∷ update_db_cache ts name guid content

pub remove_from_table : TblInfo → Text → TblInfo
remove_from_table t guid = elim (find_row t.rows guid) [ none ↦ t | some r ↦ remove_tbl_row t guid ]

unfoldable pub remove_db_cache : List TblInfo → Text → Text → List TblInfo
remove_db_cache [] name guid = []
remove_db_cache (t ∷ ts) name guid =
    if str_eq t.tbl_name name
    then remove_from_table t guid ∷ ts
    else t ∷ remove_db_cache ts name guid

-- `set_changlog_info`: one more entry, under the next revision.
pub set_changlog_info : TblInfo → Text → Text → Text → Text → TblInfo
set_changlog_info c name guid content kind =
    let row : Row = record {
      guid = guid;
      row_data = content;
      changelog_type = kind;
      rev = c.total_rev + 1;
    } in
    record {
      tbl_name = name;
      rows_count = c.rows_count + 1;
      rows = if c.rows_count == 0 then row ∷ [] else c.rows ++ (row ∷ []);
      total_rev = c.total_rev + 1;
    }

-- `cbccd_pgsql_set_cache`
pub cbccd_pgsql_set_cache : TblInfo → Text → Text → TblInfo
cbccd_pgsql_set_cache c guid content = elim (get_tbl_row c guid) [
  | none ↦ add_tbl_row c guid content
  | some r ↦ record c {
    rows = put_row c.rows (record (set_tbl_row guid content) { rev = c.total_rev + 1 });
    total_rev = c.total_rev + 1;
  }
]

-- The row that `cbccd_pgsql_get_cache` reports.
unfoldable pub find_rev : List Row → ℕ → Option Row
find_rev [] rev = none
find_rev (r ∷ rs) rev = if r.rev == rev then some r else find_rev rs rev

-- `get_all_tbl_data` of the rows that the server sent, and the loop of `read_all_db_contents` over
-- them.
pub add_rows : TblInfo → List (Text × Text) → TblInfo
add_rows t [] = t
add_rows t ((guid, content) ∷ rest) = add_rows (add_tbl_row t guid content) rest

pub load_table : (Text → List (Text × Text)) → Text → TblInfo
load_table fetch name =
    add_rows (record { tbl_name = name; rows_count = 0; rows = []; total_rev = 0 }) (fetch name)

-- `read_all_db_contents` of a manager that is all zero; `fetch` is the answer to SELECT.
pub read_all_db_contents : (Text → List (Text × Text)) → List TblInfo
read_all_db_contents fetch = map (load_table fetch) (take max_tbl_num tbl_names)

-- The data of the first row, or of the row with the guid.
unfoldable pub matching_data : List Row → Option Text → Option Text
matching_data [] guid = none
matching_data (r ∷ rs) none = some r.row_data
matching_data (r ∷ rs) (some guid) =
    if str_eq r.guid guid then some r.row_data else matching_data rs (some guid)

-- The entry of `tbl_infos` at an index that `cbccd_pgsql_get_tbl_idx` returned; at -1, and past
-- the end, the access is out of bounds.
unfoldable pub table_at : List TblInfo → Option ℕ → Option TblInfo
table_at ts none = none
table_at ts (some i) = get_elem? ts i

-- `cbccd_pgsql_cache_get_tbl_data`: the data, or -1 if no row fits.
unfoldable pub cbccd_pgsql_cache_get_tbl_data :
    List TblInfo → Option ℕ → Option Text → Option (Option Text)
cbccd_pgsql_cache_get_tbl_data ts idx guid = do
  t ← table_at ts idx
  some (matching_data t.rows guid)

-- `cbccd_pgsql_cache_get_tbl_rows`: the copy has room for `rows_count` rows.
unfoldable pub cbccd_pgsql_cache_get_tbl_rows :
    List TblInfo → Option ℕ → Option (List (Text × Text))
cbccd_pgsql_cache_get_tbl_rows ts idx = do
  t ← table_at ts idx
  if t.rows_count == 0
      then some []
      else if ltb t.rows_count (length t.rows)
      then none
      else some (map (λ r. (r.guid, r.row_data)) t.rows)
