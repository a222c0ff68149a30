-- ===== src/Examples/Tables.antt =====
-- Runs of the table cache of cbccd/cbccd_pgsql.c.
use chroot_cbccd.Base.{◌↔◌, ◌<◌, ◌≡◌, none, some, [], ◌∷◌, get_elem?, Text, codes}
use chroot_cbccd.Cache.{Row, TblInfo}
use chroot_cbccd.Cache.Names.{tbl_names, cbccd_pgsql_get_tbl_idx}
use chroot_cbccd.Cache.Index.{get_tbl_idx-names}

abbrev row_of : Text → Text → Row
row_of guid content = record { guid = guid; row_data = content; changelog_type = []; rev = 0 }

abbrev ou_table : TblInfo
ou_table = record {
  tbl_name = codes "ou_info";
  rows_count = 2;
  rows = row_of (codes "a") (codes "{}") ∷ row_of (codes "b") (codes "[]") ∷ [];
  total_rev = 1;
}

get_tbl_idx-names_example :
    ((cbccd_pgsql_get_tbl_idx (codes "ou_info") ≡ some 73)
      ↔ ((73 < 75) × (get_elem? tbl_names 73 ≡ some (codes "ou_info"))))
    × (get_elem? tbl_names 75 ≡ some (codes "reporting_network"))
    × (cbccd_pgsql_get_tbl_idx (codes "reporting_network") ≡ none)
    × (get_elem? tbl_names 76 ≡ some (codes "reporting_security"))
    × (cbccd_pgsql_get_tbl_idx (codes "reporting_security") ≡ none)
get_tbl_idx-names_example = get_tbl_idx-names (codes "ou_info") 73

-- A change log with one change.
abbrev one_change : TblInfo
one_change = record {
  tbl_name = codes "ou_info";
  rows_count = 1;
  rows =
      record { guid = codes "a"; row_data = codes "{}"; changelog_type = codes "set"; rev = 1 }
      ∷ [];
  total_rev = 1;
}
