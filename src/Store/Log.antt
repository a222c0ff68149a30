-- ===== src/Store/Log.antt =====
-- What `cbccd_pgsql_get_cache` reports of the change log after a change.
use chroot_cbccd.Base.{[], ◌∷◌, Text}
use chroot_cbccd.Cache.{Row, TblInfo}

-- A log with one table name and one row.
abbrev pub lone : Text → Row → TblInfo
lone name r = record { tbl_name = name; rows_count = 1; rows = r ∷ []; total_rev = r.rev }
