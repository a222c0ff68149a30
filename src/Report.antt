-- ===== src/Report.antt =====
-- cbccd/cbccd_report.c: reports of agents. What is done to files and the commands that are run are
-- a list of effects, in the order of the code; `none` is undefined behaviour.
pub mod Tables
use chroot_cbccd.Base.{
  ℕ, Bool, true, false, not, Option, none, some, List, [], ◌∷◌, ◌++◌, map, ◌>>=◌, if◌then◌else◌,
  Status, success, failure, Text, codes, snprintf,
}
use chroot_cbccd.Json.Tree.{JsonC}
use chroot_cbccd.Json.Parse.{
  Request, Item, str_val_big, DataType, object_big_type, string_big_type,
  cbcc_json_parse_from_buffer,
}
use chroot_cbccd.Digests.{OpenSsl, decode_base64_to_file}
use chroot_cbccd.Device.{
  DeviceInfo, DeviceMgr, Call, set_guid_tbl_data, rm_guid_tbl_data, cbccd_device_get_info_by_sock,
}

-- json-c, OpenSSL, and whether the two streams of decode_base64_to_file can be opened.
pub record ReportEnv : Type 0 where
  pub lib : JsonC
  pub ssl : OpenSsl
  pub opens_in : Bool
  pub opens_out : Bool

pub data Effect : Type 0 where
  database : Call → Effect
  remove_dir : Text → Effect
  make_dir : Text → Effect
  write_file : Text → List ℕ → Effect
  run_command : Text → Effect
  remove_path : Text → Effect

-- `report_tbl_names`
abbrev pub report_tbl_names : List Text
report_tbl_names =
    codes "reporting_hardware" ∷ codes "reporting_network" ∷ codes "reporting_security" ∷ []

abbrev pub big_request : DataType → Bool → Text → Request
big_request type must name = record {
  key = name;
  parent_key = none;
  data_size = 0;
  must_specify = must;
  is_root = false;
  type = type;
}

-- The text that a pointer was set to; a pointer that stayed NULL is read all the same.
abbrev pub big_text : Option Item → Option Text
big_text (some (str_val_big t)) = some t
big_text i = none

abbrev pub first_big : List (Option Item) → Option Text
first_big [] = none
first_big (i ∷ is) = big_text i

-- One round of `set_report_info_into_db`: a text that does not parse is passed over.
unfoldable pub table_calls : JsonC → Text → Text → Text → Option (List Call)
table_calls lib guid report_info name = do
  r ← cbcc_json_parse_from_buffer lib report_info (big_request object_big_type false name ∷ [])
  elim r [
    | none ↦ some []
    | some is ↦ first_big is >>= λ t. some (set_guid_tbl_data name guid t ∷ [])
  ]

unfoldable pub info_calls : JsonC → Text → Text → List Text → Option (List Call)
info_calls lib guid report_info [] = some []
info_calls lib guid report_info (name ∷ names) = do
  calls ← table_calls lib guid report_info name
  rest ← info_calls lib guid report_info names
  some (calls ++ rest)

unfoldable pub set_report_info_into_db : JsonC → Text → Text → Option (List Call)
set_report_info_into_db lib guid report_info = info_calls lib guid report_info report_tbl_names

abbrev pub archive_dir : Text → Text
archive_dir guid = snprintf 128 (codes "/var/storage/sessions/rrd-images/" ++ guid)

abbrev pub archive_path : Text → Text
archive_path guid = snprintf 128 (archive_dir guid ++ codes "/imags.tar.gz")

abbrev unzip_cmd : Text → Text
unzip_cmd guid = snprintf 41024 (
    codes "/bin/tar xvzf "
    ++ (archive_path guid ++ (codes " -C " ++ (archive_dir guid ++ codes " >/dev/null"))))

abbrev unpacking : Text → Option (List ℕ) → List Effect
unpacking guid none = []
unpacking guid (some bytes) =
    write_file (archive_path guid) bytes ∷ run_command (unzip_cmd guid) ∷ []

-- `set_report_pngs_into_dir`
unfoldable pub set_report_pngs_into_dir : ReportEnv → Text → Text → List Effect
set_report_pngs_into_dir env guid png_data =
    remove_dir (archive_dir guid)
    ∷ make_dir (archive_dir guid)
    ∷ unpacking guid (decode_base64_to_file env.ssl env.opens_in env.opens_out png_data)

abbrev data_requests : List Request
data_requests =
    big_request object_big_type true (codes "report_info")
    ∷ big_request string_big_type true (codes "png_contents")
    ∷ []

-- The two texts, which must not be NULL.
abbrev two_texts : List (Option Item) → Option (Text × Text)
two_texts (i ∷ j ∷ is) = big_text i >>= λ a. big_text j >>= λ b. some (a, b)
two_texts is = none

unfoldable pub store_report : ReportEnv → Text → Text × Text → Option (Status × List Effect)
store_report env guid (info, pngs) = do
  calls ← set_report_info_into_db env.lib guid info
  some (success, map database calls ++ set_report_pngs_into_dir env guid pngs)

unfoldable pub cbccd_report_set_data :
    ReportEnv → DeviceMgr → Option ℕ → Text → Option (Status × List Effect)
cbccd_report_set_data env devs sock report_data = elim (cbccd_device_get_info_by_sock devs sock) [
  | none ↦ some (failure, [])
  | some d ↦ if not d.is_logined then some (failure, []) else do
    r ← cbcc_json_parse_from_buffer env.lib report_data data_requests
    elim r [ none ↦ some (failure, []) | some is ↦ two_texts is >>= store_report env d.guid ]
]

-- `cbccd_report_delete_data`
unfoldable pub cbccd_report_delete_data : Text → List Effect
cbccd_report_delete_data guid =
    map (λ name. database (rm_guid_tbl_data name guid)) report_tbl_names
    ++ (remove_path (archive_dir guid) ∷ [])
