-- ===== src/Wapi.antt =====
-- cbccd/cbccd_wapi.c: the requests of the web interface. The whole daemon that a request can reach:
-- the database manager, the list of devices, the files, and the configuration. `none` is undefined
-- behaviour. What the configuration and the device manager call is performed once they return; that
-- is another order than the code's only where a call adds a device. The locks are left out.
pub mod ActType
pub mod Tables
pub mod Agents
pub mod Ous
pub mod Dispatch
pub mod Kept
pub mod Names
pub mod Denied
pub mod Edited
pub mod Io
pub mod Served
use chroot_cbccd.Base.{
  ℕ, zero, suc, true, if◌then◌else◌, Option, none, some, List, [], ◌∷◌, ◌>>=◌, Text,
}
use chroot_cbccd.Json.Tree.{JsonC}
use chroot_cbccd.Json.Parse.{Request, Item, str_vals, string_type, cbcc_json_parse_from_buffer}
use chroot_cbccd.Json.Edit.{cbcc_json_build}
use chroot_cbccd.Cache.{cbccd_pgsql_set_cache}
use chroot_cbccd.Device.{
  RespCode, is_ok, json_invalid, DeviceMgr, Call, set_guid_tbl_data, rm_guid_tbl_data, set_cache,
  send_cmd, free_socket, mon_remove_data, admin_delete_all_backups, report_delete_data,
}
use chroot_cbccd.Device.Json.{Env}
use chroot_cbccd.Store.{cbccd_pgsql_rm_guid_tbl_data}
use chroot_cbccd.Monitor.{cbccd_mon_remove_data}
use chroot_cbccd.Report.{Effect, database, cbccd_report_delete_data}
use chroot_cbccd.Config.{ConfigMgr}
use chroot_cbccd.Config.References.{ConfigEnv}
use chroot_cbccd.Config.Deploy.{text_jobj}
use chroot_cbccd.Config.Manage.{Answer}
use chroot_cbccd.Digests.{create_random_guid}
use chroot_cbccd.Admin.{
  AdminEnv, World, Event, sent, socket_freed, request, text_after, int_after, happened, put_data,
}
use chroot_cbccd.Admin.Restore.{cbccd_admin_delete_all_backups}

-- The surroundings that administration has, how deep the stack lets check_obj_fw_ref nest, and what
-- an array of texts on the stack holds that nothing was written to.
pub record WapiEnv (S : Type 0) : Type 0 where
  pub admin : AdminEnv S
  pub depth : ℕ
  pub uninit_texts : List Text

pub record Daemon (S : Type 0) : Type 0 where
  pub world : World S
  pub conf : ConfigMgr

-- struct cbccd_wapi_request, with "data" NULL where the request has none.
pub record WapiRequest : Type 0 where
  pub action : Text
  pub type : Text
  pub content : Option Text

-- What a handler returns: its code, the data of the response, and the daemon afterwards.
pub record Reply (S : Type 0) : Type 0 where
  pub code : RespCode
  pub resp_data : Option Text
  pub daemon : Daemon S

-- Entry number `i` of what was parsed.
abbrev pub item_at : List (Option Item) → ℕ → Option Item
item_at [] i = none
item_at (x ∷ xs) zero = x
item_at (x ∷ xs) (suc i) = item_at xs i

abbrev pub texts_after : List Text → Option Item → List Text
texts_after old (some (str_vals ts)) = ts
texts_after old i = old

-- The surroundings, with the tables and the default OU of the moment.
module _ {S : Type 0} (env : WapiEnv S) (d : Daemon S) where
  abbrev pub dev_env : Env
  dev_env = record (env.admin.dev) {
    tables = d.world.db.tbl_infos;
    default_ou = d.conf.ou_list.default_ou_info;
  }

  abbrev pub admin_env : AdminEnv S
  admin_env = record (env.admin) { dev = dev_env }

  abbrev pub config_env : ConfigEnv
  config_env = record {
    lib = env.admin.lib;
    ssl = env.admin.ssl;
    sends = env.admin.sends;
    depth = env.depth;
    dev = dev_env;
  }

-- The calls that the other components make.
module _ {S : Type 0} (env : AdminEnv S) where
  abbrev pub without_row : World S → Text → Text → World S
  without_row w name guid = record w { db = cbccd_pgsql_rm_guid_tbl_data env.exec w.db name guid }

  abbrev pub with_cache : World S → Text → Text → World S
  with_cache w guid t = record w {
    db = record (w.db) { changelog_info = cbccd_pgsql_set_cache w.db.changelog_info guid t };
  }

  unfoldable pub call_once : World S → Call → World S
  call_once w (set_guid_tbl_data name guid t) = put_data env w name guid t
  call_once w (rm_guid_tbl_data name guid) = without_row w name guid
  call_once w (set_cache guid t) = with_cache w guid t
  call_once w (send_cmd sock t) = happened env w (sent sock t)
  call_once w (free_socket sock) = happened env w (socket_freed sock)
  call_once w (admin_delete_all_backups guid) = cbccd_admin_delete_all_backups env w guid
  call_once w (mon_remove_data guid) = w
  call_once w (report_delete_data guid) = w

  unfoldable pub calls_once : World S → List Call → World S
  calls_once w [] = w
  calls_once w (c ∷ cs) = calls_once (call_once w c) cs

  -- What cbccd_report_delete_data does: rows are removed, and the directory.
  unfoldable pub effects : World S → List Effect → World S
  effects w [] = w
  effects w (database c ∷ es) = effects (call_once w c) es
  effects w (Effect.remove_path p ∷ es) = effects (happened env w (Event.remove_path p)) es
  effects w (e ∷ es) = effects w es

  -- A call of another component, and calls one after another.
  unfoldable pub call : World S → Call → World S
  call w (mon_remove_data guid) = calls_once w (cbccd_mon_remove_data guid)
  call w (report_delete_data guid) = effects w (cbccd_report_delete_data guid)
  call w c = call_once w c

  unfoldable pub perform_calls : World S → List Call → World S
  perform_calls w [] = w
  perform_calls w (c ∷ cs) = perform_calls (call w c) cs

-- The daemon once a call of the configuration, or of the device manager, has returned.
module _ {S : Type 0} (env : WapiEnv S) (d : Daemon S) where
  abbrev pub with_world : World S → Daemon S
  with_world w = record d { world = w }

  abbrev with_parts : ConfigMgr → DeviceMgr → Daemon S
  with_parts conf devs = record { world = record (d.world) { devs = devs }; conf = conf }

  unfoldable pub called : ConfigMgr → DeviceMgr → List Call → Daemon S
  called conf devs calls =
      let next = with_parts conf devs in
      record next { world = perform_calls (admin_env env next) next.world calls }

  abbrev pub answered : Answer → Reply S
  answered a = record { code = a.code; resp_data = none; daemon = called a.mgr a.devs a.calls }

  abbrev pub plain : RespCode → Reply S
  plain code = record { code = code; resp_data = none; daemon = d }

  abbrev pub of_admin : RespCode × World S → Reply S
  of_admin (code, w) = record { code = code; resp_data = none; daemon = with_world w }

  -- The values of a request's data, which must not be NULL; with -1 the handler returns
  -- CBCC_RESP_JSON_INVALID.
  unfoldable pub parse_data : Option Text → List Request → Option (Option (List (Option Item)))
  parse_data content rs = content >>= λ t. cbcc_json_parse_from_buffer env.admin.lib t rs

  abbrev pub or_invalid :
      (List (Option Item) → Option (Reply S)) → Option (List (Option Item)) → Option (Reply S)
  or_invalid k none = some (plain json_invalid)
  or_invalid k (some is) = k is

  abbrev pub with_data :
      Option Text → List Request → (List (Option Item) → Option (Reply S)) → Option (Reply S)
  with_data content rs k = parse_data content rs >>= or_invalid k

  abbrev unwritten : Option Text → Text
  unwritten none = env.admin.dev.uninit
  unwritten (some t) = t

  -- `create_random_guid` into an array on the stack.
  abbrev pub random_guid : Text
  random_guid = unwritten (create_random_guid env.admin.ssl env.admin.dev.now env.admin.random)

  -- What array number `i` of a request holds.
  abbrev pub text_at : List (Option Item) → ℕ → Text
  text_at is i = text_after env.admin.dev.uninit (item_at is i)

  abbrev pub int_at : List (Option Item) → ℕ → ℕ
  int_at is i = int_after env.admin.uninit_int (item_at is i)

  abbrev pub texts_at : List (Option Item) → ℕ → List Text
  texts_at is i = texts_after env.uninit_texts (item_at is i)

-- A response that is OK gets an object with one text.
unfoldable pub with_text : {S : Type 0} → JsonC → Text → Text → Reply S → Option (Reply S)
with_text lib key t r =
    if is_ok r.code
    then (cbcc_json_build lib (text_jobj key t ∷ []) >>= λ resp.
        some (record r { resp_data = some resp }))
    else some r

abbrev pub guid_len : ℕ
guid_len = 128

abbrev pub text_of : Text → ℕ → Request
text_of key size = request string_type size none key

abbrev pub must : Request → Request
must r = record r { must_specify = true }
