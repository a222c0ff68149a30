-- ===== src/Examples/Agents.antt =====
-- Runs of what agents send for monitoring and reports, and of digests.
use chroot_cbccd.Base.{◌≡◌, refl, some, List, [], codes, str_eq}
use chroot_cbccd.Json.Tree.{Members, object_node, string_node, no_members, member}
use chroot_cbccd.Device.{ok, Call, DeviceInfo, find_device, cbccd_device_get_info_by_sock}
use chroot_cbccd.Monitor.{device_monitor_objs, cbccd_mon_set_data}
use chroot_cbccd.Monitor.Stored.{StoresAll, cbccd_mon_set_data_lem}
use chroot_cbccd.Report.{report_tbl_names, set_report_info_into_db}
use chroot_cbccd.Report.Tables.{Reports, set_report_info_into_db_lem}
use chroot_cbccd.Examples.Texts.{object_text, reading, reading-IsLawful}
use chroot_cbccd.Examples.Devices.{demo_mgr, demo_device}

-- What the parser of these runs reads: a license that is an object, and a version that is none.
abbrev the_data : Members
the_data =
    member (codes "monitoring.license") (object_node no_members)
      (member (codes "monitoring.version") (string_node (codes "1")) no_members)

data_reads : (reading the_data).tokener_parse object_text ≡ some (object_node the_data)
unfolding str_eq
data_reads = refl

abbrev the_sender : DeviceInfo
the_sender = demo_device (codes "g1") 5 90

sender_found : cbccd_device_get_info_by_sock demo_mgr (some 5) ≡ some the_sender
unfolding cbccd_device_get_info_by_sock find_device
sender_found = refl

cbccd_mon_set_data_lem_example :
    (calls : List Call) × (cbccd_mon_set_data (reading the_data) [] demo_mgr (some 5) object_text
      ≡ some (ok, calls))
    × StoresAll (reading the_data) [] (codes "g1") the_data device_monitor_objs calls
cbccd_mon_set_data_lem_example =
    cbccd_mon_set_data_lem (reading the_data) [] demo_mgr (some 5) object_text the_sender the_data
      (reading-IsLawful the_data) sender_found refl data_reads

abbrev the_report : Members
the_report = member (codes "reporting_hardware") (object_node no_members) (
    member (codes "reporting_network") (object_node no_members)
      (member (codes "reporting_security") (object_node no_members) no_members))

report_reads : (reading the_report).tokener_parse object_text ≡ some (object_node the_report)
unfolding str_eq
report_reads = refl

set_report_info_into_db_lem_example :
    Reports
      (reading the_report)
      (codes "g1")
      the_report
      report_tbl_names
      (set_report_info_into_db (reading the_report) (codes "g1") object_text)
set_report_info_into_db_lem_example =
    set_report_info_into_db_lem (reading the_report) (codes "g1") object_text the_report
      (reading-IsLawful the_report) report_reads
