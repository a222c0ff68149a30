-- ===== src/Cache/Names.antt =====
-- The table names of cbccd/cbccd_pgsql.h and the array of cbccd/cbccd_pgsql.c that lists them.
use chroot_cbccd.Base.{
  ℕ, ◌+◌, Option, none, some, List, [], ◌∷◌, take, Text, codes, str_eq, if◌then◌else◌,
}

-- CBCCD_MAX_TBL_NUM
abbrev pub max_tbl_num : ℕ
max_tbl_num = 75

unfoldable pub tbl_names : List Text
tbl_names =
    codes "action_info"
    ∷ codes "agent_info"
    ∷ codes "auto_backup_info"
    ∷ codes "confd_data"
    ∷ codes "config_common"
    ∷ codes "config_device"
    ∷ codes "device_backup"
    ∷ codes "device_info"
    ∷ codes "device_inventory"
    ∷ codes "device_location"
    ∷ codes "device_ou"
    ∷ codes "device_product"
    ∷ codes "global_network_dns_group"
    ∷ codes "global_network_dns_group_ou"
    ∷ codes "global_network_group"
    ∷ codes "global_network_group_ou"
    ∷ codes "global_network_host"
    ∷ codes "global_network_host_ou"
    ∷ codes "global_network_network"
    ∷ codes "global_network_network_ou"
    ∷ codes "global_network_switch"
    ∷ codes "global_network_switch_ou"
    ∷ codes "global_network_multicast"
    ∷ codes "global_network_multicast_ou"
    ∷ codes "global_object_network_dns_group"
    ∷ codes "global_object_network_dns_host"
    ∷ codes "global_object_network_group"
    ∷ codes "global_object_network_host"
    ∷ codes "global_object_network_network"
    ∷ codes "global_object_network_multicast"
    ∷ codes "global_object_packetfilter_packetfilter"
    ∷ codes "global_object_service_ah"
    ∷ codes "global_object_service_esp"
    ∷ codes "global_object_service_group"
    ∷ codes "global_object_service_icmp"
    ∷ codes "global_object_service_ip"
    ∷ codes "global_object_service_tcp"
    ∷ codes "global_object_service_tcpudp"
    ∷ codes "global_object_service_udp"
    ∷ codes "global_object_time_recurring"
    ∷ codes "global_object_time_single"
    ∷ codes "global_packetfilter_packetfilter"
    ∷ codes "global_packetfilter_packetfilter_ou"
    ∷ codes "global_service_ah"
    ∷ codes "global_service_ah_ou"
    ∷ codes "global_service_esp"
    ∷ codes "global_service_esp_ou"
    ∷ codes "global_service_group"
    ∷ codes "global_service_group_ou"
    ∷ codes "global_service_icmp"
    ∷ codes "global_service_icmp_ou"
    ∷ codes "global_service_ip"
    ∷ codes "global_service_ip_ou"
    ∷ codes "global_service_tcp"
    ∷ codes "global_service_tcp_ou"
    ∷ codes "global_service_tcpudp"
    ∷ codes "global_service_tcpudp_ou"
    ∷ codes "global_service_udp"
    ∷ codes "global_service_udp_ou"
    ∷ codes "global_time_recurring"
    ∷ codes "global_time_recurring_ou"
    ∷ codes "global_time_single"
    ∷ codes "global_time_single_ou"
    ∷ codes "monitoring_availability"
    ∷ codes "monitoring_dashboard"
    ∷ codes "monitoring_hardware"
    ∷ codes "monitoring_license"
    ∷ codes "monitoring_network"
    ∷ codes "monitoring_resource"
    ∷ codes "monitoring_service"
    ∷ codes "monitoring_threat"
    ∷ codes "monitoring_version"
    ∷ codes "ou_default"
    ∷ codes "ou_info"
    ∷ codes "reporting_hardware"
    ∷ codes "reporting_network"
    ∷ codes "reporting_security"
    ∷ []

-- The walk over the array, from index `i`.
unfoldable pub index_from : ℕ → List Text → Text → Option ℕ
index_from i [] name = none
index_from i (n ∷ ns) name = if str_eq name n then some i else index_from (i + 1) ns name

-- `cbccd_pgsql_get_tbl_idx`; -1 is `none`. The loop stops at CBCCD_MAX_TBL_NUM.
unfoldable pub cbccd_pgsql_get_tbl_idx : Text → Option ℕ
cbccd_pgsql_get_tbl_idx name = index_from 0 (take max_tbl_num tbl_names) name
