-- ===== src/Growatt/Registers/Config.antt =====
-- The config registers of src/growatt/v7/registers.rs: `CONFIG_REGISTERS` and its look-ups.
use heliobridge.Base.{ℕ, Option, List, [], ◌∷◌, String, find, ◌==◌}
use heliobridge.Base.Text.{codes}
use heliobridge.Base.Text.Parsing.{same_text}
use heliobridge.Model.{Register, Confidence}

pub data Role : Type 0 where
  identity metadata endpoint dynamic inert : Role

-- `Role::as_str`
unfoldable pub as_str : Role → String
as_str Role.identity = "identity"
as_str Role.metadata = "metadata"
as_str Role.endpoint = "endpoint"
as_str Role.dynamic = "dynamic"
as_str Role.inert = "inert"

-- `Reported` and `OnRequest`
pub data Availability : Type 0 where
  reported requested : Availability

pub record ConfigRegister : Type 0 where
  pub register : Register
  pub name : String
  pub role : Role
  pub availability : Availability
  pub confidence : Confidence

abbrev entry : Availability → Register → String → Role → Confidence → ConfigRegister
entry a r n role c = record {
  register = r;
  name = n;
  role = role;
  availability = a;
  confidence = c;
}

abbrev at_connect : Register → String → Role → Confidence → ConfigRegister
at_connect = entry Availability.reported

abbrev on_request : Register → String → Role → Confidence → ConfigRegister
on_request = entry Availability.requested

-- `CONFIG_REGISTERS`
abbrev pub config_registers : List ConfigRegister
config_registers =
    at_connect 4 "data_interval" Role.dynamic Confidence.verified
    ∷ at_connect 7 "password" Role.identity Confidence.observed
    ∷ at_connect 8 "serial_number" Role.identity Confidence.verified
    ∷ at_connect 9 "protocol_version" Role.metadata Confidence.observed
    ∷ at_connect 12 "dns_ip" Role.endpoint Confidence.observed
    ∷ at_connect 13 "device_type" Role.metadata Confidence.observed
    ∷ at_connect 14 "static_network_ip" Role.inert Confidence.vendor
    ∷ at_connect 16 "mac_address" Role.identity Confidence.observed
    ∷ at_connect 17 "server_address" Role.endpoint Confidence.verified
    ∷ at_connect 18 "remote_port" Role.endpoint Confidence.verified
    ∷ at_connect 19 "remote_url" Role.endpoint Confidence.verified
    ∷ at_connect 20 "model_id" Role.metadata Confidence.observed
    ∷ at_connect 21 "sw_version" Role.metadata Confidence.verified
    ∷ at_connect 22 "hw_version" Role.metadata Confidence.observed
    ∷ at_connect 25 "static_network_mask" Role.inert Confidence.vendor
    ∷ at_connect 26 "static_network_gateway" Role.inert Confidence.vendor
    ∷ at_connect 30 "timezone" Role.metadata Confidence.verified
    ∷ at_connect 31 "datetime" Role.dynamic Confidence.verified
    ∷ on_request 32 "restart" Role.dynamic Confidence.observed
    ∷ on_request 35 "factory_reset" Role.dynamic Confidence.vendor
    ∷ on_request 54 "ble_handshake_key" Role.identity Confidence.verified
    ∷ on_request 55 "router_status" Role.dynamic Confidence.verified
    ∷ on_request 56 "wifi_ssid" Role.identity Confidence.observed
    ∷ on_request 57 "wifi_password" Role.identity Confidence.observed
    ∷ on_request 60 "server_status" Role.dynamic Confidence.verified
    ∷ on_request 61 "sdk_version" Role.metadata Confidence.observed
    ∷ on_request 71 "dhcp_disabled" Role.metadata Confidence.vendor
    ∷ at_connect 76 "wifi_signal" Role.dynamic Confidence.verified
    ∷ on_request 80 "update_url" Role.dynamic Confidence.observed
    ∷ at_connect 102 "accessory_list_rf" Role.dynamic Confidence.vendor
    ∷ on_request 105 "unknown_105" Role.identity Confidence.inferred
    ∷ on_request 106 "unknown_106" Role.inert Confidence.inferred
    ∷ on_request 107 "unknown_107" Role.inert Confidence.inferred
    ∷ on_request 108 "unknown_108" Role.inert Confidence.inferred
    ∷ on_request 109 "unknown_109" Role.inert Confidence.inferred
    ∷ on_request 121 "link_diagnostics" Role.inert Confidence.inferred
    ∷ at_connect 122 "accessory_list" Role.dynamic Confidence.observed
    ∷ on_request 123 "accessory_found" Role.dynamic Confidence.observed
    ∷ on_request 124 "connection_event_00" Role.dynamic Confidence.observed
    ∷ on_request 125 "connection_event_01" Role.dynamic Confidence.observed
    ∷ on_request 126 "connection_event_02" Role.dynamic Confidence.observed
    ∷ on_request 127 "connection_event_03" Role.dynamic Confidence.observed
    ∷ on_request 128 "connection_event_04" Role.dynamic Confidence.observed
    ∷ on_request 129 "connection_event_05" Role.dynamic Confidence.observed
    ∷ on_request 130 "connection_event_06" Role.dynamic Confidence.observed
    ∷ on_request 131 "connection_event_07" Role.dynamic Confidence.observed
    ∷ on_request 132 "connection_event_08" Role.dynamic Confidence.observed
    ∷ on_request 133 "connection_event_09" Role.dynamic Confidence.observed
    ∷ on_request 134 "connection_event_10" Role.dynamic Confidence.observed
    ∷ on_request 135 "connection_event_11" Role.dynamic Confidence.observed
    ∷ on_request 136 "connection_event_12" Role.dynamic Confidence.observed
    ∷ on_request 137 "connection_event_13" Role.dynamic Confidence.observed
    ∷ on_request 138 "connection_event_14" Role.dynamic Confidence.observed
    ∷ on_request 139 "dhcp_lease_0" Role.identity Confidence.observed
    ∷ on_request 140 "dhcp_lease_1" Role.identity Confidence.observed
    ∷ on_request 143 "routed_modbus_enabled" Role.metadata Confidence.vendor
    ∷ on_request 144 "assembled_values" Role.identity Confidence.inferred
    ∷ []

-- `ConfigRegister::lookup` and `lookup_name`
unfoldable pub lookup : Register → Option ConfigRegister
lookup r = find (λ (e : ConfigRegister). e.register == r) config_registers

unfoldable pub lookup_name : List ℕ → Option ConfigRegister
unfolding same_text
lookup_name name = find (λ (e : ConfigRegister). same_text (codes e.name) name) config_registers
