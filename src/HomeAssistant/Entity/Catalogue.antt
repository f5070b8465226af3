-- ===== src/HomeAssistant/Entity/Catalogue.antt =====
-- `Catalogue` of src/homeassistant/entity.rs: every entity that a device should have.
use heliobridge.Base.{
  ℕ, Bool, true, false, not, ◌&&◌, Option, none, some, List, [], ◌∷◌, ◌++◌, map, leb, if◌then◌else◌,
}
use heliobridge.Base.Text.{codes}
use heliobridge.Driver.Catalogue.{Setting, Measurement}
use heliobridge.Driver.Catalogue
use heliobridge.HomeAssistant.Command.{Permitted, allows}
use heliobridge.HomeAssistant.Topics.{telemetry}
use heliobridge.HomeAssistant.Entity.{
  sensor, Component, Entity, accessory_list, battery_pack, bridge_version, cell_spread, connected,
  data_interval, firmware_version, for_reading, for_setting, into_read_only, last_update,
  meter_reading, one_of, pair_lora_accessory, restart, resting_voltage, serial_number, soc_credible,
  wifi_signal, withdraw_meter_reading,
}

-- `BATTERY_PACKS` and `Catalogue`
abbrev pub battery_packs : ℕ
battery_packs = 4

pub record EntityCatalogue : Type 0 where
  pub slots : ℕ
  pub permitted : Permitted
  pub packs : ℕ

-- `Catalogue::includes`
unfoldable pub includes : EntityCatalogue → Entity → Bool
unfolding battery_pack
includes c e = elim (battery_pack e) [ none ↦ true | some pack ↦ leb pack c.packs ]

-- The entity of a setting in `Catalogue::entities`.
unfoldable pub offered : Permitted → List (List ℕ) → Setting → Entity
unfolding for_setting into_read_only allows
offered p measured s =
    let e : Entity = for_setting s in
    let shown : Entity =
      if one_of measured s.name then record e { source = some telemetry } else e in
    if allows p s.name then shown else into_read_only shown

unfoldable pub kept_reading : EntityCatalogue → List (List ℕ) → Option Entity → List Entity
unfolding includes
kept_reading c claimed none = []
kept_reading c claimed (some e) = if includes c e && not (one_of claimed e.key) then e ∷ [] else []

unfoldable pub readings : EntityCatalogue → List (List ℕ) → List Measurement → List Entity
unfolding for_reading kept_reading
readings c claimed [] = []
readings c claimed (m ∷ more) = kept_reading c claimed (for_reading m) ++ readings c claimed more

abbrev measurement_name : Measurement → List ℕ
measurement_name m = m.name

abbrev pub entity_key : Entity → List ℕ
entity_key e = e.key

-- the entities that are there whatever the driver has
unfoldable pub always : List Entity
unfolding connected last_update bridge_version wifi_signal data_interval serial_number
    firmware_version accessory_list cell_spread resting_voltage soc_credible
always =
    connected
    ∷ (last_update
        ∷ (bridge_version
            ∷ (wifi_signal
                ∷ (data_interval
                    ∷ (serial_number
                        ∷ (firmware_version
                            ∷ (accessory_list (codes "accessory_list")
                                ∷ (accessory_list (codes "accessory_list_rf")
                                    ∷ (cell_spread
                                        ∷ (resting_voltage ∷ (soc_credible ∷ [])))))))))))

unfoldable pub controls : Permitted → List Entity
unfolding restart meter_reading withdraw_meter_reading pair_lora_accessory
controls p =
    if p.writes
    then restart ∷ (meter_reading ∷ (withdraw_meter_reading ∷ (pair_lora_accessory ∷ [])))
    else []

unfoldable pub setting_entities : EntityCatalogue → Catalogue.Catalogue → List Entity
unfolding offered
setting_entities c d =
    map (offered c.permitted (map measurement_name d.measurements)) (d.settings c.slots)

-- `Catalogue::entities`
unfoldable pub entities : EntityCatalogue → Catalogue.Catalogue → List Entity
unfolding setting_entities readings always controls
entities c d =
    readings c (map entity_key (setting_entities c d)) d.measurements
    ++ (setting_entities c d ++ (always ++ controls c.permitted))

-- `Catalogue::RETIRED` and `everything`
abbrev pub retired : List (Component × List ℕ)
retired = (sensor, codes "sw_version_part_1") ∷ ((sensor, codes "sw_version_part_2") ∷ [])

unfoldable pub everything : Catalogue.Catalogue → List Entity
unfolding entities
everything d =
    entities
      (record {
        slots = d.slots;
        permitted = record { writes = true; power_plus = true };
        packs = battery_packs;
      })
      d
    ++ entities
        (record {
          slots = d.slots;
          permitted = record { writes = false; power_plus = true };
          packs = battery_packs;
        })
        d
