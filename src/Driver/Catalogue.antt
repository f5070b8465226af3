-- ===== src/Driver/Catalogue.antt =====
-- The traits of src/driver/catalogue.rs as records of what they answer: a setting, a measurement, a
-- config field, and the catalogue of a driver.
use heliobridge.Base.{ℕ, Bool, Option, List}
use heliobridge.Model.{Register, Measure}
use heliobridge.Driver.Shapes.{Shape}

pub record Setting : Type 0 where
  pub register : Register
  pub name : List ℕ
  pub shape : Shape
  pub unit : Measure
  pub accepts : ℕ → Bool
  pub accepted : List ℕ
  -- the setting that may make this one inert, and the values with which it does
  pub superseded_by : Option (List ℕ × List ℕ)

pub record Measurement : Type 0 where
  pub name : List ℕ
  pub shape : Shape
  pub is_unknown : Bool
  pub gated_by : Option (List ℕ)

pub record ConfigField : Type 0 where
  pub register : Register
  pub name : List ℕ
  pub action : Option (List ℕ)
  pub is_retarget : Bool
  pub is_destructive : Bool

pub record Catalogue : Type 0 where
  pub settings : ℕ → List Setting
  pub setting_named : List ℕ → Option Setting
  pub slots : ℕ
  pub measurements : List Measurement
  pub writable_config : List ConfigField
