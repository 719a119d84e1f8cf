-- ===== src/Config.antt =====
-- internal/config/config.go and the strict checks on raw configuration of
-- internal/workflow/workflow.go: adapter-owned configuration values as YAML decodes them.
use relay_flow.Prelude.{
  ℕ, zero, suc, ◌+◌, String, List, [], ◌∷◌, ◌++◌, Result, ok, err, ◌>>=◌, ◌>>◌,
}
pub mod Nulls

-- `any` as the YAML decoder fills it; a scalar is kept as its text.
mutual
  pub data Value : Type 0 where
    null : Value
    scalar : String → Value
    mapping : RawValues → Value
    sequence : Elements → Value

  pub data RawValues : Type 0 where
    end : RawValues
    entry : String → Value → RawValues → RawValues

  pub data Elements : Type 0 where
    nil : Elements
    cons : Value → Elements → Elements

-- A key such as `taskConfig.labels[2].name`, as the steps that lead to it.
pub data KeyStep : Type 0 where
  field : String → KeyStep
  index : ℕ → KeyStep

abbrev pub Key : Type 0
Key = List KeyStep

-- The error is the key whose value is an explicit null.
unfoldable mutual
  pub reject_null_value : Value → Key → Result Key (Unit {0})
  reject_null_value null key = err key
  reject_null_value (scalar s) key = ok tt
  reject_null_value (mapping m) key = reject_null_values m key
  reject_null_value (sequence xs) key = reject_null_elements xs key 0

  pub reject_null_values : RawValues → Key → Result Key (Unit {0})
  reject_null_values end path = ok tt
  reject_null_values (entry k v m) path =
      reject_null_value v (path ++ field k ∷ []) >> reject_null_values m path

  pub reject_null_elements : Elements → Key → ℕ → Result Key (Unit {0})
  reject_null_elements nil key i = ok tt
  reject_null_elements (cons v xs) key i =
      reject_null_value v (key ++ index i ∷ []) >> reject_null_elements xs key (i + 1)
