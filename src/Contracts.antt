-- ===== src/Contracts.antt =====
-- JSON values, and src/genesis/contracts/catalog.py: the catalog of canonical schemas.
--
-- The JSON Schema validator (`jsonschema`, `referencing`) is a field of the catalog: the errors that
-- `iter_errors` yields for a schema and a payload. Reading the schema files is not modelled: a
-- catalog is given with its documents.
pub mod Catalog
use genesis_ai.Prelude.{
  ℕ, Bool, true, false, Option, none, some, List, [], ◌∷◌, String, if◌then◌else◌, ◌==◌, string_eq,
}

mutual
  -- `int` holds n, `negative` -(n + 1), and `float` the bit pattern of a float.
  pub data Json : Type 0 where
    null : Json
    bool : Bool → Json
    int negative float : ℕ → Json
    str : String → Json
    arr : Items → Json
    obj : Fields → Json

  pub data Items : Type 0 where
    nil : Items
    cons : Json → Items → Items

  pub data Fields : Type 0 where
    end : Fields
    field : String → Json → Fields → Fields

-- A list of values, each by its own encoding.
abbrev pub items {ℓ} : {A : Type ℓ} → (A → Json) → List A → Items
items f [] = nil
items f (x ∷ xs) = cons (f x) (items f xs)

-- `list(texts)`
abbrev pub texts : List String → Json
texts xs = arr (items str xs)

-- `d.get(key)`
abbrev pub get_field : String → Fields → Option Json
get_field k end = none
get_field k (field j v fs) = let rest = get_field k fs in if j == k then some v else rest

-- A field that is written only when its value is there.
abbrev pub optional_field {ℓ} : {A : Type ℓ} → String → (A → Json) → Option A → Fields → Fields
optional_field k f none fs = fs
optional_field k f (some a) fs = field k (f a) fs
