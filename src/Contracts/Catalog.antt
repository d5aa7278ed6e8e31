-- ===== src/Contracts/Catalog.antt =====
-- `CanonicalContractCatalog.validate`.
use genesis_ai.Prelude.{
  ℕ, ◌≡◌, refl, ◌↔◌, Bool, true, false, none, some, List, [], ◌∷◌, String, Result, ok, err,
  is_empty, is_empty-sort, sort, str_leb, leb, join, map, lookup, string_eq, if◌then◌else◌, ◌==◌,
  Option,
}
use genesis_ai.Contracts.{Json, Fields}

-- A step of the path to an offending value: a key of an object or an index of an array.
pub data PathPart : Type 0 where
  key : String → PathPart
  index : ℕ → PathPart

pub record SchemaError : Type 0 where
  pub path : List PathPart
  pub message : String

pub data CatalogError : Type 0 where
  schema_not_available : (schema_id : String) → CatalogError
  contract_validation_error : (schema_id path reason : String) → CatalogError

-- `decimal` is `str` of an index, and `iter_errors` the validator of a schema.
pub record CanonicalContractCatalog : Type 0 where
  pub documents : List (String × Json)
  pub iter_errors : Json → Fields → List SchemaError
  pub decimal : ℕ → String

-- Two paths differ first below one value, which is an object or an array, so Python never compares
-- a key with an index.
part_leb : PathPart → PathPart → Bool
part_leb (key a) (key b) = str_leb a b
part_leb (index a) (index b) = leb a b
part_leb (index _) (key _) = true
part_leb (key _) (index _) = false

-- `list(item.path)` compared
path_leb : List PathPart → List PathPart → Bool
unfolding part_leb
path_leb [] q = true
path_leb (a ∷ p) [] = false
path_leb (a ∷ p) (b ∷ q) =
    let rest = path_leb p q in if part_leb a b then (if part_leb b a then rest else true) else false

part_text : (ℕ → String) → PathPart → String
part_text decimal (key s) = s
part_text decimal (index n) = decimal n

-- `".".join(str(part) for part in first.path) or "$"`
path_text : (ℕ → String) → List PathPart → String
unfolding part_text
path_text decimal [] = "$"
path_text decimal (p ∷ ps) =
    let joined = join "." (map (part_text decimal) (p ∷ ps)) in if joined == "" then "$" else joined

first_error :
    CanonicalContractCatalog → String → List SchemaError → Fields → Result CatalogError Fields
unfolding path_text
first_error self schema_id [] payload = ok payload
first_error self schema_id (e ∷ es) payload =
    err (contract_validation_error schema_id (path_text self.decimal e.path) e.message)

error_leb : SchemaError → SchemaError → Bool
unfolding path_leb
error_leb a b = path_leb a.path b.path

validate_against :
    CanonicalContractCatalog → String → Fields → Option Json → Result CatalogError Fields
unfolding first_error error_leb
validate_against self schema_id payload none = err (schema_not_available schema_id)
validate_against self schema_id payload (some schema) =
    first_error self schema_id (sort error_leb (self.iter_errors schema payload)) payload

unfoldable pub validate : CanonicalContractCatalog → String → Fields → Result CatalogError Fields
unfolding validate_against
validate self schema_id payload =
    validate_against self schema_id payload (lookup schema_id self.documents)

-- The payload has a known schema, and the validator finds no error in it.
pub record Conforms (self : CanonicalContractCatalog) (schema_id : String) (payload : Fields)
    : Type 0 where
  pub schema : Json
  pub known : lookup schema_id self.documents ≡ some schema
  pub no_error : self.iter_errors schema payload ≡ []

nil_of_is_empty {ℓ} : {A : Type ℓ} (xs : List A) → is_empty xs ≡ true → xs ≡ []
nil_of_is_empty [] h = refl
nil_of_is_empty (x ∷ xs) h = cc

first_error-eq-ok :
    (self : CanonicalContractCatalog) (schema_id : String) (es : List SchemaError)
    (payload out : Fields)
    → first_error self schema_id es payload ≡ ok out
    → (is_empty es ≡ true) × (out ≡ payload)
unfolding first_error
first_error-eq-ok self schema_id [] payload out h = (refl, cc)
first_error-eq-ok self schema_id (e ∷ es) payload out h = (cc, cc)

validate_against→Conforms :
    (self : CanonicalContractCatalog) (schema_id : String) (payload out : Fields)
    (found : Option Json)
    → lookup schema_id self.documents ≡ found
    → validate_against self schema_id payload found ≡ ok out
    → Conforms self schema_id payload × (out ≡ payload)
unfolding validate_against
validate_against→Conforms self schema_id payload out none e h = absurd (cc)
validate_against→Conforms self schema_id payload out (some schema) e h =
    let es = self.iter_errors schema payload in
    let (clean, same) = first_error-eq-ok self schema_id (sort error_leb es) payload out h in
    (
      record {
        schema = schema;
        known = e;
        no_error = nil_of_is_empty es (rw (is_empty-sort error_leb es) at clean);
      },
      same,
    )

Conforms→validate :
    (self : CanonicalContractCatalog) (schema_id : String) (payload : Fields)
    → Conforms self schema_id payload
    → validate self schema_id payload ≡ ok payload
unfolding validate
Conforms→validate self schema_id payload c =
    rw (validate_against, c.known) (rw (validate_against, c.no_error) refl)

validate→Conforms :
    (self : CanonicalContractCatalog) (schema_id : String) (payload out : Fields)
    → validate self schema_id payload ≡ ok out
    → Conforms self schema_id payload × (out ≡ payload)
unfolding validate
validate→Conforms self schema_id payload out h =
    validate_against→Conforms self schema_id payload out (lookup schema_id self.documents) refl h

-- A payload is returned unchanged exactly when its schema is in the catalog and the validator finds
-- no error in it; no call returns anything but its own payload.
pub validate-eq-ok_iff :
    (self : CanonicalContractCatalog) (schema_id : String) (payload out : Fields)
    → (validate self schema_id payload ≡ ok out)
      ↔ (Conforms self schema_id payload × (out ≡ payload))
validate-eq-ok_iff self schema_id payload out = (
  validate→Conforms self schema_id payload out,
  λ (c, same). rw same (Conforms→validate self schema_id payload c),
)
