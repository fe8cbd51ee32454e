-- ===== src/Protocol/Values.antt =====
-- JSON values, for the free-form fields (`metadata`, `data`, `input`) of packages/protocol.
use vicoop_bridge.Prelude.{
  ◌≡◌, refl, Bool-cases, inl, inr, arith, ==_iff, String, Bool, false, Option, none, some, ◌==◌,
  string_eq, if◌then◌else◌,
}

mutual
  pub data Json : Type 0 where
    null : Json
    boolean : Bool → Json
    number : String → Json
    text : String → Json
    array : Items → Json
    object : Fields → Json

  pub data Items : Type 0 where
    nil : Items
    cons : Json → Items → Items

  pub data Fields : Type 0 where
    empty : Fields
    field : String → Json → Fields → Fields

-- `fields[name]`
unfoldable pub get_field : String → Fields → Option Json
get_field name empty = none
get_field name (field key value rest) = if key == name then some value else get_field name rest

-- `value[name]` where `value` is known to be a non-null object; an array has no such member.
unfoldable pub member : String → Option Json → Option Json
unfolding get_field
member name (some (object fields)) = get_field name fields
member name _ = none

-- `value === true`
unfoldable pub is_true : Option Json → Bool
is_true (some (boolean b)) = b
is_true _ = false

-- `{ ...fields, [name]: value }`
unfoldable pub set_field : String → Json → Fields → Fields
set_field name value empty = field name value empty
set_field name value (field k v rest) =
    let later = set_field name value rest in
    if k == name then field k value rest else field k v later

-- `{ ...fields, ...more }`
unfoldable pub merge_fields : Fields → Fields → Fields
unfolding set_field
merge_fields fields empty = fields
merge_fields fields (field k v rest) = merge_fields (set_field k v fields) rest

abbrev pub fields_of : Option Json → Fields
fields_of (some (object fields)) = fields
fields_of _ = empty

-- The fields whose names are not taken out
unfoldable pub without_keys : (String → Bool) → Fields → Fields
without_keys taken empty = empty
without_keys taken (field k v rest) =
    let later = without_keys taken rest in if taken k then later else field k v later

-- An object without fields counts as none.
abbrev pub unless_empty : Fields → Option Fields
unless_empty empty = none
unless_empty (field k v rest) = some (field k v rest)

pub get_field-without_keys :
    (taken : String → Bool) (key : String) (fields : Fields)
    → get_field key (without_keys taken fields) ≡ (if taken key then none else get_field key fields)
unfolding get_field without_keys
get_field-without_keys taken key empty = ground arith
get_field-without_keys taken key (field k v rest) = elim (Bool-cases (taken k)) [
  | inl out ↦ rw out (ground (arith, get_field-without_keys taken key rest, ==_iff k key))
  | inr stays ↦ rw stays (ground (arith, get_field-without_keys taken key rest, ==_iff k key))
]

pub get_field-set_field :
    (name key : String) (value : Json) (fields : Fields)
    → get_field key (set_field name value fields)
      ≡ (if name == key then some value else get_field key fields)
unfolding get_field set_field
get_field-set_field name key value empty = refl
get_field-set_field name key value (field k v rest) =
    ground
      (arith, ==_iff k name, ==_iff name key, ==_iff k key, get_field-set_field name key value rest)
