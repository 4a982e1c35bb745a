-- ===== src/Json.antt =====
-- JSON values, as the JSONB columns hold them; a number is kept as the text it renders to.
use tools_backend.Base.{Bool, Option, none, some, if◌then◌else◌, Text, text_eq}

mutual
  pub data Json : Type 0 where
    null : Json
    bool : Bool → Json
    number : Text → Json
    string : Text → Json
    array : Elements → Json
    object : Fields → Json

  pub data Elements : Type 0 where
    nil : Elements
    element : Json → Elements → Elements

  -- A Python dict in the order of insertion.
  pub data Fields : Type 0 where
    empty : Fields
    field : Text → Json → Fields → Fields

-- `d.get(key)`
abbrev pub lookup : Text → Fields → Option Json
lookup key empty = none
lookup key (field k v d) = let rest = lookup key d in if text_eq key k then some v else rest

-- `d[key] = value`: the entry keeps its place, a new one goes last.
abbrev pub store : Text → Json → Fields → Fields
store key value empty = field key value empty
store key value (field k v d) =
    let rest = store key value d in if text_eq key k then field k value d else field k v rest
