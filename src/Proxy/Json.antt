-- ===== src/Proxy/Json.antt =====
-- What encoding/json makes of a text when it decodes into `interface{}`, and the codec itself, which
-- is a parameter. A number is passed on unread.
use tkngate.Base.{◌≡◌, refl, ap, Bool, Option, none, some, List, [], ◌∷◌}
use tkngate.Base.Bytes.{Bytes}
use tkngate.Base.Maps.{Map}

mutual
  pub data Json : Type 0 where
    null : Json
    boolean : Bool → Json
    number : Bytes → Json
    str : Bytes → Json
    arr : Items → Json
    obj : Fields → Json

  pub data Items : Type 0 where
    nil : Items
    cons : Json → Items → Items

  pub data Fields : Type 0 where
    end : Fields
    field : Bytes → Json → Fields → Fields

-- A value as a `[]interface{}` and a `map[string]interface{}`, and back.
abbrev pub items : List Json → Items
items [] = nil
items (x ∷ xs) = cons x (items xs)

abbrev pub list_of : Items → List Json
list_of nil = []
list_of (cons x xs) = x ∷ list_of xs

abbrev pub fields : Map Json → Fields
fields [] = end
fields ((k, v) ∷ m) = field k v (fields m)

abbrev pub map_of : Fields → Map Json
map_of end = []
map_of (field k v fs) = (k, v) ∷ map_of fs

pub list_of-items : (xs : List Json) → list_of (items xs) ≡ xs
list_of-items [] = refl
list_of-items (x ∷ xs) = ap (λ r. x ∷ r) (list_of-items xs)

pub map_of-fields : (m : Map Json) → map_of (fields m) ≡ m
map_of-fields [] = refl
map_of-fields ((k, v) ∷ m) = ap (λ r. (k, v) ∷ r) (map_of-fields m)

-- The type assertions `v.(string)`, `v.([]interface{})` and `v.(map[string]interface{})`.
abbrev pub as_string : Json → Option Bytes
as_string (str s) = some s
as_string _ = none

abbrev pub as_list : Json → Option (List Json)
as_list (arr xs) = some (list_of xs)
as_list _ = none

abbrev pub as_map : Json → Option (Map Json)
as_map (obj fs) = some (map_of fs)
as_map _ = none

-- `json.Unmarshal` into a `map[string]interface{}`, and `json.Marshal`. The text `null` is decoded
-- without an error and leaves the map nil, which reads as an empty one and cannot be written to.
pub record JsonCodec : Type 0 where
  pub unmarshal : Bytes → Option (Map Json)
  pub leaves_nil : Bytes → Bool
  pub marshal : Map Json → Option Bytes
