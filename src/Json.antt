-- ===== src/Json.antt =====
-- JSON values as the services hold them in Python: a dict is its entries in order. Floating point
-- numbers are not modelled: no service computes with one.
use dhp.Prelude.{String, Bool, List, [], ◌∷◌, Option, none, some}
use dhp.Prelude.Int.{ℤ}
use dhp.Prelude.Dict.{Dict}

mutual
  pub data Json : Type 0 where
    null : Json
    bool : Bool → Json
    int : ℤ → Json
    str : String → Json
    list : Items → Json
    object : Fields → Json

  pub data Items : Type 0 where
    nil : Items
    cons : Json → Items → Items

  pub data Fields : Type 0 where
    end : Fields
    field : String → Json → Fields → Fields

-- `list[str]` and `dict` as JSON.
abbrev pub items : List String → Items
items [] = nil
items (s ∷ rest) = cons (str s) (items rest)

abbrev pub strings : List String → Json
strings xs = list (items xs)

abbrev pub fields : Dict Json → Fields
fields [] = end
fields ((k, v) ∷ d) = field k v (fields d)

abbrev pub entries : Fields → Dict Json
entries end = []
entries (field k v fs) = (k, v) ∷ entries fs

-- `None` or a text.
abbrev pub optional : Option String → Json
optional none = null
optional (some s) = str s
