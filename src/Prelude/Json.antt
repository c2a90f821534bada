-- ===== src/Prelude/Json.antt =====
-- The values that the contracts' `to_dict` methods build, as `json.dumps` sees them.
use Prim.Native.Nat.{ℕ}
use Prim.Native.String.{String}
use mathlib.Core.Bool.{Bool}
use mathlib.Core.List.{List, [], ◌∷◌}
use mathlib.Core.Option.{Option, none, some}

mutual
  pub data Json : Type 0 where
    null : Json
    bool : Bool → Json
    num : ℕ → Json
    text : String → Json
    arr : Items → Json
    obj : Fields → Json

  pub data Items : Type 0 where
    nil : Items
    cons : Json → Items → Items

  pub data Fields : Type 0 where
    end : Fields
    field : String → Json → Fields → Fields

abbrev fields : List (String × Json) → Fields
fields [] = end
fields ((k, v) ∷ xs) = field k v (fields xs)

abbrev pub dict : List (String × Json) → Json
dict xs = obj (fields xs)

abbrev items_of : {A : Type 0} → (A → Json) → List A → Items
items_of f [] = nil
items_of f (x ∷ xs) = cons (f x) (items_of f xs)

abbrev pub list_of : {A : Type 0} → (A → Json) → List A → Json
list_of f xs = arr (items_of f xs)

abbrev pub text_or_null : Option String → Json
text_or_null none = null
text_or_null (some s) = text s
