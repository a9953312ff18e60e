-- ===== src/Operator/Value.antt =====
-- Go's `interface{}` trees of package unstructured: what operator/internal/controller builds of
-- strings, integers, []interface{} and map[string]interface{}.
use daedalus.Prelude.{Option, none, some, List, [], ◌∷◌, Str, str_eq, Map, if◌then◌else◌}
use daedalus.Prelude.Int.{ℤ}

mutual
  pub data Value : Type 0 where
    text : Str → Value
    int : ℤ → Value
    items : Values → Value
    object : Fields → Value

  pub data Values : Type 0 where
    nil : Values
    cons : Value → Values → Values

  pub data Fields : Type 0 where
    end : Fields
    field : Str → Value → Fields → Fields

abbrev pub values : List Value → Values
values [] = nil
values (v ∷ vs) = cons v (values vs)

abbrev pub fields : List (Str × Value) → Fields
fields [] = end
fields ((k, v) ∷ rest) = field k v (fields rest)

abbrev pub string_fields : Map Str → Fields
string_fields [] = end
string_fields ((k, v) ∷ rest) = field k (text v) (string_fields rest)

-- obj[k]
unfoldable pub field_of : Str → Fields → Option Value
unfolding str_eq
field_of k end = none
field_of k (field j v rest) = if str_eq j k then some v else field_of k rest

unfoldable pub member_of : Str → Value → Option Value
unfolding field_of
member_of k (text s) = none
member_of k (int n) = none
member_of k (items vs) = none
member_of k (object fs) = field_of k fs
