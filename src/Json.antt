-- ===== src/Json.antt =====
-- JSON values as the Python code handles them after `json.loads`: a `dict` keeps insertion order and
-- holds a key once. The code never computes with a JSON number, so a number is the text of its `repr`.
pub mod Laws
use no8s_operator.Base.{
  true, false, not, ◌||◌, String, Bool, Option, none, some, List, [], ◌∷◌, ◌==◌, if◌then◌else◌,
  string_eq,
}

mutual
  pub data Fields : Type 0 where
    field : (key : String) (value : Value) (rest : Fields) → Fields
    end : Fields

  pub data Items : Type 0 where
    cons : (first : Value) (rest : Items) → Items
    nil : Items

  pub data Value : Type 0 where
    obj : Fields → Value
    arr : Items → Value
    str num : String → Value
    bool : Bool → Value
    null : Value

-- `d.get(k)`, and `none` where `k not in d`
unfoldable pub get : String → Fields → Option Value
get k end = none
get k (field j v d) = if k == j then some v else get k d

-- `d[k] = v`
unfoldable pub set : String → Value → Fields → Fields
set k v end = field k v end
set k v (field j w d) = if k == j then field j v d else field j w (set k v d)

-- `del d[k]`
unfoldable pub remove : String → Fields → Fields
remove k end = end
remove k (field j w d) = let rest = remove k d in if k == j then rest else field j w rest

-- The items of a list value, as a list.
abbrev pub to_list : Items → List Value
to_list nil = []
to_list (cons v vs) = v ∷ to_list vs

-- `if v:`
abbrev pub truthy : Value → Bool
truthy null = false
truthy (bool b) = b
truthy (num n) = not (n == "0" || n == "0.0" || n == "-0.0")
truthy (str s) = not (s == "")
truthy (arr nil) = false
truthy (arr (cons v vs)) = true
truthy (obj end) = false
truthy (obj (field k v d)) = true
