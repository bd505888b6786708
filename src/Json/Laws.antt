-- ===== src/Json/Laws.antt =====
-- What a `dict` of JSON values returns after each update.
use no8s_operator.Base.{String, ◌≡◌, ◌≢◌, none, some, arith, ◌==◌, if◌then◌else◌, string_eq}
use no8s_operator.Json.{Value, Fields, end, field, get, set, remove}

pub get-set :
    (j k : String) (v : Value) (d : Fields)
    → get j (set k v d) ≡ (if j == k then some v else get j d)
unfolding get set
get-set j k v end = ground arith
get-set j k v (field i w d) = ground (arith, get-set j k v d)

pub get-remove :
    (j k : String) (d : Fields) → get j (remove k d) ≡ (if j == k then none else get j d)
unfolding get remove
get-remove j k end = ground arith
get-remove j k (field i w d) = ground (arith, get-remove j k d)

pub get-set_same : (k : String) (v : Value) (d : Fields) → get k (set k v d) ≡ some v
get-set_same k v d = ground (arith, get-set k k v d)

pub get-set_other : (j k : String) (v : Value) (d : Fields) → j ≢ k → get j (set k v d) ≡ get j d
get-set_other j k v d differ = ground (arith, get-set j k v d)

pub get-remove_same : (k : String) (d : Fields) → get k (remove k d) ≡ none
get-remove_same k d = ground (arith, get-remove k k d)

pub get-remove_other : (j k : String) (d : Fields) → j ≢ k → get j (remove k d) ≡ get j d
get-remove_other j k d differ = ground (arith, get-remove j k d)
