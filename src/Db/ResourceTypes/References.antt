-- ===== src/Db/ResourceTypes/References.antt =====
-- Every resource that is not soft-deleted has its type in the table: what the methods of src/db.py on
-- `resource_types` do to that. No foreign key of the schema says it.
use no8s_operator.Base.{
  ℕ, suc, ◌≡◌, ◌≢◌, ◌<◌, refl, arith, String, true, false, ◌&&◌, inl, inr, Option, none, some, List,
  [], ◌∷◌, ◌++◌, string_eq, nat_eq, any, find, update_where, delete_where, All, Bool-cases,
  Option-cases,
}
use no8s_operator.Json.{Fields}
use no8s_operator.Db.Rows.{Resource, ResourceType, Database}
use no8s_operator.Db.Resources.{is_none}
use no8s_operator.Db.ResourceTypes.{
  is_type, named_version, get_resource_type, create_resource_type, revised, update_resource_type,
  refers_to, delete_resource_type,
}

-- The primary key.
abbrev pub UniqueIds : List ResourceType → Type 0
UniqueIds [] = Unit
UniqueIds (t ∷ ts) = (find (is_type t.id) ts ≡ none) × UniqueIds ts

abbrev pub TypesBelow : ℕ → List ResourceType → Type 0
TypesBelow n = All (λ (t : ResourceType). t.id < n)

abbrev pub HasType : List ResourceType → Resource → Type 0
HasType ts r =
    r.deleted_at ≡ none
    → find (named_version r.resource_type_name r.resource_type_version) ts ≢ none

pub record References (db : Database) : Type 0 where
  pub ids : UniqueIds db.resource_types
  pub below : TypesBelow db.next_resource_type_id db.resource_types
  pub typed : All (HasType db.resource_types) db.resources

All-HasType :
    (ts us : List ResourceType) (rs : List Resource)
    → ((r : Resource) → HasType ts r → HasType us r)
    → All (HasType ts) rs
    → All (HasType us) rs
All-HasType ts us [] f h = tt
All-HasType ts us (r ∷ rs) f h = (f r h.0, All-HasType ts us rs f h.1)

pub find-append_some :
    (n v : String) (t : ResourceType) (ts : List ResourceType)
    → find (named_version n v) ts ≢ none
    → find (named_version n v) (ts ++ t ∷ []) ≢ none
find-append_some n v t [] h = absurd (h refl)
find-append_some n v t (u ∷ ts) h = ground (arith, find-append_some n v t ts)

UniqueIds-append :
    (t : ResourceType) (n : ℕ) (ts : List ResourceType)
    → t.id ≡ n
    → TypesBelow n ts
    → UniqueIds ts
    → UniqueIds (ts ++ t ∷ [])
UniqueIds-append t n [] e b u = (refl, tt)
UniqueIds-append t n (q ∷ ts) e b u = (fresh ts u.0, UniqueIds-append t n ts e b.1 u.1)
  where
    fresh :
        (us : List ResourceType)
        → find (is_type q.id) us ≡ none
        → find (is_type q.id) (us ++ t ∷ []) ≡ none
    fresh [] h = ground arith
    fresh (w ∷ us) h = ground (arith, fresh us)

TypesBelow-append :
    (t : ResourceType) (n : ℕ) (ts : List ResourceType)
    → t.id ≡ n
    → TypesBelow n ts
    → TypesBelow (suc n) (ts ++ t ∷ [])
TypesBelow-append t n [] e b = (omega arith, tt)
TypesBelow-append t n (q ∷ ts) e b = (omega arith, TypesBelow-append t n ts e b.1)

TypesBelow-suc : (n : ℕ) (ts : List ResourceType) → TypesBelow n ts → TypesBelow (suc n) ts
TypesBelow-suc n [] b = tt
TypesBelow-suc n (t ∷ ts) b = (omega arith, TypesBelow-suc n ts b.1)

pub create_resource_type-References :
    (now : ℕ) (name version : String) (schema : Fields) (description : Option String)
    (metadata : Option Fields) (db : Database)
    → References db
    → References (create_resource_type now name version schema description metadata db).1
unfolding create_resource_type
create_resource_type-References now name version schema description metadata db h =
    elim (Bool-cases (any (named_version name version) db.resource_types)) [
      | inl taken ↦
          rw (taken, create_resource_type)
            record {
              ids = h.ids;
              below = TypesBelow-suc db.next_resource_type_id db.resource_types h.below;
              typed = h.typed;
            }
      | inr free ↦
          rw (free, create_resource_type)
            record {
              ids =
                  UniqueIds-append _ db.next_resource_type_id db.resource_types refl h.below h.ids;
              below = TypesBelow-append _ db.next_resource_type_id db.resource_types refl h.below;
              typed =
                  All-HasType db.resource_types _ db.resources
                    (λ r t live.
                      find-append_some r.resource_type_name r.resource_type_version _
                        db.resource_types (t live))
                    h.typed;
            }
    ]

module _ (i now : ℕ) (schema : Option Fields) (description status : Option String)
    (metadata : Option Fields) where
  abbrev revise : List ResourceType → List ResourceType
  revise = update_where (is_type i) (revised now schema description status metadata)

  pub find-revised :
      (n v : String) (ts : List ResourceType)
      → find (named_version n v) ts ≢ none
      → find (named_version n v) (revise ts) ≢ none
  find-revised n v [] h = h
  find-revised n v (t ∷ ts) h = ground (arith, find-revised n v ts)

  find_id-revised :
      (j : ℕ) (ts : List ResourceType)
      → find (is_type j) ts ≡ none
      → find (is_type j) (revise ts) ≡ none
  find_id-revised j [] h = h
  find_id-revised j (t ∷ ts) h = ground (arith, find_id-revised j ts)

  UniqueIds-revised : (ts : List ResourceType) → UniqueIds ts → UniqueIds (revise ts)
  UniqueIds-revised [] h = h
  UniqueIds-revised (t ∷ ts) h = elim (Bool-cases (is_type i t)) [
    | inl e ↦ rw e (find_id-revised t.id ts h.0, UniqueIds-revised ts h.1)
    | inr e ↦ rw e (find_id-revised t.id ts h.0, UniqueIds-revised ts h.1)
  ]

  TypesBelow-revised : (n : ℕ) (ts : List ResourceType) → TypesBelow n ts → TypesBelow n (revise ts)
  TypesBelow-revised n [] h = h
  TypesBelow-revised n (t ∷ ts) h = elim (Bool-cases (is_type i t)) [
    | inl e ↦ rw e (h.0, TypesBelow-revised n ts h.1)
    | inr e ↦ rw e (h.0, TypesBelow-revised n ts h.1)
  ]

  pub update_resource_type-References :
      (db : Database)
      → References db
      → References (update_resource_type now i schema description status metadata db).1
  unfolding update_resource_type
  update_resource_type-References db h =
      elim (Bool-cases
        (is_none schema && is_none description && is_none status && is_none metadata)) [
          | inl idle ↦ rw (idle, update_resource_type) h
          | inr set ↦
              rw (set, update_resource_type)
                record {
                  ids = UniqueIds-revised db.resource_types h.ids;
                  below = TypesBelow-revised db.next_resource_type_id db.resource_types h.below;
                  typed =
                      All-HasType db.resource_types _ db.resources
                        (λ r t live.
                          find-revised r.resource_type_name r.resource_type_version
                            db.resource_types (t live))
                        h.typed;
                }
        ]

-- A row with the id is the one that is found.
pub only_one :
    (i : ℕ) (t : ResourceType) (ts : List ResourceType)
    → UniqueIds ts
    → find (is_type i) ts ≡ some t
    → All (λ q. is_type i q ≡ true → q ≡ t) ts
only_one i t [] u h = tt
only_one i t (q ∷ ts) u h = elim (Bool-cases (is_type i q)) [
  | inl own ↦ let same : q ≡ t = ground arith in (λ e. same, absent ts (ground arith))
  | inr other ↦ (λ e. absurd (ground arith), only_one i t ts u.1 (ground arith))
]
  where
    absent :
        (us : List ResourceType)
        → find (is_type i) us ≡ none
        → All (λ w. is_type i w ≡ true → w ≡ t) us
    absent [] h = tt
    absent (w ∷ us) h = (λ e. absurd (ground arith), absent us (ground arith))

pub find-without :
    (i : ℕ) (n v : String) (ts : List ResourceType)
    → All (λ q. is_type i q ≡ true → named_version n v q ≡ false) ts
    → find (named_version n v) ts ≢ none
    → find (named_version n v) (delete_where (is_type i) ts) ≢ none
find-without i n v [] a h = h
find-without i n v (t ∷ ts) a h = elim (Bool-cases (is_type i t)) [
  | inl own ↦ rw own (find-without i n v ts a.1 (rw (a.0 own) at h))
  | inr other ↦ rw other (elim (Bool-cases (named_version n v t)) [
    | inl y ↦ rw y (λ e. absurd (ground arith))
    | inr n' ↦ rw n' (find-without i n v ts a.1 (rw n' at h))
  ])
]

UniqueIds-without :
    (i : ℕ) (ts : List ResourceType) → UniqueIds ts → UniqueIds (delete_where (is_type i) ts)
UniqueIds-without i [] h = h
UniqueIds-without i (t ∷ ts) h = elim (Bool-cases (is_type i t)) [
  | inl own ↦ rw own (UniqueIds-without i ts h.1)
  | inr other ↦ rw other (still ts h.0, UniqueIds-without i ts h.1)
]
  where
    still :
        (us : List ResourceType)
        → find (is_type t.id) us ≡ none
        → find (is_type t.id) (delete_where (is_type i) us) ≡ none
    still [] e = e
    still (w ∷ us) e = ground (arith, still us)

TypesBelow-without :
    (n i : ℕ) (ts : List ResourceType)
    → TypesBelow n ts
    → TypesBelow n (delete_where (is_type i) ts)
TypesBelow-without n i [] h = h
TypesBelow-without n i (t ∷ ts) h = elim (Bool-cases (is_type i t)) [
  | inl own ↦ rw own (TypesBelow-without n i ts h.1)
  | inr other ↦ rw other (h.0, TypesBelow-without n i ts h.1)
]

module _ (i : ℕ) (t : ResourceType) (ts : List ResourceType)
    (only : All (λ q. is_type i q ≡ true → q ≡ t) ts) where
  -- No row that goes bears the name and version of a resource that does not refer to the type.
  spared :
      (r : Resource) (us : List ResourceType)
      → refers_to t r ≡ false
      → r.deleted_at ≡ none
      → All (λ q. is_type i q ≡ true → q ≡ t) us
      → All
          (λ q.
            is_type i q ≡ true
            → named_version r.resource_type_name r.resource_type_version q ≡ false)
          us
  spared r [] n live a = tt
  spared r (q ∷ us) n live a =
      (λ e. let s : q ≡ t = a.0 e in rw s (ground arith), spared r us n live a.1)

  typed_without :
      (rs : List Resource)
      → any (refers_to t) rs ≡ false
      → All (HasType ts) rs
      → All (HasType (delete_where (is_type i) ts)) rs
  typed_without [] n h = tt
  typed_without (r ∷ rs) n h = (
    λ live.
        find-without i r.resource_type_name r.resource_type_version ts
          (spared r ts (ground arith) live only) (h.0 live),
    typed_without rs (ground arith) h.1,
  )

pub delete_resource_type-References :
    (i : ℕ) (db : Database) → References db → References (delete_resource_type i db).1
unfolding delete_resource_type get_resource_type
delete_resource_type-References i db h = elim (Option-cases (find (is_type i) db.resource_types)) [
  | inl gone ↦ rw (gone, delete_resource_type) h
  | inr (t, here) ↦ elim (Bool-cases (any (refers_to t) db.resources)) [
    | inl used ↦ rw (here, delete_resource_type) (rw used h)
    | inr free ↦
        rw (here, delete_resource_type)
          (rw free record {
            ids = UniqueIds-without i db.resource_types h.ids;
            below = TypesBelow-without db.next_resource_type_id i db.resource_types h.below;
            typed =
                typed_without i t db.resource_types (only_one i t db.resource_types h.ids here)
                  db.resources free h.typed;
          })
  ]
]
