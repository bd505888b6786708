-- ===== src/Management/Visibility.antt =====
-- Which events the stream of src/management_api.py sends to whom.
use mathlib.Core.Path.{subst}
use no8s_operator.Base.{
  ℕ, ◌≡◌, ◌≢◌, refl, ap, ◌∙◌, ◌↔◌, ◌⊎◌, inl, inr, Bool, true, false, ◌&&◌, ◌||◌, String, Option,
  none, some, List, [], ◌∷◌, arith, ◌==◌, string_eq, nat_eq, contains, any, filter, map, Bool-cases,
  if◌then◌else◌,
}
use no8s_operator.Base.Sort.{any-sort}
use no8s_operator.Db.Rows.{Permission, Database}
use no8s_operator.Db.Roles.{of_role, by_id, get_custom_role_permissions}
use no8s_operator.Auth.{Claims, role_id_of, wildcard}
use no8s_operator.Auth.Grants.{any-filter}
use no8s_operator.Auth.Rights.{In, Covers, any_found, found_any}
use no8s_operator.Events.{ResourceEvent}
use no8s_operator.Management.{Services}
use no8s_operator.Management.Streams.{
  type_matches, reads, reads_all, allowed_types, type_allowed, types_of, event_filter,
}

-- The permission lets the type be read, in some version.
abbrev pub reads_type : String → Permission → Bool
reads_type t p = wildcard p.resource_type_name t && reads p

reads_type_split :
    (t : String) (ps : List Permission)
    → (any reads_all ps
        || contains (map (λ (p : Permission). p.resource_type_name) (filter reads ps)) t)
      ≡ any (reads_type t) ps
reads_type_split t [] = refl
reads_type_split t (p ∷ ps) = ground (arith, reads_type_split t ps)

allowed :
    (ps : List Permission) (e : ResourceEvent)
    → type_allowed (allowed_types ps) e ≡ any (reads_type e.resource_type_name) ps
unfolding allowed_types
allowed ps e = elim (Bool-cases (any reads_all ps)) [
  | inl y ↦ rw (y, allowed_types) (ground (arith, reads_type_split e.resource_type_name ps))
  | inr n ↦ rw (n, allowed_types) (ground (arith, reads_type_split e.resource_type_name ps))
]

-- By the role of the user, if it holds one whose number is not 0.
abbrev pub role_reads : Option ℕ → String → Database → Bool
role_reads none t db = false
role_reads (some i) t db = any (λ p. of_role i p && reads_type t p) db.permissions

by_role :
    (s : Services) (o : Option ℕ) (db : Database) (e : ResourceEvent)
    → s.db_manager ≡ true
    → type_allowed (types_of s o db) e ≡ role_reads o e.resource_type_name db
unfolding get_custom_role_permissions
by_role s none db e on = refl
by_role s (some i) db e on =
    let t = e.resource_type_name in
    ap
      (λ b.
        type_allowed (if b then allowed_types (get_custom_role_permissions i db) else some []) e)
      on
    ∙ allowed (get_custom_role_permissions i db) e
    ∙ any-sort by_id (reads_type t) (filter (of_role i) db.permissions)
    ∙ any-filter (of_role i) (reads_type t) db.permissions

-- Some row of the permissions lets the role read the type, whatever the version in it.
abbrev pub ReadsType : ℕ → String → Database → Type 0
ReadsType i t db =
    (p : Permission) × In p db.permissions
    × (p.role_id ≡ i)
    × Covers p.resource_type_name t
    × (contains p.operations "READ" ≡ true)

abbrev row : ℕ → String → Permission → Bool
row i t p = of_role i p && reads_type t p

row_iff :
    (i : ℕ) (t : String) (db : Database) → (any (row i t) db.permissions ≡ true) ↔ ReadsType i t db
row_iff i t db = (
  λ h.
      let (p, here, e) = any_found (row i t) db.permissions h in
      (p, here, ground arith, ground arith, ground arith),
  λ g. let (p, here, e1, e2, e3) = g in found_any (row i t) db.permissions p here (ground arith),
)

role_reads_iff :
    (o : Option ℕ) (t : String) (db : Database)
    → (role_reads (role_id_of o) t db ≡ true)
      ↔ ((i : ℕ) × (o ≡ some i) × (i ≢ 0) × ReadsType i t db)
role_reads_iff none t db = (λ h. absurd (ground arith), λ (i, e, z, g). absurd (ground arith))
role_reads_iff (some i) t db = elim (Bool-cases (i == 0)) [
  | inl y ↦ rw y (λ h. absurd (ground arith), λ (j, e, z, g). absurd (ground arith))
  | inr n ↦ rw n (
    λ h. (i, refl, ground arith, (row_iff i t db).0 h),
    λ (j, e, z, g). (row_iff i t db).1 (subst (λ k. ReadsType k t db) (ground arith) g),
  )
]

-- What the query asks for: the missing text and the empty one ask for every type.
abbrev pub Asked : Option String → String → Type 0
Asked none t = Unit
Asked (some q) t = (q ≡ "") ⊎ (t ≡ q)

type_matches_iff :
    (q : Option String) (e : ResourceEvent)
    → (type_matches q e ≡ true) ↔ Asked q e.resource_type_name
type_matches_iff none e = (λ h. tt, λ h. refl)
type_matches_iff (some q) e = (λ h. ground arith, λ h. ground arith)

-- With a database, a user gets an event exactly if it is of the type that the query asks for, and the
-- user is an admin or holds a role (whose number is not 0) to which some permission gives READ on the
-- type of the event by name or wildcard, whatever the version in that permission and in the event.
pub event_filter_iff :
    (s : Services) (user : Claims) (q : Option String) (db : Database) (e : ResourceEvent)
    → s.db_manager ≡ true
    → (event_filter s user q db e ≡ true) ↔ (
        ((user.is_admin ≡ true)
          ⊎ ((i : ℕ) × (user.custom_role_id ≡ some i)
              × (i ≢ 0)
              × ReadsType i e.resource_type_name db))
        × Asked q e.resource_type_name)
unfolding event_filter
event_filter_iff s user q db e on =
    let asked = type_matches_iff q e in
    let role = role_reads_iff user.custom_role_id e.resource_type_name db in
    let passes = by_role s (role_id_of user.custom_role_id) db e on in
    elim (Bool-cases user.is_admin) [
      | inl y ↦ rw (y, event_filter) (λ h. (inl refl, asked.0 h), λ (r, a). asked.1 a)
      | inr n ↦
          rw (n, event_filter)
            (
              λ h. (inr (role.0 (ground arith)), asked.0 (ground arith)),
              λ (r, a). elim r [
                | inl y ↦ absurd (ground arith)
                | inr g ↦ ground (arith, role.1 g, asked.1 a, passes)
              ],
            )
    ]
