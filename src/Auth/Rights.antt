-- ===== src/Auth/Rights.antt =====
-- Who passes the check of src/auth.py on a resource type.
use no8s_operator.Base.{
  ℕ, String, ◌≡◌, ◌≢◌, refl, ap, ◌∙◌, ◌↔◌, ◌⊎◌, inl, inr, Bool, true, false, ◌&&◌, none, some, List,
  [], ◌∷◌, arith, string_eq, nat_eq, contains, any, Bool-cases, Option-cases,
}
use no8s_operator.Db.Rows.{Permission, Database}
use no8s_operator.Db.Roles.{of_role}
use no8s_operator.Auth.{Claims, grants, check_resource_permission}
use no8s_operator.Auth.Grants.{granted, checked, checked_role}

abbrev pub In : Permission → List Permission → Type 0
In p [] = ⊥
In p (q ∷ qs) = (p ≡ q) ⊎ In p qs

pub any_found :
    (f : Permission → Bool) (ps : List Permission)
    → any f ps ≡ true
    → (p : Permission) × In p ps × (f p ≡ true)
any_found f [] h = absurd (ground arith)
any_found f (p ∷ ps) h = elim (Bool-cases (f p)) [
  | inl y ↦ (p, inl refl, y)
  | inr n ↦ let (q, i, e) = any_found f ps (ground arith) in (q, inr i, e)
]

pub found_any :
    (f : Permission → Bool) (ps : List Permission) (p : Permission)
    → In p ps
    → f p ≡ true
    → any f ps ≡ true
found_any f [] p i h = absurd i
found_any f (q ∷ ps) p (inl e) h = ground (arith, ap f e)
found_any f (q ∷ ps) p (inr i) h = ground (arith, found_any f ps p i h)

-- The column holds the name or the wildcard.
abbrev pub Covers : String → String → Type 0
Covers column name = (column ≡ "*") ⊎ (column ≡ name)

-- The table gives the role this right.
abbrev pub Granted : ℕ → String → String → String → Database → Type 0
Granted i t v o db =
    (p : Permission) × In p db.permissions
    × (p.role_id ≡ i)
    × Covers p.resource_type_name t
    × Covers p.resource_type_version v
    × (contains p.operations o ≡ true)

granted_iff :
    (i : ℕ) (t v o : String) (db : Database) → (granted i t v o db ≡ true) ↔ Granted i t v o db
granted_iff i t v o db = (
  λ h.
      let (p, here, e) = any_found (λ p. of_role i p && grants t v o p) db.permissions h in
      (p, here, ground arith, ground arith, ground arith, ground arith),
  λ g.
      let (p, here, e1, e2, e3, e4) = g in
      found_any (λ p. of_role i p && grants t v o p) db.permissions p here (ground arith),
)

no_role :
    (user : Claims) (db : Database) (t v o : String)
    → user.is_admin ≡ false
    → user.custom_role_id ≡ none
    → check_resource_permission user db t v o ≡ false
no_role user db t v o plain none_held = checked user db t v o ∙ rw (plain, none_held) refl

admin :
    (user : Claims) (db : Database) (t v o : String)
    → user.is_admin ≡ true
    → check_resource_permission user db t v o ≡ true
admin user db t v o y = checked user db t v o ∙ rw y refl

-- A user passes exactly who is an admin, or holds a role (whose number is not 0) to which a row of
-- the permissions, by name or wildcard, gives the operation on the type and version.
pub check_resource_permission_iff :
    (user : Claims) (db : Database) (t v o : String)
    → (check_resource_permission user db t v o ≡ true) ↔ (
        (user.is_admin ≡ true)
        ⊎ ((i : ℕ) × (user.custom_role_id ≡ some i) × (i ≢ 0) × Granted i t v o db))
check_resource_permission_iff user db t v o = elim (Bool-cases user.is_admin) [
  | inl y ↦ (λ h. inl y, λ h. admin user db t v o y)
  | inr n ↦ elim (Option-cases user.custom_role_id) [
    | inl e ↦
        (λ h. absurd (ground (arith, no_role user db t v o n e)), λ r. absurd (role_or_admin n e r))
    | inr (i, e) ↦ (
      λ h. inr (
        i,
        e,
        ground (arith, checked_role user i db t v o n e),
        (granted_iff i t v o db).0 (ground (arith, checked_role user i db t v o n e)),
      ),
      λ r. by_role i n e r,
    )
  ]
]
  where
    Rights : Type 0
    Rights =
        (user.is_admin ≡ true)
        ⊎ ((i : ℕ) × (user.custom_role_id ≡ some i) × (i ≢ 0) × Granted i t v o db)

    role_or_admin : user.is_admin ≡ false → user.custom_role_id ≡ none → Rights → ⊥
    role_or_admin n e (inl y) = ground arith
    role_or_admin n e (inr (i, h, z, g)) = ground arith

    by_role :
        (i : ℕ)
        → user.is_admin ≡ false
        → user.custom_role_id ≡ some i
        → Rights
        → check_resource_permission user db t v o ≡ true
    by_role i n e (inl y) = absurd (ground arith)
    by_role i n e (inr (j, h, z, g)) =
        checked_role user j db t v o n h ∙ ground (arith, (granted_iff j t v o db).1 g)
