-- ===== src/Db/ResourceTypes/Kept.antt =====
-- A name and version stay in the table of resource types of src/db.py under every method that changes
-- the table, other than the removal of their own type.
use no8s_operator.Base.{
  ℕ, ◌≡◌, ◌≢◌, inl, inr, String, true, false, ◌&&◌, Option, none, some, List, [], ◌∷◌, string_eq,
  nat_eq, any, find, All, Bool-cases, Option-cases,
}
use no8s_operator.Json.{Fields}
use no8s_operator.Db.Rows.{ResourceType, Database}
use no8s_operator.Db.Resources.{is_none}
use no8s_operator.Db.ResourceTypes.{
  is_type, named_version, get_resource_type, create_resource_type, update_resource_type, refers_to,
  delete_resource_type,
}
use no8s_operator.Db.ResourceTypes.References.{
  UniqueIds, find-append_some, find-revised, find-without, only_one,
}

module _ (n v : String) where
  abbrev pub TypeThere : Database → Type 0
  TypeThere db = find (named_version n v) db.resource_types ≢ none

  pub create_resource_type-TypeThere :
      (now : ℕ) (name version : String) (schema : Fields) (description : Option String)
      (metadata : Option Fields) (db : Database)
      → TypeThere db
      → TypeThere (create_resource_type now name version schema description metadata db).1
  unfolding create_resource_type
  create_resource_type-TypeThere now name version schema description metadata db h =
      elim (Bool-cases (any (named_version name version) db.resource_types)) [
        | inl taken ↦ rw (taken, create_resource_type) h
        | inr free ↦ rw (free, create_resource_type) (find-append_some n v _ db.resource_types h)
      ]

  pub update_resource_type-TypeThere :
      (i now : ℕ) (schema : Option Fields) (description status : Option String)
      (metadata : Option Fields) (db : Database)
      → TypeThere db
      → TypeThere (update_resource_type now i schema description status metadata db).1
  unfolding update_resource_type
  update_resource_type-TypeThere i now schema description status metadata db h =
      elim (Bool-cases
        (is_none schema && is_none description && is_none status && is_none metadata)) [
          | inl idle ↦ rw (idle, update_resource_type) h
          | inr set ↦
              rw (set, update_resource_type)
                (find-revised i now schema description status metadata n v db.resource_types h)
        ]

  other_type :
      (i : ℕ) (t : ResourceType) (ts : List ResourceType)
      → named_version n v t ≡ false
      → All (λ q. is_type i q ≡ true → q ≡ t) ts
      → All (λ q. is_type i q ≡ true → named_version n v q ≡ false) ts
  other_type i t [] d a = tt
  other_type i t (q ∷ ts) d a = (λ e. let s : q ≡ t = a.0 e in rw s d, other_type i t ts d a.1)

  pub delete_resource_type-TypeThere :
      (i : ℕ) (db : Database)
      → UniqueIds db.resource_types
      → ((t : ResourceType) → get_resource_type i db ≡ some t → named_version n v t ≡ false)
      → TypeThere db
      → TypeThere (delete_resource_type i db).1
  unfolding delete_resource_type get_resource_type
  delete_resource_type-TypeThere i db u other h =
      elim (Option-cases (find (is_type i) db.resource_types)) [
        | inl gone ↦ rw (gone, delete_resource_type) h
        | inr (t, here) ↦ elim (Bool-cases (any (refers_to t) db.resources)) [
          | inl used ↦ rw (here, delete_resource_type) (rw used h)
          | inr free ↦
              rw (here, delete_resource_type)
                (rw free (
                  find-without i n v db.resource_types
                    (other_type i t db.resource_types (other t here)
                      (only_one i t db.resource_types u here))
                    h))
        ]
      ]
