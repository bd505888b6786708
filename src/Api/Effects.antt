-- ===== src/Api/Effects.antt =====
-- What the three handlers of src/plugins/inputs/http/api.py do to the tables once their checks have passed.
use no8s_operator.Base.{
  ℕ, suc, ◌≡◌, ◌⊎◌, inl, inr, refl, String, Option, none, some, List, [], ◌∷◌, ◌++◌, Bool-cases,
  Option-cases,
}
use no8s_operator.Base.Result.{Error, Result, ok, err}
use no8s_operator.Json.{Fields}
use no8s_operator.Db.Rows.{Resource, Database}
use no8s_operator.Db.Resources.{
  name_taken, get_resource, create_resource, update_resource, delete_resource,
}
use no8s_operator.Plugins.Registry.{Registry}
use no8s_operator.Api.{HttpInputPlugin, World, notified, answered, read_back, write_update}
use no8s_operator.Api.Create.{ResourceCreate, build_finalizers, announce, inserted, write_create}
use no8s_operator.Api.Delete.{write_delete}
use no8s_operator.Api.Created.{inserted_row}

answered_db :
    {A : Type 0} (text : Error → String) (x : Result A × World) → (answered text x).1 ≡ x.1
answered_db text (ok a, w) = refl
answered_db text (err e, w) = refl

announce_db :
    (plugin : HttpInputPlugin) (timestamp : String) (i : ℕ) (w : World)
    → (announce plugin timestamp i w).1.db ≡ w.db
unfolding announce
announce_db plugin timestamp i w = go (notified plugin.on_resource_event) refl
  where
    go :
        (n : Result (Unit {0}))
        → notified plugin.on_resource_event ≡ n
        → (announce plugin timestamp i w).1.db ≡ w.db
    go (err e) q = rw (q, announce) refl
    go (ok u) q = elim (Option-cases (get_resource i w.db)) [
      | inl gone ↦ rw (q, announce) (rw gone refl)
      | inr (s, here) ↦ rw (q, announce) (rw here refl)
    ]

module _ (plugin : HttpInputPlugin) (hash : Fields → String) (timestamp : String) (now : ℕ)
    (w : World) where
  -- The tables are as before, or an id is used up, or one row is added with the spec.
  abbrev pub PostEffect : ResourceCreate → Fields → Database → Type 0
  PostEffect resource spec db' =
      (db' ≡ w.db)
      ⊎ ((db' ≡ record w.db { next_resource_id = suc w.db.next_resource_id })
          ⊎ ((finalizers : List String) × (db' ≡ record w.db {
            next_resource_id = suc w.db.next_resource_id;
            resources = w.db.resources ++ inserted_row hash now resource spec w.db finalizers ∷ [];
          })))

  inserted_effect :
      (resource : ResourceCreate) (spec : Fields) (x : Result (List String) × Registry)
      → PostEffect resource spec (inserted plugin hash timestamp now resource spec x w).1.db
  unfolding create_resource
  inserted_effect resource spec (err e, g) = inl refl
  inserted_effect resource spec (ok fs, g) = elim (Bool-cases (name_taken resource.name w.db)) [
    | inl taken ↦ rw (taken, create_resource) (inr (inl refl))
    | inr free ↦
        rw (free, create_resource)
          (inr (inr (fs, announce_db plugin timestamp w.db.next_resource_id _)))
  ]

  pub write_create_effect :
      (resource : ResourceCreate) (spec : Fields)
      → PostEffect resource spec (write_create plugin hash timestamp now resource spec w).1.db
  unfolding write_create
  write_create_effect resource spec =
      inserted_effect resource spec (build_finalizers resource w.registry)

  read_back_db : (i : ℕ) (v : World) → (read_back plugin timestamp i v).1.db ≡ v.db
  unfolding read_back
  read_back_db i v = go (get_resource i v.db) refl (notified plugin.on_resource_event) refl
    where
      go :
          (o : Option Resource)
          → get_resource i v.db ≡ o
          → (n : Result (Unit {0})) → notified plugin.on_resource_event ≡ n
          → (read_back plugin timestamp i v).1.db ≡ v.db
      go none p n q = rw (p, read_back) refl
      go (some r) p (err e) q = rw (p, read_back) (rw q refl)
      go (some r) p (ok u) q = rw (p, read_back) (rw q refl)

  pub put_written :
      (i : ℕ) (spec plugin_config : Option Fields)
      → (write_update plugin hash timestamp now i spec plugin_config w).1.db
        ≡ (update_resource hash now i spec plugin_config w.db).1
  unfolding write_update
  put_written i spec plugin_config = go (update_resource hash now i spec plugin_config w.db).0 refl
    where
      go :
          (x : Result (Unit {0}))
          → (update_resource hash now i spec plugin_config w.db).0 ≡ x
          → (write_update plugin hash timestamp now i spec plugin_config w).1.db
            ≡ (update_resource hash now i spec plugin_config w.db).1
      go (err e) q = rw (q, write_update) refl
      go (ok u) q = rw (q, write_update) (read_back_db i _)

  pub delete_written :
      (i : ℕ) (r : Resource)
      → (write_delete plugin timestamp now i r w).1.db ≡ (delete_resource now i w.db).1
  unfolding write_delete
  delete_written i r = go (notified plugin.on_resource_event) refl
    where
      go :
          (n : Result (Unit {0}))
          → notified plugin.on_resource_event ≡ n
          → (write_delete plugin timestamp now i r w).1.db ≡ (delete_resource now i w.db).1
      go (err e) q = rw (q, write_delete) refl
      go (ok u) q = rw (q, write_delete) refl
