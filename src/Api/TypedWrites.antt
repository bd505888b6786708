-- ===== src/Api/TypedWrites.antt =====
-- The writes of src/plugins/inputs/http/api.py leave the resource types, and every resource has its
-- type after them if an accepted POST has.
use mathlib.Core.Path.{subst}
use no8s_operator.Base.{
  ℕ, ◌≡◌, ◌≢◌, inl, inr, refl, sym, arith, String, true, Option, none, some, List, [], ◌∷◌, ◌++◌,
  nat_eq, string_eq, update_where, All, Bool-cases, Option-cases,
}
use no8s_operator.Base.Result.{Result, ok, returned-and_then}
use no8s_operator.Json as Values
use no8s_operator.Json.{Fields}
use no8s_operator.Db.Rows.{Resource, ResourceType, Webhook, Database}
use no8s_operator.Db.Resources.{
  has_id, row, update_row, respecified, new_resource, update_resource, delete_resource,
}
use no8s_operator.Db.ResourceTypes.{get_resource_type_by_name_version}
use no8s_operator.Db.ResourceTypes.References.{HasType, References}
use no8s_operator.Db.ResourceTypes.Kept.{TypeThere}
use no8s_operator.Admission.{AdmissionRequest}
use no8s_operator.Auth.{Claims, check_resource_permission}
use no8s_operator.Plugins.Registry.{Registry}
use no8s_operator.Api.{HttpInputPlugin, World}
use no8s_operator.Api.Create.{ResourceCreate, check_handler, checked_new, check_create}
use no8s_operator.Api.Effects.{PostEffect, write_create_effect, put_written, delete_written}
use no8s_operator.Api.Serving.{Accepted, post, put, delete, write}

module _ (ts : List ResourceType) where
  typed-append :
      (rs : List Resource) (r : Resource)
      → HasType ts r
      → All (HasType ts) rs
      → All (HasType ts) (rs ++ r ∷ [])
  typed-append [] r h a = (h, tt)
  typed-append (q ∷ rs) r h a = (a.0, typed-append rs r h a.1)

  typed-update :
      (i : ℕ) (f : Resource → Resource) (rs : List Resource)
      → ((r : Resource) → HasType ts r → HasType ts (f r))
      → All (HasType ts) rs
      → All (HasType ts) (update_where (has_id i) f rs)
  typed-update i f [] k a = tt
  typed-update i f (r ∷ rs) k a = elim (Bool-cases (has_id i r)) [
    | inl own ↦ rw own (k r a.0, typed-update i f rs k a.1)
    | inr other ↦ rw other (a.0, typed-update i f rs k a.1)
  ]

-- The types are as they were, and the resources still have theirs.
abbrev pub Keeps : Database → Database → Type 0
Keeps db db' = References db' × (db'.resource_types ≡ db.resource_types)

update_row-Keeps :
    (i : ℕ) (f : Resource → Resource) (db : Database)
    → ((r : Resource) → HasType db.resource_types r → HasType db.resource_types (f r))
    → References db
    → Keeps db (update_row i f db)
update_row-Keeps i f db k h = (
  record {
    ids = h.ids;
    below = h.below;
    typed = typed-update db.resource_types i f db.resources k h.typed;
  },
  refl,
)

update_resource-Keeps :
    (hash : Fields → String) (now i : ℕ) (spec plugin_config : Option Fields) (db : Database)
    → References db
    → Keeps db (update_resource hash now i spec plugin_config db).1
unfolding update_resource
update_resource-Keeps hash now i spec plugin_config db h = elim (Option-cases (row i db)) [
  | inl gone ↦ rw (gone, update_resource) (h, refl)
  | inr (r, found) ↦
      rw (found, update_resource)
        (update_row-Keeps i (respecified hash now spec plugin_config r) db (λ q t. t) h)
]

delete_resource-Keeps :
    (now i : ℕ) (db : Database) → References db → Keeps db (delete_resource now i db).1
unfolding delete_resource
delete_resource-Keeps now i db h = update_row-Keeps i _ db (λ q t live. absurd (ground arith)) h

module _ (endpoint : Webhook → AdmissionRequest → Option Values.Value)
    (iter_errors : Fields → Fields → Result (List String)) (plugin : HttpInputPlugin) where
  checked_new_type :
      (resource : ResourceCreate) (o : Option Fields) (db : Database) (spec : Fields)
      → checked_new endpoint iter_errors plugin resource o db ≡ ok spec
      → get_resource_type_by_name_version resource.resource_type_name resource.resource_type_version
          db
        ≢ none
  checked_new_type resource none db spec h = absurd (ground arith)
  checked_new_type resource (some Values.end) db spec h = absurd (ground arith)
  checked_new_type resource (some (Values.field k v fs)) db spec h = λ gone. absurd (ground arith)

module _ (endpoint : Webhook → AdmissionRequest → Option Values.Value)
    (iter_errors : Fields → Fields → Result (List String)) (plugin : HttpInputPlugin) where
  pub check_create_type :
      (user : Claims) (resource : ResourceCreate) (g : Registry) (db : Database) (spec : Fields)
      → check_create endpoint iter_errors plugin user resource g db ≡ ok spec
      → get_resource_type_by_name_version resource.resource_type_name resource.resource_type_version
          db
        ≢ none
  unfolding check_create
  check_create_type user resource g db spec = elim (Bool-cases plugin.db_manager) [
    | inr off ↦ rw (off, check_create) (λ h. absurd (ground arith))
    | inl on ↦
        elim (Bool-cases (
          check_resource_permission user db resource.resource_type_name
            resource.resource_type_version "CREATE")) [
              | inr denied ↦ rw (on, check_create) (rw denied (λ h. absurd (ground arith)))
              | inl allowed ↦
                  rw (on, check_create)
                    (rw allowed (λ h.
                      let (u, e, rest) = returned-and_then (check_handler resource g) _ spec h in
                      checked_new_type endpoint iter_errors (record plugin { db_manager = true })
                        resource resource.spec db spec rest))
            ]
  ]

-- The type of an accepted POST is in the table.
abbrev pub PostTyped : Database → Accepted → Type 0
PostTyped db (post resource spec) =
    TypeThere resource.resource_type_name resource.resource_type_version db
PostTyped db (put i spec plugin_config) = Unit
PostTyped db (delete i r) = Unit

module _ (plugin : HttpInputPlugin) (hash : Fields → String) (timestamp : String) (now : ℕ)
    (w : World) (h : References w.db) where
  post-Keeps :
      (resource : ResourceCreate) (spec : Fields) (db : Database)
      → PostEffect plugin hash timestamp now w resource spec db
      → TypeThere resource.resource_type_name resource.resource_type_version w.db
      → Keeps w.db db
  unfolding new_resource
  post-Keeps resource spec db (inl same) t = subst (Keeps w.db) (sym same) (h, refl)
  post-Keeps resource spec db (inr (inl used)) t =
      subst (Keeps w.db) (sym used) (record { ids = h.ids; below = h.below; typed = h.typed }, refl)
  post-Keeps resource spec db (inr (inr (fs, added))) t = subst (Keeps w.db) (sym added) (
    record {
      ids = h.ids;
      below = h.below;
      typed = typed-append w.db.resource_types w.db.resources _ (λ live. t) h.typed;
    },
    refl,
  )

  pub write-Keeps :
      (a : Accepted) → PostTyped w.db a → Keeps w.db (write plugin hash timestamp now a w).db
  unfolding write
  write-Keeps (post resource spec) t =
      post-Keeps resource spec _ (write_create_effect plugin hash timestamp now w resource spec) t
  write-Keeps (put i spec plugin_config) t =
      subst (Keeps w.db) (sym (put_written plugin hash timestamp now w i spec plugin_config))
        (update_resource-Keeps hash now i spec plugin_config w.db h)
  write-Keeps (delete i r) t =
      subst (Keeps w.db) (sym (delete_written plugin hash timestamp now w i r))
        (delete_resource-Keeps now i w.db h)
