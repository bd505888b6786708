-- ===== src/Api/Created.antt =====
-- What a POST of src/plugins/inputs/http/api.py adds to the tables when it answers with a resource.
use mathlib.Core.Option.{some-injective}
use no8s_operator.Base.{
  ℕ, ◌≡◌, ◌≢◌, ◌⊎◌, inl, inr, refl, sym, ap, ◌∙◌, arith, String, false, Option, none, some, List,
  [], ◌∷◌, ◌++◌, ◌&&◌, ◌==◌, string_eq, nat_eq, find, Bool-cases, Option-cases,
}
use no8s_operator.Base.Result.{Error, Result, ok, err, ok-injective, returned-and_then}
use no8s_operator.Json as Values
use no8s_operator.Json.{Fields}
use no8s_operator.Db.Rows.{Resource, Webhook, Database}
use no8s_operator.Db.Resources.{
  has_id, is_none, or_default, name_taken, get_resource, new_resource, create_resource,
}
use no8s_operator.Db.Invariant.{IsValid, RowsBelow}
use no8s_operator.Admission.{AdmissionRequest}
use no8s_operator.Auth.{Claims, check_resource_permission}
use no8s_operator.Plugins.Registry.{
  Registry, ReconcilerClass, has_reconciler_for_resource_type, get_reconciler_for_resource_type,
}
use no8s_operator.Api.{HttpInputPlugin, World, notified, answered}
use no8s_operator.Api.Create.{
  ResourceCreate, action_or_empty, check_handler, build_finalizers, reconciler_name, announce,
  insert_with, announced, inserted, write_create, check_create, post_resource,
}

-- A row with a new id is the one that is found by it.
find-fresh :
    (n : ℕ) (rs : List Resource) (r : Resource)
    → RowsBelow n rs
    → r.id ≡ n
    → r.deleted_at ≡ none
    → find (λ (q : Resource). has_id n q && is_none q.deleted_at) (rs ++ r ∷ []) ≡ some r
find-fresh n [] r h e d = ground arith
find-fresh n (q ∷ rs) r h e d = ground (arith, find-fresh n rs r h.1 e d)

announce_ok :
    (plugin : HttpInputPlugin) (timestamp : String) (i : ℕ) (w : World) (r : Resource)
    → (announce plugin timestamp i w).0 ≡ ok r
    → (get_resource i w.db ≡ some r) × ((announce plugin timestamp i w).1.db ≡ w.db)
unfolding announce
announce_ok plugin timestamp i w r = go (notified plugin.on_resource_event) refl
  where
    Goal : Type 0
    Goal =
        (announce plugin timestamp i w).0 ≡ ok r
        → (get_resource i w.db ≡ some r) × ((announce plugin timestamp i w).1.db ≡ w.db)

    go : (n : Result (Unit {0})) → notified plugin.on_resource_event ≡ n → Goal
    go (err e) q = rw (q, announce) (λ h. absurd (ground arith))
    go (ok u) q = elim (Option-cases (get_resource i w.db)) [
      | inl gone ↦ rw (q, announce) (rw gone (λ h. absurd (ground arith)))
      | inr (s, here) ↦ rw (q, announce) (rw here (λ h. (ap some (ok-injective h), refl)))
    ]

answered_ok :
    {A : Type 0} (text : Error → String) (x : Result A × World) (a : A)
    → (answered text x).0 ≡ ok a
    → (x.0 ≡ ok a) × ((answered text x).1 ≡ x.1)
answered_ok text (ok b, w) a h = (h, refl)
answered_ok text (err e, w) a h = absurd (ground arith)

module _ (hash : Fields → String) (now : ℕ) (resource : ResourceCreate) (spec : Fields)
    (db : Database) where
  -- The row that is inserted with these finalizers.
  abbrev pub inserted_row : List String → Resource
  inserted_row finalizers =
      new_resource hash now db.next_resource_id resource.name resource.resource_type_name
        resource.resource_type_version (action_or_empty resource.action_plugin) spec
        (or_default resource.plugin_config Values.end) (or_default resource.metadata Values.end)
        finalizers

module _ (plugin : HttpInputPlugin) (hash : Fields → String) (timestamp : String) (now : ℕ)
    (resource : ResourceCreate) (spec : Fields) (w : World) (r : Resource) where
  record Inserted (x : Result Resource × World) : Type 0 where
    finalizers : List String
    built : (build_finalizers resource w.registry).0 ≡ ok finalizers
    fresh : name_taken resource.name w.db ≡ false
    new : r ≡ inserted_row hash now resource spec w.db finalizers
    added : x.1.db.resources ≡ w.db.resources ++ r ∷ []

  announced-Inserted :
      (finalizers : List String) (g : Registry)
      → (build_finalizers resource w.registry).0 ≡ ok finalizers
      → IsValid w.db
      → let x =
          announced plugin hash timestamp now resource spec
            (insert_with plugin hash timestamp now resource spec finalizers w)
            (record w { registry = g }) in
        x.0 ≡ ok r → Inserted x
  unfolding create_resource new_resource get_resource
  announced-Inserted finalizers g b v = elim (Bool-cases (name_taken resource.name w.db)) [
    | inl taken ↦ rw (taken, create_resource) (λ h. absurd (ground arith))
    | inr free ↦
        rw (free, create_resource)
          (λ h.
            let (here, same) = announce_ok plugin timestamp w.db.next_resource_id _ r h in
            let found : find
                  (λ (q : Resource). has_id w.db.next_resource_id q && is_none q.deleted_at)
                  (w.db.resources ++ inserted_row hash now resource spec w.db finalizers ∷ [])
                ≡ some (inserted_row hash now resource spec w.db finalizers) =
              find-fresh w.db.next_resource_id w.db.resources
                (inserted_row hash now resource spec w.db finalizers) v.below refl refl in
            let new : inserted_row hash now resource spec w.db finalizers ≡ r =
              some-injective _ _ (sym found ∙ here) in
            record {
              finalizers = finalizers;
              built = b;
              fresh = free;
              new = sym new;
              added = ap (λ d. d.resources) same ∙ ap (λ q. w.db.resources ++ q ∷ []) new;
            })
  ]

  inserted-Inserted :
      (x : Result (List String) × Registry)
      → (build_finalizers resource w.registry ≡ x)
      → IsValid w.db
      → let y = inserted plugin hash timestamp now resource spec x w in y.0 ≡ ok r → Inserted y
  inserted-Inserted (err e, g) b v h = absurd (ground arith)
  inserted-Inserted (ok finalizers, g) b v h = announced-Inserted finalizers g (ap (λ x. x.0) b) v h

  write_create-Inserted :
      IsValid w.db
      → (write_create plugin hash timestamp now resource spec w).0 ≡ ok r
      → Inserted (write_create plugin hash timestamp now resource spec w)
  unfolding write_create
  write_create-Inserted v h = inserted-Inserted (build_finalizers resource w.registry) refl v h

-- Who handles the resource: the action plugin that it names, or else the reconciler of its type.
abbrev pub IsHandler : ResourceCreate → Registry → String → Type 0
IsHandler resource g f =
    ((action_or_empty resource.action_plugin ≢ "") × (f ≡ action_or_empty resource.action_plugin))
    ⊎ ((action_or_empty resource.action_plugin ≡ "")
        × ((c : ReconcilerClass) × ((get_reconciler_for_resource_type resource.resource_type_name
                g).0
              ≡ ok (some c))
            × (f ≡ c.name)))

reconciler_name_one :
    (x : Result (Option ReconcilerClass) × Registry) (fs : List String)
    → (reconciler_name x).0 ≡ ok fs
    → (c : ReconcilerClass) × (x.0 ≡ ok (some c)) × (fs ≡ c.name ∷ [])
reconciler_name_one (ok (some c), g) fs h = (c, refl, sym (ok-injective h))
reconciler_name_one (ok none, g) fs h = absurd (ground arith)
reconciler_name_one (err e, g) fs h = absurd (ground arith)

-- When the check of the handler passes, the finalizers are the one name of it.
build_finalizers_one :
    (resource : ResourceCreate) (g : Registry) (fs : List String)
    → check_handler resource g ≡ ok tt
    → (build_finalizers resource g).0 ≡ ok fs
    → (f : String) × (fs ≡ f ∷ []) × IsHandler resource g f
unfolding check_handler build_finalizers
build_finalizers_one resource g fs = elim (Bool-cases (a == "")) [
  | inr named ↦
      rw (named, build_finalizers)
        (λ c h. (a, sym (ok-injective h), inl ((λ e. ground arith), refl)))
  | inl unnamed ↦
      elim (Bool-cases (has_reconciler_for_resource_type resource.resource_type_name g)) [
        | inr without ↦ rw (unnamed, check_handler) (rw without (λ c h. absurd (ground arith)))
        | inl claimed ↦
            rw (unnamed, build_finalizers)
              (rw claimed (λ c h.
                let (k, found, e) =
                  reconciler_name_one
                    (get_reconciler_for_resource_type resource.resource_type_name g) fs h in
                (k.name, e, inr (ground arith, (k, found, refl)))))
      ]
]
  where
    a : String
    a = action_or_empty resource.action_plugin

module _ (endpoint : Webhook → AdmissionRequest → Option Values.Value)
    (iter_errors : Fields → Fields → Result (List String)) (plugin : HttpInputPlugin)
    (text : Error → String) (hash : Fields → String) (timestamp : String) (now : ℕ) (user : Claims)
    (resource : ResourceCreate) (w : World) where
  abbrev pub posted : Result Resource × World
  posted = post_resource endpoint iter_errors plugin text hash timestamp now user resource w

  check_create_handler :
      (spec : Fields)
      → check_create endpoint iter_errors plugin user resource w.registry w.db ≡ ok spec
      → check_handler resource w.registry ≡ ok tt
  unfolding check_create
  check_create_handler spec = elim (Bool-cases plugin.db_manager) [
    | inr off ↦ rw (off, check_create) (λ h. absurd (ground arith))
    | inl on ↦
        elim (Bool-cases (
          check_resource_permission user w.db resource.resource_type_name
            resource.resource_type_version "CREATE")) [
              | inr denied ↦ rw (on, check_create) (rw denied (λ h. absurd (ground arith)))
              | inl allowed ↦
                  rw (on, check_create)
                    (rw allowed (λ h.
                      let (u, e, rest) =
                        returned-and_then (check_handler resource w.registry) _ spec h in
                      e))
            ]
  ]

  -- A POST that answers with a resource has passed the checks, and has added the resource as the last
  -- row, under a name that no row had, with the spec that the checks returned. The row has one
  -- finalizer: the action plugin that the resource names, or else the name of the reconciler that the
  -- registry gives for its type.
  pub post_creates :
      (r : Resource)
      → IsValid w.db
      → posted.0 ≡ ok r
      → (spec : Fields) × (f : String) × (check_create endpoint iter_errors plugin user resource
            w.registry w.db
          ≡ ok spec)
        × (name_taken resource.name w.db ≡ false)
        × (r ≡ inserted_row hash now resource spec w.db (f ∷ []))
        × (posted.1.db.resources ≡ w.db.resources ++ r ∷ [])
        × IsHandler resource w.registry f
  unfolding post_resource
  post_creates r v =
      by_checks (check_create endpoint iter_errors plugin user resource w.registry w.db) refl
    where
      by_checks :
          (c : Result Fields)
          → check_create endpoint iter_errors plugin user resource w.registry w.db ≡ c
          → posted.0 ≡ ok r
          → (spec : Fields) × (f : String) × (check_create endpoint iter_errors plugin user resource
                w.registry w.db
              ≡ ok spec)
            × (name_taken resource.name w.db ≡ false)
            × (r ≡ inserted_row hash now resource spec w.db (f ∷ []))
            × (posted.1.db.resources ≡ w.db.resources ++ r ∷ [])
            × IsHandler resource w.registry f
      by_checks (err e) q = rw (q, post_resource) (λ h. absurd (ground arith))
      by_checks (ok spec) q =
          rw (q, post_resource)
            (λ h.
              let (same, kept) =
                answered_ok text (write_create plugin hash timestamp now resource spec w) r h in
              let i : Inserted plugin hash timestamp now resource spec w r
                  (write_create plugin hash timestamp now resource spec w) =
                write_create-Inserted plugin hash timestamp now resource spec w r v same in
              let (f, one, named) =
                build_finalizers_one resource w.registry i.finalizers (check_create_handler spec q)
                  i.built in
              (
                spec,
                f,
                refl,
                i.fresh,
                i.new ∙ ap (inserted_row hash now resource spec w.db) one,
                ap (λ x. x.db.resources) kept ∙ i.added,
                named,
              ))
