-- ===== src/Api/Refusals.antt =====
-- What a POST or a DELETE of src/plugins/inputs/http/api.py leaves when it is refused.
use no8s_operator.Base.{
  ℕ, ◌≡◌, ◌≢◌, refl, arith, String, Bool, true, false, inl, inr, Option, none, some, List, ◌==◌,
  string_eq, Bool-cases, Option-cases,
}
use no8s_operator.Base.Result.{
  Error, Result, ok, err, http, unique_violation, not_null_violation, foreign_key_violation,
  value_error, runtime_error, type_error, attribute_error, key_error, admission_error, external,
}
use no8s_operator.Json.{Value, Fields}
use no8s_operator.Base.Assoc.{lookup}
use no8s_operator.Db.Rows.{Resource, Webhook}
use no8s_operator.Db.Resources.{name_taken, get_resource, create_resource}
use no8s_operator.Admission.{AdmissionRequest}
use no8s_operator.Auth.{Claims}
use no8s_operator.Plugins.Registry.{
  Registry, ReconcilerClass, keep_instance, has_reconciler_for_resource_type, get_reconciler_plugin,
  get_reconciler_for_resource_type,
}
use no8s_operator.Api.{HttpInputPlugin, World, notified, answered, on_resource_event}
use no8s_operator.Api.Create.{
  ResourceCreate, action_or_empty, build_finalizers, reconciler_name, announce, inserted,
  write_create, check_create, post_resource,
}
use no8s_operator.Api.Delete.{write_delete, check_delete, delete_handler}

-- An exception that is no HTTPException.
abbrev IsInternalError : Error → Type 0
IsInternalError (http status detail) = ⊥
IsInternalError _ = Unit

abbrev IsInternal : {A : Type 0} → Result A → Type 0
IsInternal (ok a) = Unit
IsInternal (err e) = IsInternalError e

answered_internal :
    {A : Type 0} (text : Error → String) (x : Result A × World) (status : ℕ) (detail : String)
    → IsInternal x.0
    → (answered text x).0 ≡ err (http status detail)
    → status ≡ 500
answered_internal text (ok a, w) status detail i h = absurd (ground arith)
answered_internal text (err (http s d), w) status detail i h = absurd i
answered_internal text (err (unique_violation d), w) status detail i h = ground arith
answered_internal text (err (not_null_violation d), w) status detail i h = ground arith
answered_internal text (err (foreign_key_violation d), w) status detail i h = ground arith
answered_internal text (err (value_error d), w) status detail i h = ground arith
answered_internal text (err (runtime_error d), w) status detail i h = ground arith
answered_internal text (err (type_error d), w) status detail i h = ground arith
answered_internal text (err (attribute_error d), w) status detail i h = ground arith
answered_internal text (err (key_error d), w) status detail i h = ground arith
answered_internal text (err (admission_error d), w) status detail i h = ground arith
answered_internal text (err (external d), w) status detail i h = ground arith

notified-IsInternal : (c : Option Bool) → IsInternal (notified c)
unfolding on_resource_event
notified-IsInternal none = tt
notified-IsInternal (some true) = tt
notified-IsInternal (some false) = tt

announce-IsInternal :
    (plugin : HttpInputPlugin) (timestamp : String) (i : ℕ) (w : World)
    → IsInternal (announce plugin timestamp i w).0
unfolding announce
announce-IsInternal plugin timestamp i w = go (notified plugin.on_resource_event) refl
  where
    go :
        (n : Result (Unit {0}))
        → notified plugin.on_resource_event ≡ n
        → IsInternal (announce plugin timestamp i w).0
    go (err e) q = rw (q, announce) (rw q at (notified-IsInternal plugin.on_resource_event))
    go (ok u) q = elim (Option-cases (get_resource i w.db)) [
      | inl gone ↦ rw (q, announce) (rw gone tt)
      | inr (s, here) ↦ rw (q, announce) (rw here tt)
    ]

module _ (resource : ResourceCreate) (g : Registry) where
  keep_instance-IsInternal :
      (name : String) (c : ReconcilerClass) (x : Option String)
      → IsInternal (keep_instance name c x g).0
  keep_instance-IsInternal name c none = tt
  keep_instance-IsInternal name c (some e) = tt

  get_reconciler-IsInternal : (name : String) → IsInternal (get_reconciler_plugin name g).0
  unfolding get_reconciler_plugin
  get_reconciler-IsInternal name = elim (Option-cases (lookup name g.reconciler_plugins)) [
    | inl gone ↦ rw (gone, get_reconciler_plugin) tt
    | inr (c, here) ↦ elim (Option-cases (lookup name g.reconciler_instances)) [
      | inl new ↦
          rw (here, get_reconciler_plugin) (rw new (keep_instance-IsInternal name c c.raises))
      | inr (r, old) ↦ rw (here, get_reconciler_plugin) (rw old tt)
    ]
  ]

  named-IsInternal :
      (x : Result (Option ReconcilerClass) × Registry)
      → IsInternal x.0
      → IsInternal (reconciler_name x).0
  named-IsInternal (ok none, g') h = tt
  named-IsInternal (ok (some c), g') h = tt
  named-IsInternal (err e, g') h = h

  claimed-IsInternal : (t : String) → IsInternal (get_reconciler_for_resource_type t g).0
  unfolding get_reconciler_for_resource_type
  claimed-IsInternal t = elim (Option-cases (lookup t g.resource_type_to_reconciler)) [
    | inl free ↦ rw (free, get_reconciler_for_resource_type) tt
    | inr (name, claimed) ↦ go name claimed (get_reconciler_plugin name g).0 refl
  ]
    where
      go :
          (name : String)
          → lookup t g.resource_type_to_reconciler ≡ some name
          → (r : Result ReconcilerClass) → (get_reconciler_plugin name g).0 ≡ r
          → IsInternal (get_reconciler_for_resource_type t g).0
      go name c (ok r) q = rw (c, get_reconciler_for_resource_type) (rw q tt)
      go name c (err e) q =
          rw (c, get_reconciler_for_resource_type) (rw q (rw q at (get_reconciler-IsInternal name)))

  build_finalizers-IsInternal : IsInternal (build_finalizers resource g).0
  unfolding build_finalizers
  build_finalizers-IsInternal = elim (Bool-cases (action_or_empty resource.action_plugin == "")) [
    | inr named ↦ rw (named, build_finalizers) tt
    | inl unnamed ↦
        elim (Bool-cases (has_reconciler_for_resource_type resource.resource_type_name g)) [
          | inr without ↦ rw (unnamed, build_finalizers) (rw without tt)
          | inl claimed ↦
              rw (unnamed, build_finalizers)
                (rw claimed (
                  named-IsInternal (get_reconciler_for_resource_type resource.resource_type_name g)
                    (claimed-IsInternal resource.resource_type_name)))
        ]
  ]

module _ (plugin : HttpInputPlugin) (text : Error → String) (timestamp : String) (now : ℕ) where
  write_create-IsInternal :
      (hash : Fields → String) (resource : ResourceCreate) (spec : Fields) (w : World)
      → IsInternal (write_create plugin hash timestamp now resource spec w).0
  unfolding write_create create_resource
  write_create-IsInternal hash resource spec w =
      go (build_finalizers resource w.registry) (build_finalizers-IsInternal resource w.registry)
    where
      go :
          (x : Result (List String) × Registry)
          → IsInternal x.0
          → IsInternal (inserted plugin hash timestamp now resource spec x w).0
      go (err e, g) h = h
      go (ok fs, g) h = elim (Bool-cases (name_taken resource.name w.db)) [
        | inl taken ↦ rw (taken, create_resource) tt
        | inr free ↦ rw (free, create_resource) (announce-IsInternal plugin timestamp _ _)
      ]

  write_delete-IsInternal :
      (i : ℕ) (r : Resource) (w : World) → IsInternal (write_delete plugin timestamp now i r w).0
  unfolding write_delete
  write_delete-IsInternal i r w = go (notified plugin.on_resource_event) refl
    where
      go :
          (n : Result (Unit {0}))
          → notified plugin.on_resource_event ≡ n
          → IsInternal (write_delete plugin timestamp now i r w).0
      go (err e) q = rw (q, write_delete) (rw q at (notified-IsInternal plugin.on_resource_event))
      go (ok u) q = rw (q, write_delete) tt

module _ (endpoint : Webhook → AdmissionRequest → Option Value)
    (iter_errors : Fields → Fields → Result (List String)) (plugin : HttpInputPlugin)
    (text : Error → String) (hash : Fields → String) (timestamp : String) (now : ℕ) (user : Claims)
    (w : World) where
  abbrev pub posted_answer : ResourceCreate → Result Resource × World
  posted_answer resource =
      post_resource endpoint iter_errors plugin text hash timestamp now user resource w

  abbrev pub deleted_answer : ℕ → Result ℕ × World
  deleted_answer i = delete_handler endpoint iter_errors plugin text timestamp now user i w

  post_refused :
      (resource : ResourceCreate) (status : ℕ) (detail : String)
      → (posted_answer resource).0 ≡ err (http status detail)
      → status ≢ 500
      → (posted_answer resource).1 ≡ w
  unfolding post_resource
  post_refused resource status detail =
      go (check_create endpoint iter_errors plugin user resource w.registry w.db) refl
    where
      go :
          (c : Result Fields)
          → check_create endpoint iter_errors plugin user resource w.registry w.db ≡ c
          → (posted_answer resource).0 ≡ err (http status detail)
          → status ≢ 500
          → (posted_answer resource).1 ≡ w
      go (err e) q = rw (q, post_resource) (λ a n. refl)
      go (ok spec) q =
          rw (q, post_resource)
            (λ a n. absurd (
              n (
                answered_internal text (write_create plugin hash timestamp now resource spec w)
                  status detail
                  (write_create-IsInternal plugin text timestamp now hash resource spec w) a)))

  delete_refused :
      (i : ℕ) (status : ℕ) (detail : String)
      → (deleted_answer i).0 ≡ err (http status detail)
      → status ≢ 500
      → (deleted_answer i).1 ≡ w
  unfolding delete_handler
  delete_refused i status detail = go (check_delete endpoint iter_errors plugin user i w.db) refl
    where
      go :
          (c : Result Resource)
          → check_delete endpoint iter_errors plugin user i w.db ≡ c
          → (deleted_answer i).0 ≡ err (http status detail)
          → status ≢ 500
          → (deleted_answer i).1 ≡ w
      go (err e) q = rw (q, delete_handler) (λ a n. refl)
      go (ok r) q =
          rw (q, delete_handler)
            (λ a n. absurd (
              n (
                answered_internal text (write_delete plugin timestamp now i r w) status detail
                  (write_delete-IsInternal plugin text timestamp now i r w) a)))

  -- A POST and a DELETE that are refused, by any answer but a 500, have changed neither the tables,
  -- nor what the subscribers have, nor the registry.
  pub refused_post_and_delete :
      (resource : ResourceCreate) (i status status' : ℕ) (detail detail' : String)
      → status ≢ 500
      → status' ≢ 500
      → (posted_answer resource).0 ≡ err (http status detail)
      → (deleted_answer i).0 ≡ err (http status' detail')
      → ((posted_answer resource).1 ≡ w) × ((deleted_answer i).1 ≡ w)
  refused_post_and_delete resource i status status' detail detail' n n' a b =
      (post_refused resource status detail a n, delete_refused i status' detail' b n')
