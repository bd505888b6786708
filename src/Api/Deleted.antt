-- ===== src/Api/Deleted.antt =====
-- A DELETE of src/plugins/inputs/http/api.py that is answered by 202, and a second one.
use no8s_operator.Base.{
  ℕ, ◌≡◌, refl, ap, ◌∙◌, arith, String, true, inl, inr, Option, none, List, nat_eq, Bool-cases,
}
use no8s_operator.Base.Result.{Error, Result, ok, err, http}
use no8s_operator.Json.{Value, Fields}
use no8s_operator.Db.Rows.{Resource, Webhook, Database}
use no8s_operator.Db.Resources.Laws.{get_resource-delete_resource}
use no8s_operator.Db.Resources.{get_resource, delete_resource}
use no8s_operator.Admission.{AdmissionRequest}
use no8s_operator.Auth.{Claims}
use no8s_operator.Api.{HttpInputPlugin, World, notified, answered}
use no8s_operator.Api.Delete.{write_delete, check_delete, delete_handler}

module _ (plugin : HttpInputPlugin) (text : Error → String) (timestamp : String) (now : ℕ) where
  pub written :
      (i : ℕ) (r : Resource) (w : World)
      → (answered text (write_delete plugin timestamp now i r w)).1.db
        ≡ (delete_resource now i w.db).1
  unfolding write_delete
  written i r w = go (notified plugin.on_resource_event) refl
    where
      go :
          (n : Result (Unit {0}))
          → notified plugin.on_resource_event ≡ n
          → (answered text (write_delete plugin timestamp now i r w)).1.db
            ≡ (delete_resource now i w.db).1
      go (err e) q = rw (q, write_delete) refl
      go (ok u) q = rw (q, write_delete) refl

module _ (endpoint : Webhook → AdmissionRequest → Option Value)
    (iter_errors : Fields → Fields → Result (List String)) (plugin : HttpInputPlugin)
    (text : Error → String) (timestamp : String) (now : ℕ) where
  abbrev pub delete_of : Claims → ℕ → World → Result ℕ × World
  delete_of user i w = delete_handler endpoint iter_errors plugin text timestamp now user i w

  check_delete_connected :
      (user : Claims) (i : ℕ) (db : Database) (r : Resource)
      → check_delete endpoint iter_errors plugin user i db ≡ ok r
      → plugin.db_manager ≡ true
  unfolding check_delete
  check_delete_connected user i db r = elim (Bool-cases plugin.db_manager) [
    | inl on ↦ λ h. on
    | inr off ↦ rw (off, check_delete) (λ h. absurd (ground arith))
  ]

  -- Whoever deletes a resource, once a DELETE of it was accepted any DELETE of it is answered by a 404
  -- and changes nothing.
  pub second_delete_missing :
      (user user' : Claims) (i n : ℕ) (w : World)
      → (delete_of user i w).0 ≡ ok n
      → delete_of user' i (delete_of user i w).1
        ≡ (err (http 404 "Resource not found"), (delete_of user i w).1)
  unfolding delete_handler check_delete
  second_delete_missing user user' i n w =
      go (check_delete endpoint iter_errors plugin user i w.db) refl
    where
      missing :
          (v : World)
          → plugin.db_manager ≡ true
          → get_resource i v.db ≡ none
          → delete_of user' i v ≡ (err (http 404 "Resource not found"), v)
      missing v on gone = rw (on, check_delete, delete_handler) (rw gone refl)

      go :
          (c : Result Resource)
          → check_delete endpoint iter_errors plugin user i w.db ≡ c
          → (delete_of user i w).0 ≡ ok n
          → delete_of user' i (delete_of user i w).1
            ≡ (err (http 404 "Resource not found"), (delete_of user i w).1)
      go (err e) q = rw (q, delete_handler) (λ h. absurd (ground arith))
      go (ok r) q = λ h.
          let after : (delete_of user i w).1.db ≡ (delete_resource now i w.db).1 =
            rw (q, delete_handler) (written plugin text timestamp now i r w) in
          missing (delete_of user i w).1 (check_delete_connected user i w.db r q)
            (ap (get_resource i) after ∙ get_resource-delete_resource now i w.db)
