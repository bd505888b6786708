-- ===== src/Api/Update.antt =====
-- What a PUT of src/plugins/inputs/http/api.py does to the tables, by its answer.
use no8s_operator.Base.{
  ℕ, String, ◌≡◌, ◌≢◌, refl, true, Option, some, List, arith, inl, inr, ◌⊎◌, Bool-cases,
  Option-cases,
}
use no8s_operator.Base.Result.{Error, Result, ok, err, http, value_error}
use no8s_operator.Json.{Value, Fields}
use no8s_operator.Db.Rows.{Resource, Webhook, Database}
use no8s_operator.Db.Resources.{row, get_resource, update_resource}
use no8s_operator.Admission.{AdmissionRequest}
use no8s_operator.Auth.{Claims}
use no8s_operator.Api.{
  HttpInputPlugin, World, answered, check_update, read_back, on_resource_event, write_update,
  put_resource,
}

module _ (endpoint : Webhook → AdmissionRequest → Option Value)
    (iter_errors : Fields → Fields → Result (List String)) (plugin : HttpInputPlugin)
    (text : Error → String) (hash : Fields → String) (timestamp : String) (now : ℕ) (user : Claims)
    (i : ℕ) (spec plugin_config : Option Fields) (w : World) where
  abbrev pub answer : Result Resource × World
  answer =
      put_resource endpoint iter_errors plugin text hash timestamp now user i spec plugin_config w

  abbrev pub checks : Result (Option Fields)
  checks = check_update endpoint iter_errors plugin user i spec w.db

  -- The rest of the handler once the checks have let the request pass.
  abbrev written : Option Fields → Result Resource × World
  written s = answered text (write_update plugin hash timestamp now i s plugin_config w)

  read_back_internal :
      (w' : World) (status : ℕ) (detail : String)
      → (answered text (read_back plugin timestamp i w')).0 ≡ err (http status detail)
      → status ≡ 500
  unfolding read_back on_resource_event
  read_back_internal w' status detail = elim (Option-cases (get_resource i w'.db)) [
    | inl gone ↦ rw (gone, read_back) (λ e. ground arith)
    | inr (r, here) ↦ elim (Option-cases plugin.on_resource_event) [
      | inl n ↦ rw (here, n, read_back) (λ e. absurd (ground arith))
      | inr (b, c) ↦ elim (Bool-cases b) [
        | inl y ↦ rw (here, c, y, read_back) (λ e. ground arith)
        | inr n ↦ rw (here, c, n, read_back) (λ e. absurd (ground arith))
      ]
    ]
  ]

  written_internal :
      (s : Option Fields) (status : ℕ) (detail : String)
      → (written s).0 ≡ err (http status detail)
      → status ≡ 500
  unfolding write_update update_resource
  written_internal s status detail = elim (Option-cases (row i w.db)) [
    | inl gone ↦ rw (gone, update_resource, write_update) (λ e. ground arith)
    | inr (r, here) ↦ rw (here, update_resource, write_update) (read_back_internal _ status detail)
  ]

  -- A request that is refused, by any answer but a 500, has changed neither the tables nor what the
  -- subscribers have.
  pub refused_changes_nothing :
      (status : ℕ) (detail : String)
      → answer.0 ≡ err (http status detail)
      → status ≢ 500
      → answer.1 ≡ w
  unfolding put_resource
  refused_changes_nothing status detail = by_checks checks refl
    where
      by_checks :
          (c : Result (Option Fields))
          → checks ≡ c
          → answer.0 ≡ err (http status detail)
          → status ≢ 500
          → answer.1 ≡ w
      by_checks (err e) q = rw (q, put_resource) (λ a n. refl)
      by_checks (ok s) q =
          rw (q, put_resource) (λ a n. absurd (n (written_internal s status detail a)))

  InternalError : Database → Result Resource × World → Type 0
  InternalError db x =
      ((detail : String) × (x.0 ≡ err (http 500 detail))) × (x.1.db ≡ db) × (x.1.bus ≡ w.bus)

  wired_read_back :
      (w' : World)
      → plugin.on_resource_event ≡ some true
      → w'.bus ≡ w.bus
      → InternalError w'.db (answered text (read_back plugin timestamp i w'))
  unfolding read_back on_resource_event InternalError
  wired_read_back w' c same = elim (Option-cases (get_resource i w'.db)) [
    | inl gone ↦ rw (gone, read_back) ((_, refl), refl, same)
    | inr (r, here) ↦ rw (here, c, read_back) ((_, refl), refl, same)
  ]

  update_answers :
      (s : Option Fields)
      → let a = (update_resource hash now i s plugin_config w.db).0 in
        (a ≡ ok tt) ⊎ (a ≡ err (value_error "not found"))
  unfolding update_resource
  update_answers s = elim (Option-cases (row i w.db)) [
    | inl gone ↦ inr (rw (gone, update_resource) refl)
    | inr (r, here) ↦ inl (rw (here, update_resource) refl)
  ]

  wired_written :
      (s : Option Fields)
      → plugin.on_resource_event ≡ some true
      → InternalError (update_resource hash now i s plugin_config w.db).1 (written s)
  unfolding write_update InternalError
  wired_written s c = elim (update_answers s) [
    | inr failed ↦ rw (failed, write_update) ((_, refl), refl, refl)
    | inl done ↦ rw (done, write_update) (wired_read_back _ c refl)
  ]

  -- With the callback that main.py installs when it has an event bus, every request that passes the
  -- checks is answered by a 500, although the update is made, and no subscriber hears of it.
  pub wired_update_fails :
      (s : Option Fields)
      → plugin.on_resource_event ≡ some true
      → checks ≡ ok s
      → ((detail : String) × (answer.0 ≡ err (http 500 detail)))
        × (answer.1.db ≡ (update_resource hash now i s plugin_config w.db).1)
        × (answer.1.bus ≡ w.bus)
  unfolding put_resource InternalError
  wired_update_fails s c q = rw (q, put_resource) (wired_written s c)
