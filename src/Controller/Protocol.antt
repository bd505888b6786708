-- ===== src/Controller/Protocol.antt =====
-- Which methods of a plugin `_execute_reconciliation` of src/controller.py calls, and in which order.
use mathlib.Core.List.{append_assoc}
use no8s_operator.Base.{
  ℕ, String, ◌≡◌, refl, ap, ◌∙◌, ◌≢◌, inl, inr, Bool, true, false, List, [], ◌∷◌, ◌++◌, string_eq,
  arith, ◌==◌, Bool-cases,
}
use no8s_operator.Base.Result.{Error, Result, ok, err, Action}
use no8s_operator.Json.{Fields, end, field}
use no8s_operator.Db.Resources.{update_resource_outputs}
use no8s_operator.Db.Rows.{ResourceStatus, deleting, status_eq, Resource, Database}
use no8s_operator.Plugins.{ActionResult, ActionContext, Plugin}
use no8s_operator.Controller.{
  ReconciliationResult, PluginCall, prepares, plans, applies, destroys, cleans, World, on_db, call,
}
use no8s_operator.Controller.Execution.{
  failed_by, or_fail, execute_reconciliation, cleaned_up, plan_and_change, planned, applied,
  destroyed, initial, plan_recorded,
}

-- The calls between the preparation and the cleanup, the status of the resource when it was selected,
-- and what the result says of success and of changes found.
pub data Changes (s : ResourceStatus) (success has_changes : Bool) : List PluginCall → Type 0 where
  plan_failed : success ≡ false → Changes s success has_changes (plans ∷ [])
  in_place :
      s ≢ deleting
      → success ≡ true
      → has_changes ≡ false
      → Changes s success has_changes (plans ∷ [])
  applied_changes :
      s ≢ deleting → has_changes ≡ true → Changes s success has_changes (plans ∷ applies ∷ [])
  all_destroyed : s ≡ deleting → Changes s success has_changes (plans ∷ destroys ∷ [])

-- All calls: where the preparation raised, nothing follows.
pub data Protocol (s : ResourceStatus) (success has_changes : Bool) : List PluginCall → Type 0 where
  unprepared :
      success ≡ false → has_changes ≡ false → Protocol s success has_changes (prepares ∷ [])
  prepared :
      {cs : List PluginCall}
      → Changes s success has_changes cs
      → Protocol s success has_changes (prepares ∷ cs ++ cleans ∷ [])

Follows : (List PluginCall → Type 0) → World → World → Type 0
Follows P w w' = (cs : List PluginCall) × P cs × (w'.calls ≡ w.calls ++ cs)

append_again : (cs ds es fs : List PluginCall) → cs ≡ ds ++ es → cs ++ fs ≡ ds ++ (es ++ fs)
append_again cs ds es fs e = ap (λ xs. xs ++ fs) e ∙ append_assoc ds es fs

abbrev after_call : PluginCall → Database → World → World
after_call c db w = record w { db = db; calls = w.calls ++ c ∷ [] }

module _ (str : Error → String) (now : ℕ) where
  -- A property of what a call leads to holds if it does for every answer of the plugin, and whatever
  -- stands in the database then.
  call-or_fail :
      {A : Type 0} (result : ReconciliationResult) (c : PluginCall) (m : Action Database A)
      (k : A → World → ReconciliationResult × World) (w : World)
      (Q : ReconciliationResult × World → Type 0)
      → ((a : A) (db : Database) → Q (k a (after_call c db w)))
      → ((e : Error) (db : Database) → Q (failed_by str now e result, after_call c db w))
      → Q (or_fail str now result (call c m) k w)
  call-or_fail result c m k w Q good bad = by_answer (m w.db)
    where
      by_answer :
          (x : Result _ × Database)
          → Q (
              let (r, w') = on_db (λ _. x) (record w { calls = w.calls ++ c ∷ [] }) in
              elim r [ ok a ↦ k a w' | err e ↦ (failed_by str now e result, w') ])
      by_answer (ok a, db) = good a db
      by_answer (err e, db) = bad e db

  module _ (plugin : Plugin) (ctx : ActionContext) (r : Resource) (workspace : String) where
    abbrev Changed : ResourceStatus → World → ReconciliationResult × World → Type 0
    Changed s w x = Follows (Changes s x.0.success x.0.has_changes) w x.1

    destroying_changes :
        (s : ResourceStatus) (result : ReconciliationResult) (w0 w : World)
        → s ≡ deleting
        → w.calls ≡ w0.calls ++ plans ∷ []
        → Changed s w0 (
            or_fail str now result
              (call destroys (plugin.destroy ctx workspace))
              (destroyed str now result)
              w)
    unfolding Follows
    destroying_changes s result w0 w d h =
        call-or_fail result destroys (plugin.destroy ctx workspace) (destroyed str now result) w
          (Changed s w0) (λ a db. (_, all_destroyed d, append_again _ _ _ _ h))
          (λ e db. (_, all_destroyed d, append_again _ _ _ _ h))

    saved_calls :
        (result : ReconciliationResult) (a : ActionResult) (w : World) (outputs : Fields)
        → let (result', w') =
            applied str now ctx result (record a { outputs = outputs; success = true }) w in
          (result'.has_changes ≡ result.has_changes) × (w'.calls ≡ w.calls)
    unfolding update_resource_outputs
    saved_calls result a w end = (refl, refl)
    saved_calls result a w (field k v d) = (refl, refl)

    applied_calls :
        (result : ReconciliationResult) (a : ActionResult) (w : World)
        → let (result', w') = applied str now ctx result a w in
          (result'.has_changes ≡ result.has_changes) × (w'.calls ≡ w.calls)
    applied_calls result a w = elim (Bool-cases a.success) [
      | inr n ↦ rw n (refl, refl)
      | inl y ↦ rw y (saved_calls result a w a.outputs)
    ]

    applying_changes :
        (s : ResourceStatus) (result : ReconciliationResult) (w0 w : World)
        → s ≢ deleting
        → result.has_changes ≡ true
        → w.calls ≡ w0.calls ++ plans ∷ []
        → Changed s w0 (
            or_fail str now result
              (call applies (plugin.apply_changes ctx workspace))
              (applied str now ctx result)
              w)
    unfolding Follows
    applying_changes s result w0 w d c h =
        call-or_fail result applies (plugin.apply_changes ctx workspace)
          (applied str now ctx result) w (Changed s w0)
          (λ a db.
            let kept = applied_calls result a (after_call applies db w) in
            (_, applied_changes d (kept.0 ∙ c), kept.1 ∙ append_again _ _ _ _ h))
          (λ e db. (_, applied_changes d c, append_again _ _ _ _ h))

    planned_changes :
        (w0 : World) (a : ActionResult) (w : World)
        → w.calls ≡ w0.calls ++ plans ∷ []
        → Changed r.status w0 (planned str now plugin ctx r workspace a w)
    unfolding Follows planned
    planned_changes w0 a w h = elim (Bool-cases a.success) [
      | inr n ↦ (plans ∷ [], plan_failed (ground arith), ground arith)
      | inl y ↦ elim (Bool-cases (r.status == deleting)) [
        | inl d ↦
            rw (y, d)
              (destroying_changes r.status
                (record (plan_recorded str now a) { phase = "destroying" }) w0 w (ground arith) h)
        | inr d ↦ elim (Bool-cases a.has_changes) [
          | inr n ↦ rw (y, d, n) (plans ∷ [], in_place (ground arith) refl (ground arith), h)
          | inl c ↦
              rw (y, d, c)
                (applying_changes r.status
                  (record (plan_recorded str now a) { phase = "applying"; has_changes = true }) w0 w
                  (ground arith) refl h)
        ]
      ]
    ]

    made_changes :
        (w : World) → Changed r.status w (plan_and_change str now plugin ctx r workspace w)
    unfolding Follows
    made_changes w =
        call-or_fail (record initial { phase = "planning" }) plans (plugin.plan ctx workspace)
          (planned str now plugin ctx r workspace) w (Changed r.status w)
          (λ a db. planned_changes w a (after_call plans db w) refl)
          (λ e db. (_, plan_failed refl, refl))

  module _ (plugin : Plugin) (ctx : ActionContext) (r : Resource) where
    -- A reconciliation calls the plugin in one of these orders and no other: the preparation alone,
    -- where it raised; or preparation, plan and cleanup, with at most one change before the cleanup.
    -- The change is the destruction for a resource selected as deleting and the application
    -- for any other; it is applied only where the plan found changes, and a success without any change
    -- means that the plan found none. Whatever the plugin raises or writes to the database, the cleanup
    -- comes last.
    pub execute_reconciliation-Protocol :
        (w : World)
        → let (result, w') = execute_reconciliation str now plugin ctx r w in
          (cs : List PluginCall) × Protocol r.status result.success result.has_changes cs
          × (w'.calls ≡ w.calls ++ cs)
    unfolding execute_reconciliation Follows
    execute_reconciliation-Protocol w =
        call-or_fail (record initial { phase = "initializing" }) prepares (plugin.prepare ctx)
          (λ workspace.
            cleaned_up str now plugin workspace (plan_and_change str now plugin ctx r workspace))
          w (λ x. Follows (Protocol r.status x.0.success x.0.has_changes) w x.1)
          (λ workspace db.
            let (cs, made, e) = made_changes plugin ctx r workspace (after_call prepares db w) in
            (
              prepares ∷ cs ++ cleans ∷ [],
              prepared made,
              ap (λ xs. xs ++ cleans ∷ []) e
                  ∙ ap (λ xs. xs ++ cleans ∷ []) (append_assoc w.calls (prepares ∷ []) cs)
                  ∙ append_assoc w.calls (prepares ∷ cs) (cleans ∷ []),
            ))
          (λ e db. (_, unprepared refl refl, refl))
