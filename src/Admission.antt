-- ===== src/Admission.antt =====
-- src/admission.py: JSON patches, one webhook call, and the chain of them. What an endpoint answers
-- is a parameter: `none` stands for every exception of the request, a status of 500 or more among
-- them.
pub mod Patches
pub mod Removals
pub mod Chain
mod Examples
use no8s_operator.Base.{
  ℕ, String, Bool, true, false, not, ◌&&◌, ◌||◌, Option, none, some, List, [], ◌∷◌, ◌==◌,
  if◌then◌else◌, string_eq, filter,
}
use no8s_operator.Base.Paths.{after_prefix, starts_with, split_slash}
use no8s_operator.Base.Result.{
  Error, Result, ok, err, and_then, admission_error, type_error, attribute_error,
}
use no8s_operator.Json.{
  Value, Items, Fields, null, bool, num, str, arr, obj, nil, cons, end, field, get, set, remove,
  to_list, truthy,
}
use no8s_operator.Db.Rows.{Resource, Webhook, Database}
use no8s_operator.Db.Webhooks.{get_matching_webhooks}

-- `parts` of a path: none where nothing is left of it.
unfoldable pub path_parts : String → List String
path_parts path =
    let rest =
      if starts_with path "/spec/"
      then after_prefix "/spec/" path
      else if starts_with path "/"
      then after_prefix "/" path
      else path in
    if rest == "" then [] else split_slash rest

abbrev pub not_found : Error
not_found = admission_error "Patch path not found"

-- `target[part] = value` where the target is no dict: a TypeError at the last part, and the path is
-- not found before it.
abbrev pub no_dict : List String → Error
no_dict [] = type_error "object does not support item assignment"
no_dict (p ∷ ps) = not_found

abbrev pub rebuilt : String → Fields → Result Fields → Result Fields
rebuilt part d (ok inner) = ok (set part (obj inner) d)
rebuilt part d (err e) = err e

-- The value at a path whose parts are `part` and then `parts` becomes `value`.
unfoldable pub put : List String → String → Value → Fields → Result Fields
put [] part value d = ok (set part value d)
put (next ∷ parts) part value d = elim (get part d) [
  | none ↦ err not_found
  | some (obj inner) ↦ rebuilt part d (put parts next value inner)
  | some _ ↦ err (no_dict parts)
]

unfoldable pub delete : List String → String → Fields → Result Fields
delete [] part d = elim (get part d) [ none ↦ err not_found | some v ↦ ok (remove part d) ]
delete (next ∷ parts) part d = elim (get part d) [
  | none ↦ err not_found
  | some (obj inner) ↦ rebuilt part d (delete parts next inner)
  | some _ ↦ err not_found
]

-- `patch.get(…)` with its default
abbrev get_or : String → Value → Fields → Value
get_or k default d = elim (get k d) [ none ↦ default | some v ↦ v ]

-- The branches on `op`; an operation that is no text equals none of the names.
unfoldable pub operate : Value → String → List String → Fields → Fields → Result Fields
operate (str op) part parts patch d =
    if op == "add" || op == "replace"
    then put parts part (get_or "value" null patch) d
    else if op == "remove"
    then delete parts part d
    else err (admission_error "Unsupported patch operation")
operate _ part parts patch d = err (admission_error "Unsupported patch operation")

abbrev pub on_path : Fields → Fields → List String → Result Fields
on_path patch d [] = err (admission_error "Invalid patch path")
on_path patch d (part ∷ parts) = operate (get_or "op" null patch) part parts patch d

-- A patch that is no dict has no `get`, and a path that is no text no `startswith`.
unfoldable pub apply_patch : Value → Fields → Result Fields
apply_patch (obj patch) d = elim (get_or "path" (str "") patch) [
  | str path ↦ on_path patch d (path_parts path)
  | _ ↦ err (attribute_error "startswith")
]
apply_patch _ d = err (attribute_error "get")

unfoldable pub apply_patches : Fields → List Value → Result Fields
apply_patches spec [] = ok spec
apply_patches spec (patch ∷ patches) = elim (apply_patch patch spec) [
  | err e ↦ err e
  | ok spec' ↦ apply_patches spec' patches
]

-- The operation, the four entries of the `resource` dict, and the old resource.
pub record AdmissionRequest : Type 0 where
  pub operation : String
  pub name : String
  pub resource_type_name : String
  pub resource_type_version : String
  pub spec : Fields
  pub old_resource : Option Resource

pub record AdmissionResponse : Type 0 where
  pub allowed : Value
  pub message : Value
  pub patches : Value

-- An answer that is no dict has no `get`, which is one more exception.
unfoldable pub call_webhook :
    (Webhook → AdmissionRequest → Option Value)
    → Webhook
    → AdmissionRequest
    → Result AdmissionResponse
call_webhook endpoint w request = elim (endpoint w request) [
  | some (obj body) ↦ ok (record {
    allowed = get_or "allowed" (bool false) body;
    message = get_or "message" (str "") body;
    patches = get_or "patches" (arr nil) body;
  })
  | _ ↦
      if w.failure_policy == "Ignore"
      then ok
          (record { allowed = bool true; message = str "Webhook error ignored"; patches = arr nil })
      else err (admission_error "Admission webhook failed")
]

-- `for patch in patches`: a dict and a text give keys and characters, which are no patches.
unfoldable pub patched : Value → Fields → Result Fields
patched (arr patches) spec = apply_patches spec (to_list patches)
patched null spec = ok spec
patched (bool b) spec = if b then err (type_error "not iterable") else ok spec
patched (num n) spec = if truthy (num n) then err (type_error "not iterable") else ok spec
patched (str s) spec = if truthy (str s) then err (attribute_error "get") else ok spec
patched (obj d) spec = if truthy (obj d) then err (attribute_error "get") else ok spec

-- An answer that does not allow the request ends the chain.
abbrev pub admitted :
    {A : Type 0} → String → Result AdmissionResponse → (AdmissionResponse → Result A) → Result A
admitted denial (err e) next = err e
admitted denial (ok response) next =
    if truthy response.allowed then next response else err (admission_error denial)

module _ (endpoint : Webhook → AdmissionRequest → Option Value) where
  unfoldable pub run_mutating : List Webhook → AdmissionRequest → Result AdmissionRequest
  run_mutating [] request = ok request
  run_mutating (w ∷ ws) request =
      admitted "Denied by mutating webhook" (call_webhook endpoint w request) (λ response.
        and_then (patched response.patches request.spec)
          (λ spec. run_mutating ws (record request { spec = spec })))

  unfoldable pub run_validating : List Webhook → AdmissionRequest → Result (Unit {0})
  run_validating [] request = ok tt
  run_validating (w ∷ ws) request =
      admitted "Denied by validating webhook" (call_webhook endpoint w request)
        (λ response. run_validating ws request)

  abbrev pub of_kind : String → Webhook → Bool
  of_kind t w = w.webhook_type == t

  -- The spec after all webhooks, with which the caller goes on.
  unfoldable pub run : Database → AdmissionRequest → Result Fields
  run db request =
      let webhooks =
        get_matching_webhooks request.resource_type_name request.resource_type_version
          request.operation db in
      and_then (run_mutating (filter (of_kind "mutating") webhooks) request) (λ request'.
        and_then (run_validating (filter (of_kind "validating") webhooks) request')
          (λ done. ok request'.spec))
