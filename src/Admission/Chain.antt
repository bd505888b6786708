-- ===== src/Admission/Chain.antt =====
-- What it takes for a request to pass the chain of src/admission.py.
use no8s_operator.Base.{
  ◌↔◌, ◌≡◌, refl, sym, ◌∙◌, true, Option, none, List, [], ◌∷◌, arith, ◌==◌, if◌then◌else◌,
  string_eq, inl, inr, Bool-cases,
}
use no8s_operator.Base.Result.{Result, ok, err, admission_error}
use no8s_operator.Json.{Value, Fields, bool, str, arr, nil, truthy}
use no8s_operator.Db.Rows.{Webhook}
use no8s_operator.Admission.{AdmissionRequest, AdmissionResponse, call_webhook, patched}

module _ (endpoint : Webhook → AdmissionRequest → Option Value) where
  -- The call returned a response that allows the request: the answer of the webhook, or the one that
  -- stands for no answer under the policy Ignore.
  abbrev pub Allows : Webhook → AdmissionRequest → Type 0
  Allows w request =
      (response : AdmissionResponse) × (call_webhook endpoint w request ≡ ok response)
      × (truthy response.allowed ≡ true)

  -- Each webhook in turn allows what the patches before it have made of the request, and its
  -- own patches apply.
  pub data Mutated : List Webhook → AdmissionRequest → AdmissionRequest → Type 0 where
    done : {request : AdmissionRequest} → Mutated [] request request
    step :
        {w : Webhook} {ws : List Webhook} {request last : AdmissionRequest} (spec : Fields)
        → (allows : Allows w request) → patched allows.0.patches request.spec ≡ ok spec
        → Mutated ws (record request { spec = spec }) last
        → Mutated (w ∷ ws) request last

  unanswered :
      (w : Webhook) (request : AdmissionRequest)
      → endpoint w request ≡ none
      → call_webhook endpoint w request ≡ (
          if w.failure_policy == "Ignore"
          then ok (record {
            allowed = bool true;
            message = str "Webhook error ignored";
            patches = arr nil;
          })
          else err (admission_error "Admission webhook failed"))
  unfolding call_webhook
  unanswered w request e = rw (e, call_webhook) refl

  -- A webhook that gets no answer allows the request exactly where its failure policy says "Ignore".
  pub unanswered-Allows_iff :
      (w : Webhook) (request : AdmissionRequest)
      → endpoint w request ≡ none
      → Allows w request ↔ (w.failure_policy ≡ "Ignore")
  unanswered-Allows_iff w request e = elim (Bool-cases (w.failure_policy == "Ignore")) [
    | inl y ↦ (
      λ a. ground arith,
      λ i. (
        record { allowed = bool true; message = str "Webhook error ignored"; patches = arr nil },
        unanswered w request e ∙ rw y refl,
        refl,
      ),
    )
    | inr n ↦ (
      λ a. absurd (refused (sym (unanswered w request e ∙ rw n refl) ∙ a.1)),
      λ i. absurd (ground arith),
    )
  ]
    where
      refused :
          {r : AdmissionResponse} → err (admission_error "Admission webhook failed") ≡ ok r → ⊥
      refused h = ground arith
