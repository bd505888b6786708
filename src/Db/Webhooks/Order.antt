-- ===== src/Db/Webhooks/Order.antt =====
-- The order in which src/db.py returns the webhooks of a request.
use mathlib.Core.List.{Perm}
use text.Mathlib.TextEquality.{eq_iff}
use no8s_operator.Base.{
  String, Bool, Option, none, some, List, [], ◌∷◌, ◌≡◌, ◌≢◌, ◌↔◌, ◌⊎◌, ◌≤◌, true, false, arith,
  string_eq, filter, contains, All,
}
use no8s_operator.Base.Sort.{sort, sort-perm, IsSorted, sort-IsSorted}
use no8s_operator.Db.Rows.{Webhook, Database}
use no8s_operator.Db.Webhooks.{matches, comes_before, get_matching_webhooks}

comes_before_total : (v w : Webhook) → comes_before v w ≡ false → comes_before w v ≡ true
comes_before_total v w h = ground arith

comes_before_trans :
    (u v w : Webhook) → comes_before u v ≡ true → comes_before v w ≡ true → comes_before u w ≡ true
comes_before_trans u v w h k = ground arith

-- A column that is NULL stands for every value.
abbrev pub Covers : Option String → String → Type 0
Covers column value = (column ≡ none) ⊎ (column ≡ some value)

-- The webhook is meant for the request.
abbrev pub Matches : String → String → String → Webhook → Type 0
Matches type_name type_version operation w =
    Covers w.resource_type_name type_name
    × Covers w.resource_type_version type_version
    × (contains w.operations operation ≡ true)

matches_iff :
    (type_name type_version operation : String) (w : Webhook)
    → (matches type_name type_version operation w ≡ true)
      ↔ Matches type_name type_version operation w
matches_iff type_name type_version operation w = (λ h. ground arith, λ h. ground arith)

abbrev pub IsUnknown : Webhook → Type 0
IsUnknown w = (w.webhook_type ≢ "mutating") × (w.webhook_type ≢ "validating")

-- Mutating before validating before any other type, and within one of these by `ordering`.
abbrev pub Precedes : Webhook → Webhook → Type 0
Precedes v w =
    ((v.webhook_type ≡ "mutating") × (w.webhook_type ≢ "mutating"))
    ⊎ (((v.webhook_type ≡ "validating") × IsUnknown w)
        ⊎ (((v.webhook_type ≡ w.webhook_type) ⊎ (IsUnknown v × IsUnknown w))
            × (v.ordering ≤ w.ordering)))

comes_before-Precedes : (v w : Webhook) → comes_before v w ≡ true → Precedes v w
comes_before-Precedes v w h = ground (arith, eq_iff "mutating" "validating")

-- Each webhook of a list precedes those behind it.
abbrev pub InOrder : List Webhook → Type 0
InOrder [] = Unit
InOrder (w ∷ ws) = All (Precedes w) ws × InOrder ws

All-Precedes :
    (v : Webhook) (ws : List Webhook) → All (λ w. comes_before v w ≡ true) ws → All (Precedes v) ws
All-Precedes v [] h = tt
All-Precedes v (w ∷ ws) h = (comes_before-Precedes v w h.0, All-Precedes v ws h.1)

IsSorted-InOrder : (ws : List Webhook) → IsSorted comes_before ws → InOrder ws
IsSorted-InOrder [] h = tt
IsSorted-InOrder (w ∷ ws) h = (All-Precedes w ws h.0, IsSorted-InOrder ws h.1)

-- The webhooks found are the ones that a filter of the table keeps, and it keeps exactly those whose
-- type and version are the request's or NULL and whose operations have the request's. They come with
-- the mutating ones before the validating ones, and each kind by its ordering.
pub matching_webhooks_ordered :
    (type_name type_version operation : String) (db : Database)
    → let found = get_matching_webhooks type_name type_version operation db in
      (keeps : Webhook → Bool) × Perm found (filter keeps db.webhooks)
      × ((w : Webhook) → (keeps w ≡ true) ↔ Matches type_name type_version operation w)
      × InOrder found
unfolding get_matching_webhooks
matching_webhooks_ordered type_name type_version operation db =
    let ws = filter (matches type_name type_version operation) db.webhooks in
    (
      matches type_name type_version operation,
      sort-perm comes_before ws,
      matches_iff type_name type_version operation,
      IsSorted-InOrder (sort comes_before ws)
          (sort-IsSorted comes_before comes_before_total comes_before_trans ws),
    )
