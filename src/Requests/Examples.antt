-- ===== src/Requests/Examples.antt =====
-- Names and requests that the validators of src/api_models.py accept or refuse.
use no8s_operator.Base.{◌≡◌, ◌↔◌, refl, [], ◌∷◌, string_eq, nat_eq}
use no8s_operator.Base.Paths.{codes}
use no8s_operator.Base.Result.{ok, err, value_error}
use no8s_operator.Requests.{
  match_rest, match_name, validate_name_format, check_each, validate_operations,
  validate_system_permissions,
}
use no8s_operator.Requests.Names.{IsAccepted, validate_name_format_iff}

validate_name_format_iff_example :
    (validate_name_format "my-vpc" ≡ ok "my-vpc") ↔ IsAccepted (codes "my-vpc")
validate_name_format_iff_example = validate_name_format_iff "my-vpc"

accepted_test : validate_name_format "my-vpc" ≡ ok "my-vpc"
unfolding validate_name_format match_name match_rest string_eq nat_eq
accepted_test = refl

-- `$` stands before the line feed.
line_feed_test : validate_name_format "my-vpc\n" ≡ ok "my-vpc\n"
unfolding validate_name_format match_name match_rest string_eq nat_eq
line_feed_test = refl

dash_test :
    validate_name_format "my-"
    ≡ err (value_error "must consist of lowercase alphanumeric characters or '-'")
unfolding validate_name_format match_name match_rest string_eq nat_eq
dash_test = refl

operations_test :
    validate_operations ("CREATE" ∷ "READ" ∷ []) ≡ err (value_error "Invalid operation")
unfolding validate_operations check_each string_eq
operations_test = refl

permissions_test : validate_system_permissions ("view_plugins" ∷ []) ≡ ok ("view_plugins" ∷ [])
unfolding validate_system_permissions check_each string_eq
permissions_test = refl
