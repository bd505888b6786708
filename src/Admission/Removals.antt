-- ===== src/Admission/Removals.antt =====
-- What a patch of src/admission.py with the operation "remove" does to a spec.
use no8s_operator.Base.{
  String, ◌≡◌, ◌≢◌, refl, sym, ap, ◌∙◌, Option, none, some, List, [], ◌∷◌, arith, string_eq, inl,
  inr, Option-cases,
}
use no8s_operator.Base.Result.{ok, ok-injective}
use no8s_operator.Json.{Value, Fields, null, bool, num, str, arr, obj, get, remove}
use no8s_operator.Json.Laws.{get-remove_same, get-remove_other}
use no8s_operator.Admission.{delete}
use no8s_operator.Admission.Patches.{
  at, Inner, rebuilt-Inner, inner_at, set_inner_at, other_at, Diverges, now_differs, later,
}

delete-Inner :
    (next : String) (parts : List String) (part : String) (d d' : Fields)
    → delete (next ∷ parts) part d ≡ ok d'
    → Inner (delete parts next) part d d'
unfolding delete
delete-Inner next parts part d d' = go (get part d) refl
  where
    go :
        (o : Option Value)
        → get part d ≡ o
        → delete (next ∷ parts) part d ≡ ok d'
        → Inner (delete parts next) part d d'
    go none q = rw (q, delete) (λ e. absurd (ground arith))
    go (some (obj inner)) q =
        rw (q, delete) (λ e. rebuilt-Inner (delete parts next) part d d' inner q e)
    go (some null) q = rw (q, delete) (λ e. absurd (ground arith))
    go (some (bool b)) q = rw (q, delete) (λ e. absurd (ground arith))
    go (some (num n)) q = rw (q, delete) (λ e. absurd (ground arith))
    go (some (str s)) q = rw (q, delete) (λ e. absurd (ground arith))
    go (some (arr vs)) q = rw (q, delete) (λ e. absurd (ground arith))

-- At the last part the value was there.
delete_last :
    (part : String) (d d' : Fields)
    → delete [] part d ≡ ok d'
    → (get part d ≢ none) × (d' ≡ remove part d)
unfolding delete
delete_last part d d' = elim (Option-cases (get part d)) [
  | inl gone ↦ rw (gone, delete) (λ e. absurd (ground arith))
  | inr (v, here) ↦ rw (here, delete) (λ e. ((λ n. absurd (ground arith)), sym (ok-injective e)))
]

was_there :
    (parts : List String) (part : String) (d d' : Fields)
    → delete parts part d ≡ ok d'
    → at parts part d ≢ none
unfolding at Inner
was_there [] part d d' e = (delete_last part d d' e).0
was_there (next ∷ parts) part d d' e =
    let (inner, inner', here, q, s) = delete-Inner next parts part d d' e in
    λ n. was_there parts next inner inner' q (sym (inner_at next parts part d inner here) ∙ n)

delete-gone :
    (parts : List String) (part : String) (d d' : Fields)
    → delete parts part d ≡ ok d'
    → at parts part d' ≡ none
unfolding at Inner
delete-gone [] part d d' e = ap (get part) (delete_last part d d' e).1 ∙ get-remove_same part d
delete-gone (next ∷ parts) part d d' e =
    let (inner, inner', here, q, s) = delete-Inner next parts part d d' e in
    set_inner_at next parts part d d' inner' s ∙ delete-gone parts next inner inner' q

removed_other_at :
    (parts : List String) (part other : String) (d : Fields)
    → other ≢ part
    → at parts other (remove part d) ≡ at parts other d
unfolding at
removed_other_at [] part other d differ = get-remove_other other part d differ
removed_other_at (next ∷ parts) part other d differ =
    rw (get-remove_other other part d differ, at) refl

delete-elsewhere :
    (parts : List String) (part : String) (d d' : Fields)
    → delete parts part d ≡ ok d'
    → (others : List String) (other : String) → Diverges parts part others other
    → at others other d' ≡ at others other d
unfolding Inner
delete-elsewhere [] part d d' e others other (now_differs n) =
    ap (at others other) (delete_last part d d' e).1 ∙ removed_other_at others part other d n
delete-elsewhere (next ∷ parts) part d d' e others other (now_differs n) =
    let (inner, inner', here, q, s) = delete-Inner next parts part d d' e in
    ap (at others other) s ∙ other_at others part other (obj inner') d n
delete-elsewhere (next ∷ parts) part d d' e (other ∷ others) _ (later v) =
    let (inner, inner', here, q, s) = delete-Inner next parts part d d' e in
    set_inner_at other others part d d' inner' s
    ∙ delete-elsewhere parts next inner inner' q others other v
    ∙ sym (inner_at other others part d inner here)

-- A patch that removes a path, and returns, removes a value that was there, and leaves on
-- every path that parts from it the value, or the absence, that was there.
pub delete_effect :
    (parts : List String) (part : String) (d d' : Fields)
    → delete parts part d ≡ ok d'
    → (at parts part d ≢ none)
      × (at parts part d' ≡ none)
      × ((others : List String) (other : String)
          → Diverges parts part others other
          → at others other d' ≡ at others other d)
delete_effect parts part d d' e =
    (was_there parts part d d' e, delete-gone parts part d d' e, delete-elsewhere parts part d d' e)
