-- ===== src/Admission/Patches.antt =====
-- What a patch of src/admission.py does to a spec.
use no8s_operator.Base.{
  String, ◌≡◌, ◌≢◌, refl, sym, ap, ◌∙◌, Option, none, some, List, [], ◌∷◌, arith, string_eq,
}
use no8s_operator.Base.Result.{Result, ok, err, ok-injective}
use no8s_operator.Json.{Value, Fields, null, bool, num, str, arr, obj, get, set}
use no8s_operator.Json.Laws.{get-set_same, get-set_other}
use no8s_operator.Admission.{put, rebuilt}

-- The value at a path, through dicts only.
unfoldable pub at : List String → String → Fields → Option Value
at [] part d = get part d
at (next ∷ parts) part d = elim (get part d) [
  | none ↦ none
  | some (obj inner) ↦ at parts next inner
  | some _ ↦ none
]

-- An update below a part that returned has gone through a dict there.
unfoldable pub Inner : (Fields → Result Fields) → String → Fields → Fields → Type 0
Inner f part d d' =
    (inner : Fields) × (inner' : Fields) × (get part d ≡ some (obj inner))
    × (f inner ≡ ok inner')
    × (d' ≡ set part (obj inner') d)

pub rebuilt-Inner :
    (f : Fields → Result Fields) (part : String) (d d' inner : Fields)
    → get part d ≡ some (obj inner)
    → rebuilt part d (f inner) ≡ ok d'
    → Inner f part d d'
unfolding Inner
rebuilt-Inner f part d d' inner here e = go (f inner) refl e
  where
    go : (x : Result Fields) → f inner ≡ x → rebuilt part d x ≡ ok d' → Inner f part d d'
    go (ok inner') q e = (inner, inner', here, q, sym (ok-injective e))
    go (err x) q e = absurd (ground arith)

put-Inner :
    (next : String) (parts : List String) (part : String) (value : Value) (d d' : Fields)
    → put (next ∷ parts) part value d ≡ ok d'
    → Inner (put parts next value) part d d'
unfolding put
put-Inner next parts part value d d' = go (get part d) refl
  where
    go :
        (o : Option Value)
        → get part d ≡ o
        → put (next ∷ parts) part value d ≡ ok d'
        → Inner (put parts next value) part d d'
    go none q = rw (q, put) (λ e. absurd (ground arith))
    go (some (obj inner)) q =
        rw (q, put) (λ e. rebuilt-Inner (put parts next value) part d d' inner q e)
    go (some null) q = rw (q, put) (λ e. absurd (ground arith))
    go (some (bool b)) q = rw (q, put) (λ e. absurd (ground arith))
    go (some (num n)) q = rw (q, put) (λ e. absurd (ground arith))
    go (some (str s)) q = rw (q, put) (λ e. absurd (ground arith))
    go (some (arr vs)) q = rw (q, put) (λ e. absurd (ground arith))

pub inner_at :
    (next : String) (parts : List String) (part : String) (d inner : Fields)
    → get part d ≡ some (obj inner)
    → at (next ∷ parts) part d ≡ at parts next inner
unfolding at
inner_at next parts part d inner e = rw (e, at) refl

-- The inner dict after an update below it.
pub set_inner_at :
    (next : String) (parts : List String) (part : String) (d d' inner : Fields)
    → d' ≡ set part (obj inner) d
    → at (next ∷ parts) part d' ≡ at parts next inner
set_inner_at next parts part d d' inner e =
    inner_at next parts part d' inner (ap (get part) e ∙ get-set_same part (obj inner) d)

-- Another part of the outer dict.
pub other_at :
    (parts : List String) (part other : String) (v : Value) (d : Fields)
    → other ≢ part
    → at parts other (set part v d) ≡ at parts other d
unfolding at
other_at [] part other v d differ = get-set_other other part v d differ
other_at (next ∷ parts) part other v d differ = rw (get-set_other other part v d differ, at) refl

put-found :
    (parts : List String) (part : String) (value : Value) (d d' : Fields)
    → put parts part value d ≡ ok d'
    → at parts part d' ≡ some value
unfolding put at Inner
put-found [] part value d d' e = ap (get part) (sym (ok-injective e)) ∙ get-set_same part value d
put-found (next ∷ parts) part value d d' e =
    let (inner, inner', here, q, s) = put-Inner next parts part value d d' e in
    set_inner_at next parts part d d' inner' s ∙ put-found parts next value inner inner' q

-- Two paths that part ways before either ends.
pub data Diverges : List String → String → List String → String → Type 0 where
  now_differs : {ps qs : List String} {p q : String} → q ≢ p → Diverges ps p qs q
  later :
      {ps qs : List String} {p q r : String} → Diverges ps p qs q → Diverges (p ∷ ps) r (q ∷ qs) r

put-elsewhere :
    (parts : List String) (part : String) (value : Value) (d d' : Fields)
    → put parts part value d ≡ ok d'
    → (others : List String) (other : String) → Diverges parts part others other
    → at others other d' ≡ at others other d
unfolding put Inner
put-elsewhere [] part value d d' e others other (now_differs n) =
    ap (at others other) (sym (ok-injective e)) ∙ other_at others part other value d n
put-elsewhere (next ∷ parts) part value d d' e others other (now_differs n) =
    let (inner, inner', here, q, s) = put-Inner next parts part value d d' e in
    ap (at others other) s ∙ other_at others part other (obj inner') d n
put-elsewhere (next ∷ parts) part value d d' e (other ∷ others) _ (later v) =
    let (inner, inner', here, q, s) = put-Inner next parts part value d d' e in
    set_inner_at other others part d d' inner' s
    ∙ put-elsewhere parts next value inner inner' q others other v
    ∙ sym (inner_at other others part d inner here)

-- A patch that adds or replaces the value at a path, and returns, leaves exactly that value
-- there, and on every path that parts from it the value, or the absence, that was there.
pub put_effect :
    (parts : List String) (part : String) (value : Value) (d d' : Fields)
    → put parts part value d ≡ ok d'
    → (at parts part d' ≡ some value)
      × ((others : List String) (other : String)
          → Diverges parts part others other
          → at others other d' ≡ at others other d)
put_effect parts part value d d' e =
    (put-found parts part value d d' e, put-elsewhere parts part value d d' e)
