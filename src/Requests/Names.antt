-- ===== src/Requests/Names.antt =====
-- Which names `validate_name_format` of src/api_models.py accepts.
use mathlib.Core.List.{append_assoc}
use mathlib.Core.Path.{subst}
use no8s_operator.Base.{
  ℕ, zero, suc, ◌≤◌, ◌≡◌, refl, sym, ap, ◌∙◌, ◌↔◌, ◌⊎◌, inl, inr, true, false, ◌&&◌, String, List,
  [], ◌∷◌, ◌++◌, arith, nat_eq, string_eq, length, length-append, All, Bool-cases,
}
use no8s_operator.Base.Paths.{codes}
use no8s_operator.Base.Result.{ok}
use no8s_operator.Requests.{
  is_end_char, is_inner_char, at_end, match_rest, match_name, validate_name_format,
}

-- The end of a text: nothing more, or one line feed.
abbrev pub EndsLine : List ℕ → Type 0
EndsLine s = (s ≡ []) ⊎ (s ≡ 10 ∷ [])

at_end-EndsLine : (s : List ℕ) → at_end s ≡ true → EndsLine s
at_end-EndsLine [] h = inl refl
at_end-EndsLine (c ∷ []) h = inr (ground arith)
at_end-EndsLine (c ∷ d ∷ s) h = absurd (ground arith)

EndsLine-at_end : (s : List ℕ) → EndsLine s → at_end s ≡ true
EndsLine-at_end s (inl e) = ap at_end e
EndsLine-at_end s (inr e) = ap at_end e ∙ ground arith

abbrev IsInner : ℕ → Type 0
IsInner c = is_inner_char c ≡ true

-- What `match_rest n` looks for.
abbrev Body : ℕ → List ℕ → Type 0
Body n s =
    (front : List ℕ) × (z : ℕ) × (last : List ℕ) × (s ≡ front ++ z ∷ last)
    × All IsInner front
    × (is_end_char z ≡ true)
    × EndsLine last
    × (length front ≤ n)

match_rest-Body : (n : ℕ) (s : List ℕ) → match_rest n s ≡ true → Body n s
unfolding match_rest
match_rest-Body n [] h = absurd (ground arith)
match_rest-Body zero (c ∷ s) h =
    ([], c, s, refl, tt, ground arith, at_end-EndsLine s (ground arith), ground arith)
match_rest-Body (suc n) (c ∷ s) h = elim (Bool-cases (is_end_char c && at_end s)) [
  | inl y ↦ ([], c, s, refl, tt, ground arith, at_end-EndsLine s (ground arith), ground arith)
  | inr miss ↦
      let (front, z, last, e, inner, end, ends, le) = match_rest-Body n s (ground arith) in
      (
        c ∷ front,
        z,
        last,
        ap (◌∷◌ c) {y = front ++ z ∷ last} e,
        (ground arith, inner),
        end,
        ends,
        ground arith,
      )
]

Body-match_rest :
    (n : ℕ) (front : List ℕ) (z : ℕ) (last : List ℕ)
    → All IsInner front
    → is_end_char z ≡ true
    → EndsLine last
    → length front ≤ n
    → match_rest n (front ++ z ∷ last) ≡ true
unfolding match_rest
Body-match_rest zero [] z last inner end ends le = ground (arith, EndsLine-at_end last ends)
Body-match_rest (suc n) [] z last inner end ends le = ground (arith, EndsLine-at_end last ends)
Body-match_rest zero (c ∷ front) z last inner end ends le = absurd (ground arith)
Body-match_rest (suc n) (c ∷ front) z last inner end ends le =
    ground (arith, Body-match_rest n front z last inner.1 end ends (ground arith), inner.0)

-- Kubernetes' rule: lower case letters, digits and `-`, the first and the last of them no `-`.
abbrev pub IsName : List ℕ → Type 0
IsName body =
    All (λ c. is_inner_char c ≡ true) body
    × ((c : ℕ) × (rest : List ℕ) × (body ≡ c ∷ rest) × (is_end_char c ≡ true))
    × ((front : List ℕ) × (z : ℕ) × (body ≡ front ++ z ∷ []) × (is_end_char z ≡ true))

-- A name with the end of a text behind it, of 63 characters in all.
abbrev pub IsAccepted : List ℕ → Type 0
IsAccepted s =
    ((body : List ℕ) × (last : List ℕ) × (s ≡ body ++ last) × EndsLine last × IsName body)
    × (length s ≤ 63)

All-append-snoc :
    (front : List ℕ) (z : ℕ)
    → All IsInner front
    → is_end_char z ≡ true
    → All IsInner (front ++ z ∷ [])
All-append-snoc [] z h e = (ground arith, tt)
All-append-snoc (c ∷ front) z h e = (h.0, All-append-snoc front z h.1 e)

All-front : (front : List ℕ) (z : ℕ) → All IsInner (front ++ z ∷ []) → All IsInner front
All-front [] z h = tt
All-front (c ∷ front) z h = (h.0, All-front front z h.1)

match_name-IsAccepted : (s : List ℕ) → length s ≤ 63 → match_name s ≡ true → IsAccepted s
unfolding match_name
match_name-IsAccepted [] le h = absurd (ground arith)
match_name-IsAccepted (c ∷ s) le h = elim (Bool-cases (match_rest 61 s)) [
  | inl y ↦
      let (front, z, last, e, inner, end, ends, _) = match_rest-Body 61 s y in
      let first : is_end_char c ≡ true = ground arith in
      (
        (
          c ∷ front ++ z ∷ [],
          last,
          ap (◌∷◌ c) (e ∙ sym (append_assoc front (z ∷ []) last)),
          ends,
          (
            (ground arith, All-append-snoc front z inner end),
            (c, front ++ z ∷ [], refl, first),
            (c ∷ front, z, refl, end),
          ),
        ),
        le,
      )
  | inr n ↦
      let first : is_end_char c ≡ true = ground arith in
      (
        (
          c ∷ [],
          s,
          refl,
          at_end-EndsLine s (ground arith),
          ((ground arith, tt), (c, [], refl, first), ([], c, refl, first)),
        ),
        le,
      )
]

name-match_name :
    (front : List ℕ) (z c : ℕ) (rest last : List ℕ)
    → All IsInner (front ++ z ∷ [])
    → is_end_char z ≡ true
    → front ++ z ∷ [] ≡ c ∷ rest
    → is_end_char c ≡ true
    → EndsLine last
    → length ((front ++ z ∷ []) ++ last) ≤ 63
    → match_name ((front ++ z ∷ []) ++ last) ≡ true
unfolding match_name
name-match_name [] z c rest last inner end e first ends le =
    ground (arith, EndsLine-at_end last ends)
name-match_name (d ∷ front) z c rest last inner end e first ends le =
    let short : length front ≤ 61 =
      omega (arith, length-append (front ++ z ∷ []) last, length-append front (z ∷ []), le) in
    let found : match_rest 61 ((front ++ z ∷ []) ++ last) ≡ true =
      ap (match_rest 61) (append_assoc front (z ∷ []) last)
      ∙ Body-match_rest 61 front z last (All-front front z inner.1) end ends short in
    ground arith

IsAccepted-match_name : (s : List ℕ) → IsAccepted s → match_name s ≡ true
IsAccepted-match_name s
      ((body, last, e, ends, (inner, (c, rest, e1, first), (front, z, e2, end))), le) =
    let same : s ≡ (front ++ z ∷ []) ++ last = e ∙ ap (λ b. b ++ last) e2 in
    ap match_name same
    ∙ name-match_name front z c rest last (subst (All IsInner) e2 inner) end (sym e2 ∙ e1) first
        ends (subst (λ t. length t ≤ 63) same le)

empty_codes : (value : String) → value ≡ "" → match_name (codes value) ≡ false
unfolding match_name
empty_codes value e = ap (λ v. match_name (codes v)) e

-- A name passes exactly if it is of lower case letters, digits and `-`, begins and ends with no `-`,
-- and has at most 63 characters; but a line feed behind it, counted among these, passes as well.
pub validate_name_format_iff :
    (value : String) → (validate_name_format value ≡ ok value) ↔ IsAccepted (codes value)
unfolding validate_name_format
validate_name_format_iff value = (to, from)
  where
    to : validate_name_format value ≡ ok value → IsAccepted (codes value)
    to h = match_name-IsAccepted (codes value) (ground arith) (ground arith)

    from : IsAccepted (codes value) → validate_name_format value ≡ ok value
    from a = ground (arith, IsAccepted-match_name (codes value) a, empty_codes value, a.1)
