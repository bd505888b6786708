-- ===== src/ClusterStatus/Age.antt =====
-- `_format_age` of src/cluster_status.py, and what can be read back from its text. A text is the list
-- of its code points.
use no8s_operator.Base.{
  ℕ, zero, suc, ◌+◌, ◌-◌, ◌*◌, ◌/◌, ◌%◌, ◌≤◌, ◌<◌, ◌≡◌, ◌∙◌, ap, inl, inr, Bool-cases, arith, not,
  ◌&&◌, List, [], ◌∷◌, ◌==◌, nat_eq, if◌then◌else◌, leb,
}

-- The decimal digits of a positive number, in front of a text; a number is more than its digits.
digits : ℕ → ℕ → List ℕ → List ℕ
digits zero n out = out
digits (suc fuel) n out =
    let more = digits fuel (n / 10) ((48 + n % 10) ∷ out) in if n == 0 then out else more

-- `str(n)`, in front of a text
unfoldable pub decimal : ℕ → List ℕ → List ℕ
unfolding digits
decimal n out = if n == 0 then 48 ∷ out else digits (suc n) n out

-- `{a}{u}{b}{v} if b else {a}{u}`
unfoldable pub two_units : ℕ → ℕ → ℕ → ℕ → List ℕ
two_units a u b v = if b == 0 then decimal a (u ∷ []) else decimal a (u ∷ decimal b (v ∷ []))

-- A difference that is negative counts as no second, as `now - first_seen` on numbers does.
unfoldable pub format_age : ℕ → List ℕ
format_age total_seconds =
    let days = total_seconds / 86_400 in
    let hours = total_seconds % 86_400 / 3_600 in
    let minutes = total_seconds % 86_400 % 3_600 / 60 in
    let seconds = total_seconds % 86_400 % 3_600 % 60 in
    if not (days == 0)
    then two_units days b'd' hours b'h'
    else if not (hours == 0)
    then two_units hours b'h' minutes b'm'
    else if not (minutes == 0)
    then two_units minutes b'm' seconds b's'
    else decimal seconds (b's' ∷ [])

-- The seconds that a unit stands for.
abbrev unit_seconds : ℕ → ℕ
unit_seconds u =
    if u == b'd' then 86_400 else if u == b'h' then 3_600 else if u == b'm' then 60 else 1

-- What a reader makes of a text: digits up to a unit are so many of it, and the units add up.
read_from : List ℕ → ℕ → ℕ → ℕ
read_from [] n total = total
read_from (c ∷ s) n total =
    let digit = leb 48 c && leb c 57 in
    read_from s (if digit then n * 10 + (c - 48) else 0)
      (if digit then total else total + n * unit_seconds c)

pub read_age : List ℕ → ℕ
unfolding read_from
read_age s = read_from s 0 0

read_from-digits :
    (fuel n : ℕ) (out : List ℕ) (total : ℕ)
    → n < fuel
    → read_from (digits fuel n out) 0 total ≡ read_from out n total
unfolding digits read_from
read_from-digits zero n out total h = absurd (omega arith)
read_from-digits (suc fuel) n out total h =
    ground (arith, read_from-digits fuel (n / 10) ((48 + n % 10) ∷ out) total)

read_from-decimal :
    (n : ℕ) (out : List ℕ) (total : ℕ) → read_from (decimal n out) 0 total ≡ read_from out n total
unfolding decimal read_from
read_from-decimal n out total = ground (arith, read_from-digits (suc n) n out total)

-- The unit down to which an age is written.
abbrev pub precision : ℕ → ℕ
precision d = if leb 86_400 d then 3_600 else if leb 3_600 d then 60 else 1

read_from-unit :
    (u n total : ℕ) (out : List ℕ)
    → 57 < u
    → read_from (u ∷ out) n total ≡ read_from out 0 (total + n * unit_seconds u)
unfolding read_from
read_from-unit u n total out h = ground arith

no_total : (n : ℕ) → 0 + n ≡ n
no_total n = omega arith

no_second : (n b k : ℕ) → b ≡ 0 → n ≡ n + b * k
no_second n b k z = rw z (omega arith)

read_age-decimal : (n u : ℕ) → 57 < u → read_age (decimal n (u ∷ [])) ≡ n * unit_seconds u
unfolding read_age read_from
read_age-decimal n u h =
    read_from-decimal n (u ∷ []) 0 ∙ read_from-unit u n 0 [] h ∙ no_total (n * unit_seconds u)

read_age-both :
    (a u b v : ℕ)
    → 57 < u
    → 57 < v
    → read_age (decimal a (u ∷ decimal b (v ∷ []))) ≡ a * unit_seconds u + b * unit_seconds v
unfolding read_age read_from
read_age-both a u b v p q =
    read_from-decimal a (u ∷ decimal b (v ∷ [])) 0
    ∙ read_from-unit u a 0 (decimal b (v ∷ [])) p
    ∙ read_from-decimal b (v ∷ []) (0 + a * unit_seconds u)
    ∙ read_from-unit v b (0 + a * unit_seconds u) [] q
    ∙ ap (λ t. t + b * unit_seconds v) (no_total (a * unit_seconds u))

read_age-two_units :
    (a u b v : ℕ)
    → 57 < u
    → 57 < v
    → read_age (two_units a u b v) ≡ a * unit_seconds u + b * unit_seconds v
unfolding two_units
read_age-two_units a u b v p q = elim (Bool-cases (b == 0)) [
  | inl z ↦
      rw z
        (read_age-decimal a u p ∙ no_second (a * unit_seconds u) b (unit_seconds v) (ground arith))
  | inr more ↦ rw more (read_age-both a u b v p q)
]

-- The text read back is the age rounded down: to the hour from one day on, to the minute from one hour
-- on, and not at all below.
pub read_age-format_age :
    (d : ℕ) → (read_age (format_age d) ≤ d) × (d < read_age (format_age d) + precision d)
unfolding format_age
read_age-format_age d =
    let days = d / 86_400 in
    let hours = d % 86_400 / 3_600 in
    let minutes = d % 86_400 % 3_600 / 60 in
    let seconds = d % 86_400 % 3_600 % 60 in
    ground (
      arith,
      read_age-two_units days b'd' hours b'h' (omega arith) (omega arith),
      read_age-two_units hours b'h' minutes b'm' (omega arith) (omega arith),
      read_age-two_units minutes b'm' seconds b's' (omega arith) (omega arith),
      read_age-decimal seconds b's' (omega arith),
    )
