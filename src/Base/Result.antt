-- ===== src/Base/Result.antt =====
-- Python exceptions as values. A method that reads and writes the state `S` and may raise is an
-- action: what was written before a raise stays written, so the state comes back with the error.
use Prim.Native.Nat.{ℕ}
use Prim.Native.String.{String}
use mathlib.Core.Path.{◌≡◌, refl, ap}
use native.Mathlib.Omega.{arith}
use mathlib.Core.Bool.{Bool, true, false}

pub data Error : Type 0 where
  -- constraint violations reported by PostgreSQL, with the column or constraint
  unique_violation not_null_violation foreign_key_violation : String → Error
  -- ValueError, RuntimeError, TypeError, AttributeError, KeyError of the code itself
  value_error runtime_error type_error attribute_error key_error : String → Error
  -- AdmissionError
  admission_error : String → Error
  -- HTTPException
  http : ℕ → String → Error
  -- whatever a plugin or a remote endpoint raises
  external : String → Error

pub data Result {ℓ} (A : Type ℓ) : Type ℓ where
  ok : A → Result A
  err : Error → Result A

abbrev pub is_ok {ℓ} : {A : Type ℓ} → Result A → Bool
is_ok (ok a) = true
is_ok (err e) = false

abbrev pub Action : Type 0 → Type 0 → Type 0
Action S A = S → Result A × S

module _ {S A : Type 0} where
  abbrev pub pure : A → Action S A
  pure a s = (ok a, s)

  abbrev pub raise : Error → Action S A
  raise e s = (err e, s)

  abbrev pub lift : Result A → Action S A
  lift r s = (r, s)

  abbrev pub gets : (S → A) → Action S A
  gets f s = (ok (f s), s)

infixl 5 ◌>>=◌ ◌>>◌
abbrev pub ◌>>=◌ : {S A B : Type 0} → Action S A → (A → Action S B) → Action S B
◌>>=◌ m f s = let (r, s') = m s in elim r [ ok a ↦ f a s' | err e ↦ raise e s' ]

abbrev pub ◌>>◌ : {S A B : Type 0} → Action S A → Action S B → Action S B
m >> k = m >>= λ _. k

abbrev pub modify : {S : Type 0} → (S → S) → Action S (Unit {0})
modify f s = (ok tt, f s)

abbrev pub raise_if : {S : Type 0} → Bool → Error → Action S (Unit {0})
raise_if true e s = (err e, s)
raise_if false e s = (ok tt, s)

-- A call whose exception ends the caller too.
abbrev pub and_then : {A B : Type 0} → Result A → (A → Result B) → Result B
and_then (err e) next = err e
and_then (ok a) next = next a

pub returned-and_then :
    {A B : Type 0} (x : Result A) (next : A → Result B) (b : B)
    → and_then x next ≡ ok b
    → (a : A) × (x ≡ ok a) × (next a ≡ ok b)
returned-and_then (ok a) next b e = (a, refl, e)
returned-and_then (err x) next b e = absurd (ground arith)

abbrev value_or {ℓ} : {A : Type ℓ} → A → Result A → A
value_or d (ok a) = a
value_or d (err e) = d

pub ok-injective {ℓ} : {A : Type ℓ} {a b : A} → ok a ≡ ok b → a ≡ b
ok-injective {a = a} e = ap (value_or a) e

abbrev pub by_answer : {S A B : Type 0} → (A → Action S B) → Result A × S → Result B × S
by_answer f (r, s) = elim r [ ok a ↦ f a s | err e ↦ (err e, s) ]

-- What returned as a whole returned at each step.
pub returned-bind :
    {S A B : Type 0} (m : Action S A) (f : A → Action S B) (s s' : S) (b : B)
    → (m >>= f) s ≡ (ok b, s')
    → (a : A) × (t : S) × (m s ≡ (ok a, t)) × (f a t ≡ (ok b, s'))
returned-bind m f s s' b e = go (m s) refl e
  where
    go :
        (x : Result _ × _)
        → m s ≡ x
        → by_answer f x ≡ (ok b, s')
        → (a : _) × (t : _) × (m s ≡ (ok a, t)) × (f a t ≡ (ok b, s'))
    go (ok a, t) q e = (a, t, q, e)
    go (err x, t) q e = absurd (ground arith)
