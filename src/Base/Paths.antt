-- ===== src/Base/Paths.antt =====
-- The string methods with which Python code takes a path apart.
use Prim.Native.Char.{Char, code}
use Prim.Native.Nat.{ℕ}
use Prim.Native.String.{String, len, slice}
use mathlib.Core.Bool.{Bool}
use mathlib.Core.List.{List, [], ◌∷◌}
use text.Mathlib.Text
use no8s_operator.Base.Tests.{◌==◌, if◌then◌else◌, nat_eq}

-- `s[n:]` where `n` is the length of a prefix of `s`
abbrev pub after_prefix : String → String → String
after_prefix prefix s = slice s (len prefix) (len s)

abbrev pub starts_with : String → String → Bool
starts_with s prefix = Text.starts_with s prefix

abbrev pub join_char : Char → List String → List String
join_char c [] = String.◌∷◌ c "" ∷ []
join_char c (p ∷ ps) = String.◌∷◌ c p ∷ ps

-- `s.split("/")`; the slash is character 47.
abbrev pub split_slash : String → List String
split_slash String.[] = "" ∷ []
split_slash (String.◌∷◌ c s) =
    let rest = split_slash s in if code c == 47 then "" ∷ rest else join_char c rest

-- The code points of a text.
abbrev pub codes : String → List ℕ
codes String.[] = []
codes (String.◌∷◌ c s) = code c ∷ codes s
