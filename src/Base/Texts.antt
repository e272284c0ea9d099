-- ===== src/Base/Texts.antt =====
-- Texts as the lists of their code points, for the tests that look inside a string.
use Prim.Native.Nat.{ℕ, zero, suc}
use Prim.Native.Char.{code}
use Prim.Native.String.{String}
use mathlib.Core.Bool.{Bool, true, false, ◌&&◌}
use mathlib.Core.List.{List, [], ◌∷◌, reverse}
use misra_c_agent.Base.Tests.{nat_beq}

abbrev pub codes : String → List ℕ
codes String.[] = []
codes (String.◌∷◌ c s) = code c ∷ codes s

abbrev pub codes_beq : List ℕ → List ℕ → Bool
codes_beq [] [] = true
codes_beq (x ∷ xs) (y ∷ ys) = nat_beq x y && codes_beq xs ys
codes_beq _ _ = false

abbrev pub begins : List ℕ → List ℕ → Bool
begins [] ys = true
begins (x ∷ xs) [] = false
begins (x ∷ xs) (y ∷ ys) = nat_beq x y && begins xs ys

-- `s.startswith(p)` and `s.endswith(p)`
abbrev pub starts_with : String → String → Bool
starts_with p s = begins (codes p) (codes s)

abbrev pub ends_with : String → String → Bool
ends_with p s = begins (reverse (codes p)) (reverse (codes s))

abbrev pub drop : ℕ → List ℕ → List ℕ
drop zero xs = xs
drop (suc n) [] = []
drop (suc n) (x ∷ xs) = drop n xs

-- `s + t`
abbrev pub append_text : String → String → String
append_text String.[] t = t
append_text (String.◌∷◌ c s) t = String.◌∷◌ c (append_text s t)
