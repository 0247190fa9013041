-- ===== src/Common/Texts.antt =====
-- Texts as Python reads them: the truth of an optional text, and the characters of one.
use Prim.Native.Nat.{ℕ, zero, suc}
use Prim.Native.Char.{code}
use Prim.Native.String.{String}
use mathlib.Core.Bool.{Bool, true, false}
use mathlib.Core.Option.{Option, none, some}
use mathlib.Core.List.{List, [], ◌∷◌}
use ibvap.Common.Tests.{◌==◌, if◌then◌else◌}

-- What a truth test keeps of an optional text: an empty one counts as absent.
abbrev pub present : Option String → Option String
present none = none
present (some String.[]) = none
present (some (String.◌∷◌ c s)) = some (String.◌∷◌ c s)

-- The truth of a text.
abbrev pub is_text : String → Bool
is_text String.[] = false
is_text (String.◌∷◌ c s) = true

-- `t or ""` and `a or b`
abbrev pub or_empty : Option String → String
or_empty none = ""
or_empty (some t) = t

abbrev pub or_else : String → String → String
or_else String.[] d = d
or_else (String.◌∷◌ c s) d = String.◌∷◌ c s

-- The code points of a text.
abbrev pub codes : String → List ℕ
codes String.[] = []
codes (String.◌∷◌ c s) = code c ∷ codes s

-- `t.split(c)[0]` on code points.
abbrev pub before : ℕ → List ℕ → List ℕ
before c [] = []
before c (x ∷ xs) = if x == c then [] else x ∷ before c xs

-- `t[n:]`
abbrev pub drop_chars : ℕ → String → String
drop_chars zero t = t
drop_chars (suc n) String.[] = String.[]
drop_chars (suc n) (String.◌∷◌ c s) = drop_chars n s
