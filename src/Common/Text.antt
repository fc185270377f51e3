-- ===== src/Common/Text.antt =====
-- Texts as lists of bytes: literals, and the searches of `std::string` that the code uses.
use Prim.Native.Char.{code}
use Prim.Native.String.{String}
use Prim.Native.Nat.{ℕ, suc}
use mathlib.Core.Bool.{Bool, true, false, ◌&&◌}
use mathlib.Core.Option.{Option, none, some}
use mathlib.Core.List.{List, [], ◌∷◌}
use cpp_meet.Common.Lists.{drop}
use cpp_meet.Common.Tests.{if◌then◌else◌, ◌==◌}

-- The bytes of a text literal.
abbrev pub codes : String → List ℕ
codes String.[] = []
codes (String.◌∷◌ c s) = code c ∷ codes s

-- `text.rfind(s, 0) == 0`
unfoldable pub starts_with : List ℕ → List ℕ → Bool
starts_with [] ys = true
starts_with (x ∷ xs) [] = false
starts_with (x ∷ xs) (y ∷ ys) = x == y && starts_with xs ys

-- The first index from `i` on at which the text stands, `i` being the index of the first byte given.
unfoldable pub search : List ℕ → ℕ → List ℕ → Option ℕ
search s i [] = if starts_with s [] then some i else none
search s i (b ∷ bs) =
    let later = search s (suc i) bs in if starts_with s (b ∷ bs) then some i else later

-- `std::string::find`
abbrev pub find : List ℕ → List ℕ → ℕ → Option ℕ
find s text pos = search s pos (drop pos text)
