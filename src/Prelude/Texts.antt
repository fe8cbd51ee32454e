-- ===== src/Prelude/Texts.antt =====
-- Texts that template literals and `encodeURIComponent` build.
use Prim.Native.Nat.{ℕ, zero, suc, ◌+◌, ◌/◌, ◌%◌}
use Prim.Native.Char.{code}
use Prim.Native.String
use Prim.Native.String.{String}
use mathlib.Core.Bool.{Bool, ◌&&◌, ◌||◌}
use mathlib.Core.List.{List, [], ◌∷◌}
use vicoop_bridge.Prelude.Tests.{ltb, leb, if◌then◌else◌}

infixr 66 ◌⧺◌
-- Concatenation of texts.
abbrev pub ◌⧺◌ : String → String → String
s ⧺ t = String.◌++◌ s t

nth : List String → ℕ → String
nth [] n = ""
nth (s ∷ rest) zero = s
nth (s ∷ rest) (suc n) = nth rest n

digit : ℕ → String
unfolding nth
digit = nth (
    "0" ∷ "1" ∷ "2" ∷ "3" ∷ "4" ∷ "5" ∷ "6" ∷ "7" ∷ "8" ∷ "9" ∷ "A" ∷ "B" ∷ "C" ∷ "D" ∷ "E" ∷ "F"
    ∷ [])

decimal_from : ℕ → ℕ → String
unfolding digit
decimal_from zero n = ""
decimal_from (suc fuel) n =
    let more = decimal_from fuel (n / 10) in
    if ltb n 10 then digit n else String.◌++◌ more (digit (n % 10))

-- `${n}`: a number has no more digits than its value plus one.
unfoldable pub decimal : ℕ → String
unfolding decimal_from
decimal n = decimal_from (suc n) n

-- `A-Z a-z 0-9 - _ . ! ~ * ' ( )`
is_unreserved : ℕ → Bool
is_unreserved c =
    (leb b'A' c && leb c b'Z')
    || (leb b'a' c && leb c b'z')
    || (leb b'0' c && leb c b'9')
    || (leb 39 c && leb c 42)
    || leb 45 c && leb c 46
    || leb 33 c && leb c 33
    || leb 95 c && leb c 95
    || leb 126 c && leb c 126

percent : ℕ → String
unfolding digit
percent byte = "%" ⧺ digit (byte / 16) ⧺ digit (byte % 16)

-- The bytes of UTF-8, each as `%XX`.
escape : ℕ → String
unfolding percent
escape c =
    if ltb c 128
    then percent c
    else (if ltb c 2048
        then percent (192 + c / 64) ⧺ percent (128 + c % 64)
        else (if ltb c 65536
            then percent (224 + c / 4096) ⧺ percent (128 + c / 64 % 64) ⧺ percent (128 + c % 64)
            else percent (240 + c / 262144)
              ⧺ percent (128 + c / 4096 % 64)
              ⧺ percent (128 + c / 64 % 64)
              ⧺ percent (128 + c % 64)))

unfoldable pub encode_uri_component : String → String
unfolding is_unreserved escape
encode_uri_component String.[] = ""
encode_uri_component (String.◌∷◌ c rest) =
    let first = if is_unreserved (code c) then String.◌∷◌ c String.[] else escape (code c) in
    String.◌++◌ first (encode_uri_component rest)
