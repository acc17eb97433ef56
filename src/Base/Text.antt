-- ===== src/Base/Text.antt =====
-- The methods of Python's `str` that the program calls, over code points.
use Prim.Native.Nat.{ℕ, zero, suc, ◌+◌, ◌/◌, ◌%◌}
use Prim.Native.Char.{Char, code}
use Prim.Native.String
use Prim.Native.String.{String, [], ◌∷◌}
use mathlib.Core.Path.{◌≡◌, refl}
use mathlib.Core.Logic.{inl, inr}
use mathlib.Core.Bool.{Bool, false, not, ◌&&◌, ◌||◌}
use mathlib.Core.List.{List, [], ◌∷◌}
use native.Mathlib.Omega.{arith}
use text.Mathlib.Text.{◌==◌, starts_with}
use masterportal_admin.Base.Tests.{leb, eqb, if◌then◌else◌, Bool-cases}

-- An f-string, or `"".join(parts)`.
abbrev pub concat : List String → String
concat [] = ""
concat (s ∷ rest) = String.◌++◌ s (concat rest)

-- `c in s`, for one character.
unfoldable pub has_char : ℕ → String → Bool
has_char c [] = false
has_char c (d ∷ s) = eqb (code d) c || has_char c s

-- `p in s`
unfoldable pub has_text : String → String → Bool
has_text p [] = p == ""
has_text p (c ∷ s) = let rest = has_text p s in starts_with (c ∷ s) p || rest

abbrev cons_head : Char → List String → List String
cons_head d [] = (d ∷ "") ∷ []
cons_head d (w ∷ ws) = (d ∷ w) ∷ ws

-- `s.split(c)`, for one character.
unfoldable pub split : ℕ → String → List String
split c [] = "" ∷ []
split c (d ∷ s) = let rest = split c s in if eqb (code d) c then "" ∷ rest else cons_head d rest

-- `s.split(c)[0]`
unfoldable pub before : ℕ → String → String
before c [] = ""
before c (d ∷ s) = let rest = before c s in if eqb (code d) c then "" else d ∷ rest

-- Unicode's white space, as `str.isspace` tells it.
unfoldable pub is_space : ℕ → Bool
is_space c =
    leb 9 c && leb c 13
    || leb 28 c && leb c 32
    || eqb c 0x85
    || eqb c 0xa0
    || eqb c 0x1680
    || leb 0x2000 c && leb c 0x200a
    || eqb c 0x2028
    || eqb c 0x2029
    || eqb c 0x202f
    || eqb c 0x205f
    || eqb c 0x3000

-- `s.lstrip()` and `s.rstrip()` for the characters that `p` tells.
unfoldable pub strip_left : (ℕ → Bool) → String → String
strip_left p [] = ""
strip_left p (d ∷ s) = let rest = strip_left p s in if p (code d) then rest else d ∷ s

abbrev pub drop_end : (ℕ → Bool) → Char → String → String
drop_end p d [] = if p (code d) then "" else d ∷ ""
drop_end p d (e ∷ s) = d ∷ e ∷ s

unfoldable pub strip_right : (ℕ → Bool) → String → String
strip_right p [] = ""
strip_right p (d ∷ s) = drop_end p d (strip_right p s)

-- `s.strip()`
unfoldable pub strip : String → String
unfolding strip_left strip_right is_space
strip s = strip_right is_space (strip_left is_space s)

-- `s.startswith(("http://", "https://"))`
abbrev pub is_http : String → Bool
is_http s = starts_with s "http://" || starts_with s "https://"

-- `bool(s)`
abbrev pub truthy : String → Bool
truthy s = not (s == "")

abbrev digit : ℕ → String
digit zero = "0"
digit (suc zero) = "1"
digit (suc (suc zero)) = "2"
digit (suc (suc (suc zero))) = "3"
digit (suc (suc (suc (suc zero)))) = "4"
digit (suc (suc (suc (suc (suc zero))))) = "5"
digit (suc (suc (suc (suc (suc (suc zero)))))) = "6"
digit (suc (suc (suc (suc (suc (suc (suc zero))))))) = "7"
digit (suc (suc (suc (suc (suc (suc (suc (suc zero)))))))) = "8"
digit _ = "9"

-- The last digits of a number before a text, at most as many as the fuel.
decimal_from : ℕ → ℕ → String → String
decimal_from zero n rest = rest
decimal_from (suc f) n rest =
    let shown = String.◌++◌ (digit (n % 10)) rest in
    let more = decimal_from f (n / 10) shown in if eqb (n / 10) 0 then shown else more

-- `str(n)`: a number has at most as many digits as itself, or one.
unfoldable pub decimal : ℕ → String
unfolding decimal_from
decimal n = decimal_from (n + 1) n ""

split_parts : split b'/' "/a//b" ≡ "" ∷ "a" ∷ "" ∷ "b" ∷ []
unfolding split
split_parts = refl

stripped : strip " a b\t" ≡ "a b"
unfolding strip
stripped = refl

decimals : concat (decimal 0 ∷ "," ∷ decimal 10 ∷ "," ∷ decimal 8712 ∷ []) ≡ "0,10,8712"
unfolding decimal
decimals = refl

-- `s.split(c)` is never empty, and its first part is `before c s`.
pub split-before : (c : ℕ) (s : String) → (rest : List String) × (split c s ≡ before c s ∷ rest)
unfolding split before
split-before c [] = ([], refl)
split-before c (d ∷ s) =
    let (rest, e) = split-before c s in
    elim (Bool-cases (eqb (code d) c)) [
      | inl h ↦ (split c s, rw h refl)
      | inr h ↦ (rest, rw h (rw e refl))
    ]

-- A text without `c` is one part.
pub before_free : (c : ℕ) (s : String) → has_char c s ≡ false → before c s ≡ s
unfolding before has_char
before_free c [] h = refl
before_free c (d ∷ s) h = ground (arith, before_free c s)

pub has_char-before : (c : ℕ) (s : String) → has_char c (before c s) ≡ false
unfolding before has_char
has_char-before c [] = refl
has_char-before c (d ∷ s) = elim (Bool-cases (eqb (code d) c)) [
  | inl h ↦ rw h refl
  | inr h ↦ rw h (rw h (has_char-before c s))
]
