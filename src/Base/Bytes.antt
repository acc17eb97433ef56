-- ===== src/Base/Bytes.antt =====
-- Python's `bytes`: UTF-8, base64 and the percent encoding of `urllib.parse.quote`.
use Prim.Native.Nat.{ℕ, zero, suc, ◌+◌, ◌*◌, ◌/◌, ◌%◌}
use Prim.Native.Char.{code}
use Prim.Native.String
use Prim.Native.String.{String}
use mathlib.Core.Path.{◌≡◌, refl}
use mathlib.Core.Bool.{Bool, ◌&&◌, ◌||◌}
use mathlib.Core.List.{List, [], ◌∷◌, ◌++◌}
use masterportal_admin.Base.Tests.{leb, ltb, eqb, if◌then◌else◌}
use masterportal_admin.Base.Text.{concat}

-- The UTF-8 form of a code point.
unfoldable pub utf8 : ℕ → List ℕ
utf8 c =
    if ltb c 0x80
    then c ∷ []
    else if ltb c 0x800
    then (0xc0 + c / 64) ∷ (0x80 + c % 64) ∷ []
    else if ltb c 0x10000
    then (0xe0 + c / 4096) ∷ (0x80 + c / 64 % 64) ∷ (0x80 + c % 64) ∷ []
    else (0xf0 + c / 262144) ∷ (0x80 + c / 4096 % 64) ∷ (0x80 + c / 64 % 64) ∷ (0x80 + c % 64) ∷ []

-- `s.encode()`
unfoldable pub encode : String → List ℕ
unfolding utf8
encode String.[] = []
encode (String.◌∷◌ c s) = utf8 (code c) ++ encode s

unfoldable pub pick : ℕ → String → String
pick n String.[] = ""
pick zero (String.◌∷◌ c s) = String.◌∷◌ c ""
pick (suc n) (String.◌∷◌ c s) = pick n s

pub digit64 : ℕ → String
unfolding pick
digit64 n = pick n "ABCDEFGHIJKLMNOPQRSTUVWXYZabcdefghijklmnopqrstuvwxyz0123456789+/"

-- `base64.b64encode(b).decode()`
unfoldable pub base64 : List ℕ → String
unfolding digit64
base64 [] = ""
base64 (a ∷ []) = concat (digit64 (a / 4) ∷ digit64 (a % 4 * 16) ∷ "==" ∷ [])
base64 (a ∷ b ∷ []) =
    concat (digit64 (a / 4) ∷ digit64 (a % 4 * 16 + b / 16) ∷ digit64 (b % 16 * 4) ∷ "=" ∷ [])
base64 (a ∷ b ∷ c ∷ bytes) = concat (
    digit64 (a / 4)
    ∷ digit64 (a % 4 * 16 + b / 16)
    ∷ digit64 (b % 16 * 4 + c / 64)
    ∷ digit64 (c % 64)
    ∷ base64 bytes
    ∷ [])

unfoldable pub hex_upper : ℕ → String
unfolding pick
hex_upper n = pick n "0123456789ABCDEF"

-- One byte as `%XX`.
unfoldable pub percent : ℕ → String
unfolding hex_upper
percent b = concat ("%" ∷ hex_upper (b / 16) ∷ hex_upper (b % 16) ∷ [])

unfoldable pub percents : List ℕ → String
unfolding percent
percents [] = ""
percents (b ∷ bytes) = String.◌++◌ (percent b) (percents bytes)

-- Letters and digits, and `_.-~`, which `quote` always leaves.
unfoldable pub is_unreserved : ℕ → Bool
is_unreserved c =
    leb b'A' c && leb c b'Z'
    || leb b'a' c && leb c b'z'
    || leb b'0' c && leb c b'9'
    || eqb c b'_'
    || eqb c b'.'
    || eqb c b'-'
    || eqb c b'~'

-- `quote(s, safe=…)`, for a test of the safe characters, all of them ASCII.
unfoldable pub quote : (ℕ → Bool) → String → String
unfolding is_unreserved utf8 percents
quote safe String.[] = ""
quote safe (String.◌∷◌ c s) =
    let rest = quote safe s in
    if is_unreserved (code c) || safe (code c)
    then String.◌∷◌ c rest
    else String.◌++◌ (percents (utf8 (code c))) rest

base64_known : base64 (encode "user:pässword") ≡ "dXNlcjpww6Rzc3dvcmQ="
unfolding base64 encode
base64_known = refl

quote_known : quote (λ c. eqb c b':') "a b:ü/%" ≡ "a%20b:%C3%BC%2F%25"
unfolding quote
quote_known = refl
