-- ===== src/Base/Text.antt =====
-- Go's `strings` on texts: TrimSpace and ToLower. Letters outside ASCII
-- have no lower case here; a white-space character is one for `unicode.IsSpace`.
use Prim.Native.Nat.{ℕ, zero, suc, ◌-◌}
use Prim.Native.Char.{Char, code}
use Prim.Native.String.{String}
use mathlib.Core.Bool.{Bool, ◌&&◌, ◌||◌}
use simply_chat.Base.Tests.{leb, if◌then◌else◌, ◌==◌, nat_eq, string_eq}

-- U+0009 to U+000D, U+0020, U+0085, U+00A0 and the spaces of the planes above.
pub is_space : Char → Bool
is_space c =
    let n = code c in
    (leb 9 n && leb n 13)
    || n == 32
    || n == 0x85
    || n == 0xa0
    || n == 0x1680
    || (leb 0x2000 n && leb n 0x200a)
    || n == 0x2028
    || n == 0x2029
    || n == 0x202f
    || n == 0x205f
    || n == 0x3000

pub trim_left : String → String
trim_left String.[] = ""
trim_left (String.◌∷◌ c s) = let rest = trim_left s in if is_space c then rest else String.◌∷◌ c s

pub trim_right : String → String
trim_right String.[] = ""
trim_right (String.◌∷◌ c s) =
    let rest = trim_right s in if rest == "" && is_space c then "" else String.◌∷◌ c rest

-- strings.TrimSpace
unfoldable pub trim_space : String → String
unfolding is_space trim_left trim_right
trim_space s = trim_right (trim_left s)

nth_char : ℕ → String → Char → Char
nth_char n String.[] d = d
nth_char zero (String.◌∷◌ c s) d = c
nth_char (suc n) (String.◌∷◌ c s) d = nth_char n s d

lower_char : Char → Char
unfolding nth_char
lower_char c =
    if leb b'A' (code c) && leb (code c) b'Z'
    then nth_char (code c - b'A') "abcdefghijklmnopqrstuvwxyz" c
    else c

-- strings.ToLower
unfoldable pub to_lower : String → String
unfolding lower_char
to_lower String.[] = ""
to_lower (String.◌∷◌ c s) = String.◌∷◌ (lower_char c) (to_lower s)
