-- ===== src/Base/Strip.antt =====
-- str.strip and its halves.
use Prim.Native.Char.{Char, code}
use Prim.Native.String.{String}
use mathlib.Core.Bool.{Bool, ◌&&◌, ◌||◌}
use mathlib.Core.List.{[], ◌∷◌}
use krakey_bot.Base.Tests.{if◌then◌else◌, leb, nat_beq, ◌==◌, string_eq}
use krakey_bot.Base.Lists.{any}

-- str.isspace of a character
abbrev pub is_space : Char → Bool
is_space c =
    let n = code c in
    any (λ m. nat_beq m n) (32 ∷ 133 ∷ 160 ∷ 5760 ∷ 8232 ∷ 8233 ∷ 8239 ∷ 8287 ∷ 12288 ∷ [])
    || (leb 9 n && leb n 13)
    || (leb 28 n && leb n 31)
    || (leb 8192 n && leb n 8202)

unfoldable pub lstrip : String → String
lstrip String.[] = ""
lstrip (String.◌∷◌ c s) = let rest = lstrip s in if is_space c then rest else String.◌∷◌ c s

unfoldable pub rstrip : String → String
rstrip String.[] = ""
rstrip (String.◌∷◌ c s) =
    let rest = rstrip s in if rest == "" && is_space c then "" else String.◌∷◌ c rest

unfoldable pub strip : String → String
unfolding lstrip rstrip
strip s = rstrip (lstrip s)
