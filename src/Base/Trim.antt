-- ===== src/Base/Trim.antt =====
-- strings.TrimSpace of Go, for valid texts.
use Prim.Native.Char.{Char, code}
use Prim.Native.Nat.{ℕ}
use Prim.Native.String.{String}
use mathlib.Core.Bool.{Bool, ◌&&◌, ◌||◌}
use kwmserver.Base.Tests.{leb, ◌==◌, nat_eq, if◌then◌else◌}

-- unicode.IsSpace
abbrev pub between : ℕ → ℕ → ℕ → Bool
between a b c = leb a c && leb c b

abbrev pub is_space : ℕ → Bool
is_space c =
    between 9 13 c
    || ((c == 32)
        || ((c == 133)
            || ((c == 160)
                || ((c == 5760)
                    || (between 8192 8202 c
                        || (between 8232 8233 c
                            || ((c == 8239) || ((c == 8287) || (c == 12288)))))))))

-- strings.TrimSpace
unfoldable pub trim_left : String → String
trim_left String.[] = ""
trim_left (String.◌∷◌ c s) =
    let rest = trim_left s in if is_space (code c) then rest else String.◌∷◌ c s

abbrev pub unless_blank : Char → String → String
unless_blank c String.[] = if is_space (code c) then "" else String.◌∷◌ c ""
unless_blank c (String.◌∷◌ d s) = String.◌∷◌ c (String.◌∷◌ d s)

unfoldable pub trim_right : String → String
trim_right String.[] = ""
trim_right (String.◌∷◌ c s) = unless_blank c (trim_right s)

unfoldable pub trim_space : String → String
trim_space s = trim_right (trim_left s)
