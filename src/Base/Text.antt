-- ===== src/Base/Text.antt =====
-- Texts: joining, and Go's order `<`. Go orders strings by their UTF-8 bytes, which for valid
-- texts is the order by code points.
use Prim.Native.Char.{code}
use Prim.Native.String.{String}
use Prim.Native.String
use mathlib.Core.Path.{◌≡◌, refl}
use mathlib.Core.Bool.{Bool, true, false}
use native.Mathlib.Omega.{arith}
use text.Mathlib.TextEquality.{Char-path}
use text.Mathlib.TextLemmas.{append_assoc}
use kwmserver.Base.Tests.{ltb, if◌then◌else◌}

infixr 65 ◌+++◌
abbrev pub ◌+++◌ : String → String → String
s +++ t = String.◌++◌ s t

unfoldable pub string_lt : String → String → Bool
string_lt s String.[] = false
string_lt String.[] (String.◌∷◌ d t) = true
string_lt (String.◌∷◌ c s) (String.◌∷◌ d t) =
    let rest = string_lt s t in
    if ltb (code c) (code d) then true else if ltb (code d) (code c) then false else rest

pub append_assoc_text : (s t u : String) → (s +++ t) +++ u ≡ s +++ (t +++ u)
append_assoc_text s t u = append_assoc s t u

-- Two texts of which neither comes before the other are the same text.
pub string_lt_total : (s t : String) → string_lt s t ≡ false → string_lt t s ≡ false → s ≡ t
unfolding string_lt
string_lt_total String.[] String.[] h k = refl
string_lt_total String.[] (String.◌∷◌ d t) h k = cc
string_lt_total (String.◌∷◌ c s) String.[] h k = cc
string_lt_total (String.◌∷◌ c s) (String.◌∷◌ d t) h k =
    let same : code c ≡ code d = ground arith in
    let e : s ≡ t = string_lt_total s t (ground arith) (ground arith) in
    λ i. String.◌∷◌ (Char-path c d same i) (e i)

pub string_lt_asymm : (s t : String) → string_lt s t ≡ true → string_lt t s ≡ false
unfolding string_lt
string_lt_asymm s String.[] h = cc
string_lt_asymm String.[] (String.◌∷◌ d t) h = refl
string_lt_asymm (String.◌∷◌ c s) (String.◌∷◌ d t) h = ground (arith, string_lt_asymm s t)
