-- ===== src/Replay/Locality.antt =====
-- replay-detect.mjs, `countryOf` and `platformClass` (also in locality-match.mjs), over the
-- characters of a string. The regular expression's flag `i` folds ASCII letters alone.
use Prim.Native.Char.{code}
use enclave_gateway.Base.{
  ℕ, ◌+◌, Bool, true, false, ◌&&◌, ◌||◌, Option, none, some, List, [], ◌∷◌, String, leb, ◌==◌,
  if◌then◌else◌, any,
}

-- What `trim` removes.
unfoldable pub is_space : ℕ → Bool
is_space c =
    (leb 9 c && leb c 13)
    || c == 32
    || c == 160
    || c == 5760
    || (leb 8192 c && leb c 8202)
    || c == 8232
    || c == 8233
    || c == 8239
    || c == 8287
    || c == 12288
    || c == 65279

unfoldable pub trim_start : String → String
unfolding is_space
trim_start String.[] = String.[]
trim_start (String.◌∷◌ c s) = if is_space (code c) then trim_start s else String.◌∷◌ c s

abbrev pub is_empty : String → Bool
is_empty String.[] = true
is_empty (String.◌∷◌ c s) = false

unfoldable pub trim_end : String → String
unfolding is_space
trim_end String.[] = String.[]
trim_end (String.◌∷◌ c s) =
    let rest = trim_end s in
    if is_space (code c) && is_empty rest then String.[] else String.◌∷◌ c rest

unfoldable pub trim : String → String
unfolding trim_start trim_end
trim s = trim_end (trim_start s)

-- What follows the last comma of the second text, or the first text where it has none.
unfoldable pub last_segment : String → String → String
last_segment seg String.[] = seg
last_segment seg (String.◌∷◌ c s) = last_segment (if code c == b',' then s else seg) s

unfoldable pub country_of : Option String → String
unfolding trim last_segment
country_of none = ""
country_of (some locality) = trim (last_segment locality locality)

pub data Platform : Type 0 where
  desktop mobile : Platform

-- The code points of a text, ASCII letters in lower case.
unfoldable pub lower_codes : String → List ℕ
lower_codes String.[] = []
lower_codes (String.◌∷◌ c s) =
    (if leb b'A' (code c) && leb (code c) b'Z' then code c + 32 else code c) ∷ lower_codes s

unfoldable pub starts_with : List ℕ → List ℕ → Bool
starts_with s [] = true
starts_with [] (p ∷ ps) = false
starts_with (c ∷ s) (p ∷ ps) = c == p && starts_with s ps

unfoldable pub contains : List ℕ → List ℕ → Bool
unfolding starts_with
contains [] p = starts_with [] p
contains (c ∷ s) p = starts_with (c ∷ s) p || contains s p

unfoldable pub platform_class : Option String → Platform
unfolding lower_codes contains
platform_class none = desktop
platform_class (some p) =
    let s = lower_codes p in
    if any (λ w. contains s (lower_codes w)) ("android" ∷ "ios" ∷ "iphone" ∷ "ipad" ∷ [])
    then mobile
    else desktop
