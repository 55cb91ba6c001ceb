-- ===== src/Protocol/Utf8.antt =====
-- The texts of brain-protocol.mjs: `Buffer.from(value, "utf8")` and `toString("utf8")`. A text is
-- the list of its code points, where a surrogate without its partner is a code point too.
use enclave_gateway.Base.{
  ◌↔◌, ◌≢◌, ◌>>◌, ◌>>=◌, ◌⊎◌, ◌≤◌, ◌<◌, ◌||◌, zero, raise, ok, some, none, All, Bool-cases, ◌∙◌,
  inr, inl, suc, Bool, arith, ◌≡◌, false, true, refl, ℕ, ◌+◌, ◌-◌, ◌*◌, ◌/◌, ◌%◌, ◌==◌, ltb, leb,
  if◌then◌else◌, ◌&&◌, List, [], ◌∷◌, ◌++◌, String,
}
use Prim.Native.Char.{code}
pub mod Characters

-- The code points of a literal.
abbrev pub codes : String → List ℕ
codes String.[] = []
codes (String.◌∷◌ c s) = code c ∷ codes s

-- U+FFFD, which stands for what is no character
abbrev pub replacement : ℕ
replacement = 0xfffd

abbrev pub is_surrogate : ℕ → Bool
is_surrogate c = leb 0xd800 c && ltb c 0xe000

unfoldable pub char_bytes : ℕ → List ℕ
char_bytes c =
    if ltb c 0x80
    then c ∷ []
    else if ltb c 0x800
    then (0xc0 + c / 64) ∷ (0x80 + c % 64) ∷ []
    else if is_surrogate c
    then 0xef ∷ 0xbf ∷ 0xbd ∷ []
    else if ltb c 0x10000
    then (0xe0 + c / 4096) ∷ (0x80 + c / 64 % 64) ∷ (0x80 + c % 64) ∷ []
    else (0xf0 + c / 262144) ∷ (0x80 + c / 4096 % 64) ∷ (0x80 + c / 64 % 64) ∷ (0x80 + c % 64) ∷ []

unfoldable pub utf8_bytes : List ℕ → List ℕ
utf8_bytes [] = []
utf8_bytes (c ∷ s) = char_bytes c ++ utf8_bytes s

-- What the decoder has read of a character: the bytes it still needs, the range of the next, and
-- the number that the ones before it make.
pub record Partial : Type 0 where
  pub need : ℕ
  pub lower : ℕ
  pub upper : ℕ
  pub point : ℕ

pub record Step : Type 0 where
  pub out : List ℕ
  pub next : Partial

abbrev pub idle : Partial
idle = record { need = 0; lower = 0x80; upper = 0xbf; point = 0 }

abbrev pub emit : ℕ → Step
emit c = record { out = c ∷ []; next = idle }

abbrev pub wait : ℕ → ℕ → ℕ → ℕ → Step
wait n lo hi p = record { out = []; next = record { need = n; lower = lo; upper = hi; point = p } }

-- A byte that begins a character.
unfoldable pub first_byte : ℕ → Step
first_byte b =
    if ltb b 0x80
    then emit b
    else if ltb b 0xc2
    then emit replacement
    else if ltb b 0xe0
    then wait 1 0x80 0xbf (b - 0xc0)
    else if b == 0xe0
    then wait 2 0xa0 0xbf 0
    else if b == 0xed
    then wait 2 0x80 0x9f 13
    else if ltb b 0xf0
    then wait 2 0x80 0xbf (b - 0xe0)
    else if b == 0xf0
    then wait 3 0x90 0xbf 0
    else if b == 0xf4
    then wait 3 0x80 0x8f 4
    else if ltb b 0xf4
    then wait 3 0x80 0xbf (b - 0xf0)
    else emit replacement

-- A byte inside a character; one that does not fit ends it, and begins the next.
unfoldable pub next_byte : Partial → ℕ → Step
next_byte s b =
    if s.need == 0
    then first_byte b
    else if leb s.lower b && leb b s.upper
    then if s.need == 1
      then emit (s.point * 64 + (b - 0x80))
      else wait (s.need - 1) 0x80 0xbf (s.point * 64 + (b - 0x80))
    else record { out = replacement ∷ (first_byte b).out; next = (first_byte b).next }

unfoldable pub text_from : Partial → List ℕ → List ℕ
text_from s [] = if s.need == 0 then [] else replacement ∷ []
text_from s (b ∷ bs) = (next_byte s b).out ++ text_from (next_byte s b).next bs

-- `buf.toString("utf8")`
unfoldable pub utf8_text : List ℕ → List ℕ
unfolding text_from
utf8_text bs = text_from idle bs
