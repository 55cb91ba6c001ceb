-- ===== src/Base/Text.antt =====
-- JavaScript strings under `===`, and nullable strings.
use Prim.Native.String.{String}
use text.Mathlib.Text.{◌==◌ as str_eq}
use text.Mathlib.TextEquality.{eq_iff}
use mathlib.Core.Path.{◌≡◌, refl}
use mathlib.Core.Logic.{◌↔◌}
use mathlib.Core.Bool.{Bool, true, false}
use mathlib.Core.Option.{Option, none, some}
use native.Mathlib.Omega.{arith}
use enclave_gateway.Base.Tests.{is_yes}

decide_text : (a b : String) (t : Bool) → str_eq a b ≡ t → Dec (a ≡ b)
decide_text a b true h = yes ((eq_iff a b).0 h)
decide_text a b false h = no (λ e. cc ((eq_iff a b).1 e))

-- Equality of strings is decided by the library's comparison.
unfoldable pub String-discrete : Discrete String
unfolding decide_text
String-discrete a b = decide_text a b (str_eq a b) refl

-- `a === b` on strings.
abbrev pub eqs : String → String → Bool
eqs a b = is_yes (String-discrete a b)

pub eqs_iff : (a b : String) → (eqs a b ≡ true) ↔ (a ≡ b)
eqs_iff a b = ground arith

pub eqs_refl : (a : String) → eqs a a ≡ true
eqs_refl a = (eqs_iff a a).1 refl

-- `a === b` where `a` may be null and `b` is a string.
abbrev pub same? : Option String → String → Bool
same? none b = false
same? (some a) b = eqs a b

-- `a === b` where both may be null.
abbrev pub eqb? : Option String → Option String → Bool
eqb? none none = true
eqb? none (some b) = false
eqb? (some a) b = same? b a
