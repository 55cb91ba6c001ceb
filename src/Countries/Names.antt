-- ===== src/Countries/Names.antt =====
-- locality-match.mjs, `normalizeCountryName` and `countryNameToIso2`. The parameter `fold` stands for
-- the decomposition of a text, without its combining marks, in lower case. The regular expressions
-- are modelled as they are written, where an `s` is the letter.
use Prim.Native.Char.{Char, code}
use Prim.Native.String.{◌++◌ as concat}
use enclave_gateway.Base.{
  ◌||◌, ◌++◌, ◌==◌, false, true, ◌∷◌, [], some, none, List, Option, String, Bool, eqs,
  if◌then◌else◌,
}
use enclave_gateway.Replay.Locality.{trim}
use enclave_gateway.Countries.Table.{base_rows, alias_rows}

abbrev is_closer : Char → Bool
is_closer c = code c == 93

-- The class `[[^]`.
abbrev is_opener : Char → Bool
is_opener c = code c == 91 || code c == 94

abbrev is_s : Char → Bool
is_s c = code c == 115

-- The punctuation that becomes a space.
abbrev is_punctuation : Char → Bool
is_punctuation c =
    code c == 46 || code c == 44 || code c == 40 || code c == 41 || code c == 39 || code c == 8217

abbrev one : Char → String
one c = String.◌∷◌ c ""

-- Where the search for `[[^]]*]` is: outside, after an opener, or within the closers of a match.
pub data Marks : Type 0 where
  outside skipping : Marks
  opened : Char → Marks

abbrev pub held : Marks → String
held (opened o) = one o
held _ = ""

abbrev pub is_opened : Marks → Bool
is_opened (opened o) = true
is_opened _ = false

abbrev pub is_outside : Marks → Bool
is_outside outside = true
is_outside _ = false

-- What one character adds to the text, and where the search is after it.
abbrev pub mark_step : Marks → Char → String × Marks
mark_step m c =
    if is_closer c
    then (if is_opened m
        then (" ", skipping)
        else if is_outside m
        then (one c, outside)
        else ("", skipping))
    else if is_opener c
    then (held m, opened c)
    else (concat (held m) (one c), outside)

unfoldable pub replace_marks : Marks → String → String
replace_marks m String.[] = held m
replace_marks m (String.◌∷◌ c s) = let (out, m') = mark_step m c in concat out (replace_marks m' s)

unfoldable pub replace_punctuation : String → String
replace_punctuation String.[] = ""
replace_punctuation (String.◌∷◌ c s) =
    concat (if is_punctuation c then " " else one c) (replace_punctuation s)

unfoldable pub drop_s : String → String
drop_s String.[] = ""
drop_s (String.◌∷◌ c s) = if is_s c then drop_s s else String.◌∷◌ c s

-- The rest after a word, if the text begins with it.
unfoldable pub after : String → String → Option String
after String.[] s = some s
after (String.◌∷◌ p ps) String.[] = none
after (String.◌∷◌ p ps) (String.◌∷◌ c s) =
    let rest = after ps s in if code p == code c then rest else none

abbrev pub starts_s : String → Bool
starts_s String.[] = false
starts_s (String.◌∷◌ c s) = is_s c

-- The removal of `^s*thes+`.
unfoldable pub drop_the : String → String
unfolding drop_s after
drop_the s = elim (after "the" (drop_s s)) [
  | none ↦ s
  | some rest ↦ if starts_s rest then drop_s rest else s
]

-- Every run of `s` becomes a space; the flag says whether a run goes on.
unfoldable pub replace_s : Bool → String → String
replace_s within String.[] = ""
replace_s within (String.◌∷◌ c s) =
    let rest = replace_s (is_s c) s in
    concat (if is_s c then (if within then "" else " ") else one c) rest

module _ (fold : String → String) where
  unfoldable pub normalize_country_name : String → String
  unfolding replace_marks replace_punctuation drop_the replace_s trim
  normalize_country_name s =
      trim (replace_s false (drop_the (replace_punctuation (replace_marks outside (fold s)))))

  -- `NAME_TO_ISO2.get(norm)`: the last row with the name
  unfoldable pub last_row : List (String × String) → String → Option String
  last_row [] norm = none
  last_row ((n, iso2) ∷ rows) norm = elim (last_row rows norm) [
    | some later ↦ some later
    | none ↦ if eqs (normalize_country_name n) norm then some iso2 else none
  ]

  unfoldable pub country_name_to_iso2 : String → Option String
  country_name_to_iso2 name =
      if eqs name "" || eqs (normalize_country_name name) ""
      then none
      else last_row (base_rows ++ alias_rows) (normalize_country_name name)
