-- ===== src/Countries/Tests.antt =====
-- locality-match.mjs at concrete names, and an instance of the theorem on it. The texts are in lower
-- case as they stand, or are folded by their ASCII letters.
use enclave_gateway.Base.{◌≡◌, refl, String, some, none, ◌++◌, ◌↔◌, String-discrete}
use enclave_gateway.Countries.Names.{normalize_country_name, country_name_to_iso2, last_row}
use enclave_gateway.Countries.Resolve.{plain_text, country_name_to_iso2_iff}
use enclave_gateway.Countries.Table.{base_rows, alias_rows}
use mathlib.Core.List.{Memᴰ}

abbrev as_is : String → String
as_is s = s

-- Each run of the letter is a space, and the article stays.
normalize_tests :
    (normalize_country_name as_is "united states" ≡ "united  tate")
    × (normalize_country_name as_is "the gambia" ≡ "the gambia")
    × (normalize_country_name as_is "thessaly" ≡ "aly")
    × (normalize_country_name as_is "a[]b" ≡ "a b")
unfolding normalize_country_name
normalize_tests = (refl, refl, refl, refl)

-- The names of the tables are folded by the letters that they have.
country_name_to_iso2_iff_example : (country_name_to_iso2 plain_text "FRANCE" ≡ some "FR") ↔ (
    (row : String) × Memᴰ (row, "FR") (base_rows ++ alias_rows)
    × (normalize_country_name plain_text "FRANCE" ≡ normalize_country_name plain_text row))
unfolding String-discrete
country_name_to_iso2_iff_example =
    country_name_to_iso2_iff plain_text (λ row iso2 m. refl) "FRANCE" "FR" refl

resolved_tests :
    (country_name_to_iso2 plain_text "FRANCE" ≡ some "FR")
    × (country_name_to_iso2 plain_text "Côte d’Ivoire" ≡ some "CI")
    × (country_name_to_iso2 plain_text "Atlantis" ≡ none)
unfolding country_name_to_iso2 last_row normalize_country_name plain_text String-discrete
resolved_tests = (refl, refl, refl)
