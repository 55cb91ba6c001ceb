-- ===== src/Countries/First.antt =====
-- locality-match.mjs, `BASE`: the first half of the names of the countries with their codes.
use enclave_gateway.Base.{List, String, ◌∷◌, []}

abbrev pub first_rows : List (String × String)
first_rows =
    ("United States", "US")
    ∷ ("United Kingdom", "GB")
    ∷ ("Canada", "CA")
    ∷ ("Australia", "AU")
    ∷ ("Germany", "DE")
    ∷ ("France", "FR")
    ∷ ("India", "IN")
    ∷ ("Brazil", "BR")
    ∷ ("Russia", "RU")
    ∷ ("United Arab Emirates", "AE")
    ∷ ("Afghanistan", "AF")
    ∷ ("Albania", "AL")
    ∷ ("Algeria", "DZ")
    ∷ ("Andorra", "AD")
    ∷ ("Angola", "AO")
    ∷ ("Antigua and Barbuda", "AG")
    ∷ ("Argentina", "AR")
    ∷ ("Armenia", "AM")
    ∷ ("Aruba", "AW")
    ∷ ("Austria", "AT")
    ∷ ("Azerbaijan", "AZ")
    ∷ ("Bahamas", "BS")
    ∷ ("Bahrain", "BH")
    ∷ ("Bangladesh", "BD")
    ∷ ("Barbados", "BB")
    ∷ ("Belarus", "BY")
    ∷ ("Belgium", "BE")
    ∷ ("Belize", "BZ")
    ∷ ("Benin", "BJ")
    ∷ ("Bhutan", "BT")
    ∷ ("Bolivia", "BO")
    ∷ ("Bosnia and Herzegovina", "BA")
    ∷ ("Botswana", "BW")
    ∷ ("Brunei", "BN")
    ∷ ("Bulgaria", "BG")
    ∷ ("Burkina Faso", "BF")
    ∷ ("Burundi", "BI")
    ∷ ("Cambodia", "KH")
    ∷ ("Cameroon", "CM")
    ∷ ("Cape Verde", "CV")
    ∷ ("Central African Republic", "CF")
    ∷ ("Chad", "TD")
    ∷ ("Chile", "CL")
    ∷ ("China", "CN")
    ∷ ("Colombia", "CO")
    ∷ ("Comoros", "KM")
    ∷ ("Congo", "CG")
    ∷ ("Congo (DRC)", "CD")
    ∷ ("Costa Rica", "CR")
    ∷ ("Côte d'Ivoire", "CI")
    ∷ ("Croatia", "HR")
    ∷ ("Cuba", "CU")
    ∷ ("Cyprus", "CY")
    ∷ ("Czech Republic", "CZ")
    ∷ ("Denmark", "DK")
    ∷ ("Djibouti", "DJ")
    ∷ ("Dominica", "DM")
    ∷ ("Dominican Republic", "DO")
    ∷ ("Ecuador", "EC")
    ∷ ("Egypt", "EG")
    ∷ ("El Salvador", "SV")
    ∷ ("Equatorial Guinea", "GQ")
    ∷ ("Eritrea", "ER")
    ∷ ("Estonia", "EE")
    ∷ ("Eswatini", "SZ")
    ∷ ("Ethiopia", "ET")
    ∷ ("Fiji", "FJ")
    ∷ ("Finland", "FI")
    ∷ ("Gabon", "GA")
    ∷ ("Gambia", "GM")
    ∷ ("Georgia", "GE")
    ∷ ("Ghana", "GH")
    ∷ ("Greece", "GR")
    ∷ ("Greenland", "GL")
    ∷ ("Grenada", "GD")
    ∷ ("Guatemala", "GT")
    ∷ ("Guinea", "GN")
    ∷ ("Guinea-Bissau", "GW")
    ∷ ("Guyana", "GY")
    ∷ ("Haiti", "HT")
    ∷ ("Honduras", "HN")
    ∷ ("Hong Kong", "HK")
    ∷ ("Hungary", "HU")
    ∷ ("Iceland", "IS")
    ∷ ("Indonesia", "ID")
    ∷ ("Iran", "IR")
    ∷ ("Iraq", "IQ")
    ∷ ("Ireland", "IE")
    ∷ ("Israel", "IL")
    ∷ ("Italy", "IT")
    ∷ ("Jamaica", "JM")
    ∷ ("Japan", "JP")
    ∷ ("Jordan", "JO")
    ∷ ("Kazakhstan", "KZ")
    ∷ ("Kenya", "KE")
    ∷ ("Kiribati", "KI")
    ∷ ("Kosovo", "XK")
    ∷ ("Kuwait", "KW")
    ∷ ("Kyrgyzstan", "KG")
    ∷ ("Laos", "LA")
    ∷ ("Latvia", "LV")
    ∷ []
