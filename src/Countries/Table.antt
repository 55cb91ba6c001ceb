-- ===== src/Countries/Table.antt =====
-- locality-match.mjs: the rest of the names of the countries with their codes, and the aliases.
use enclave_gateway.Base.{List, String, ◌∷◌, [], ◌++◌}
use enclave_gateway.Countries.First.{first_rows}

abbrev pub rest_rows : List (String × String)
rest_rows =
    ("Lebanon", "LB")
    ∷ ("Lesotho", "LS")
    ∷ ("Liberia", "LR")
    ∷ ("Libya", "LY")
    ∷ ("Liechtenstein", "LI")
    ∷ ("Lithuania", "LT")
    ∷ ("Luxembourg", "LU")
    ∷ ("Macau", "MO")
    ∷ ("Madagascar", "MG")
    ∷ ("Malawi", "MW")
    ∷ ("Malaysia", "MY")
    ∷ ("Maldives", "MV")
    ∷ ("Mali", "ML")
    ∷ ("Malta", "MT")
    ∷ ("Marshall Islands", "MH")
    ∷ ("Mauritania", "MR")
    ∷ ("Mauritius", "MU")
    ∷ ("Mexico", "MX")
    ∷ ("Micronesia", "FM")
    ∷ ("Moldova", "MD")
    ∷ ("Monaco", "MC")
    ∷ ("Mongolia", "MN")
    ∷ ("Montenegro", "ME")
    ∷ ("Morocco", "MA")
    ∷ ("Mozambique", "MZ")
    ∷ ("Myanmar", "MM")
    ∷ ("Namibia", "NA")
    ∷ ("Nauru", "NR")
    ∷ ("Nepal", "NP")
    ∷ ("Netherlands", "NL")
    ∷ ("New Zealand", "NZ")
    ∷ ("Nicaragua", "NI")
    ∷ ("Niger", "NE")
    ∷ ("Nigeria", "NG")
    ∷ ("North Korea", "KP")
    ∷ ("North Macedonia", "MK")
    ∷ ("Norway", "NO")
    ∷ ("Oman", "OM")
    ∷ ("Pakistan", "PK")
    ∷ ("Palau", "PW")
    ∷ ("Palestine", "PS")
    ∷ ("Panama", "PA")
    ∷ ("Papua New Guinea", "PG")
    ∷ ("Paraguay", "PY")
    ∷ ("Peru", "PE")
    ∷ ("Philippines", "PH")
    ∷ ("Poland", "PL")
    ∷ ("Portugal", "PT")
    ∷ ("Puerto Rico", "PR")
    ∷ ("Qatar", "QA")
    ∷ ("Romania", "RO")
    ∷ ("Rwanda", "RW")
    ∷ ("Saint Kitts and Nevis", "KN")
    ∷ ("Saint Lucia", "LC")
    ∷ ("Saint Vincent and the Grenadines", "VC")
    ∷ ("Samoa", "WS")
    ∷ ("San Marino", "SM")
    ∷ ("São Tomé and Príncipe", "ST")
    ∷ ("Saudi Arabia", "SA")
    ∷ ("Senegal", "SN")
    ∷ ("Serbia", "RS")
    ∷ ("Seychelles", "SC")
    ∷ ("Sierra Leone", "SL")
    ∷ ("Singapore", "SG")
    ∷ ("Slovakia", "SK")
    ∷ ("Slovenia", "SI")
    ∷ ("Solomon Islands", "SB")
    ∷ ("Somalia", "SO")
    ∷ ("South Africa", "ZA")
    ∷ ("South Korea", "KR")
    ∷ ("South Sudan", "SS")
    ∷ ("Spain", "ES")
    ∷ ("Sri Lanka", "LK")
    ∷ ("Sudan", "SD")
    ∷ ("Suriname", "SR")
    ∷ ("Sweden", "SE")
    ∷ ("Switzerland", "CH")
    ∷ ("Syria", "SY")
    ∷ ("Taiwan", "TW")
    ∷ ("Tajikistan", "TJ")
    ∷ ("Tanzania", "TZ")
    ∷ ("Thailand", "TH")
    ∷ ("Timor-Leste", "TL")
    ∷ ("Togo", "TG")
    ∷ ("Tonga", "TO")
    ∷ ("Trinidad and Tobago", "TT")
    ∷ ("Tunisia", "TN")
    ∷ ("Turkey", "TR")
    ∷ ("Turkmenistan", "TM")
    ∷ ("Tuvalu", "TV")
    ∷ ("Uganda", "UG")
    ∷ ("Ukraine", "UA")
    ∷ ("Uruguay", "UY")
    ∷ ("Uzbekistan", "UZ")
    ∷ ("Vanuatu", "VU")
    ∷ ("Vatican City", "VA")
    ∷ ("Venezuela", "VE")
    ∷ ("Vietnam", "VN")
    ∷ ("Yemen", "YE")
    ∷ ("Zambia", "ZM")
    ∷ ("Zimbabwe", "ZW")
    ∷ []

-- `BASE`
abbrev pub base_rows : List (String × String)
base_rows = first_rows ++ rest_rows

-- `ALIAS_ROWS`
abbrev pub alias_rows : List (String × String)
alias_rows =
    ("The Netherlands", "NL")
    ∷ ("Netherlands", "NL")
    ∷ ("Czechia", "CZ")
    ∷ ("Czech Republic", "CZ")
    ∷ ("South Korea", "KR")
    ∷ ("Republic of Korea", "KR")
    ∷ ("Korea, Republic of", "KR")
    ∷ ("North Korea", "KP")
    ∷ ("Democratic People's Republic of Korea", "KP")
    ∷ ("Russia", "RU")
    ∷ ("Russian Federation", "RU")
    ∷ ("Myanmar", "MM")
    ∷ ("Myanmar [Burma]", "MM")
    ∷ ("Burma", "MM")
    ∷ ("Ivory Coast", "CI")
    ∷ ("Côte d'Ivoire", "CI")
    ∷ ("Vietnam", "VN")
    ∷ ("Viet Nam", "VN")
    ∷ ("Macao", "MO")
    ∷ ("Macau", "MO")
    ∷ ("Hong Kong", "HK")
    ∷ ("Taiwan", "TW")
    ∷ ("Taiwan, Province of China", "TW")
    ∷ ("Kosovo", "XK")
    ∷ ("Turkey", "TR")
    ∷ ("Türkiye", "TR")
    ∷ ("North Macedonia", "MK")
    ∷ ("Macedonia", "MK")
    ∷ ("Eswatini", "SZ")
    ∷ ("Swaziland", "SZ")
    ∷ ("Democratic Republic of the Congo", "CD")
    ∷ ("DR Congo", "CD")
    ∷ ("Congo, The Democratic Republic of the", "CD")
    ∷ ("Republic of the Congo", "CG")
    ∷ ("Congo", "CG")
    ∷ ("Republic of Moldova", "MD")
    ∷ ("Moldova", "MD")
    ∷ ("Palestine", "PS")
    ∷ ("State of Palestine", "PS")
    ∷ ("Palestinian Territory", "PS")
    ∷ ("United States", "US")
    ∷ ("United States of America", "US")
    ∷ ("USA", "US")
    ∷ ("United Kingdom", "GB")
    ∷ ("Great Britain", "GB")
    ∷ ("UK", "GB")
    ∷ ("Vatican City", "VA")
    ∷ ("Holy See", "VA")
    ∷ ("Holy See (Vatican City State)", "VA")
    ∷ ("Bolivia", "BO")
    ∷ ("Plurinational State of Bolivia", "BO")
    ∷ ("Venezuela", "VE")
    ∷ ("Bolivarian Republic of Venezuela", "VE")
    ∷ ("Tanzania", "TZ")
    ∷ ("United Republic of Tanzania", "TZ")
    ∷ ("Iran", "IR")
    ∷ ("Islamic Republic of Iran", "IR")
    ∷ ("Syria", "SY")
    ∷ ("Syrian Arab Republic", "SY")
    ∷ ("Laos", "LA")
    ∷ ("Lao People's Democratic Republic", "LA")
    ∷ ("Brunei", "BN")
    ∷ ("Brunei Darussalam", "BN")
    ∷ ("Micronesia", "FM")
    ∷ ("Federated States of Micronesia", "FM")
    ∷ ("Cape Verde", "CV")
    ∷ ("Cabo Verde", "CV")
    ∷ []
