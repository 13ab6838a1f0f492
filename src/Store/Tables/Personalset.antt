-- ===== src/Store/Tables/Personalset.antt =====
-- The table of the values set by hand, data/DataClassItemConfig.cpp.
use yd.Prelude.{List, [], ◌∷◌, ◌++◌}
use yd.Item.{ItemConfig, df_bcd, df_char, df_hhmm}
use yd.Store.{row}

-- The entries "AC" to "NRX".
abbrev pub personalset_a_to_nrx : List ItemConfig
personalset_a_to_nrx =
    row 1 8 2 df_bcd
    ∷ row 2 3 1 df_bcd
    ∷ row 3 3 1 df_bcd
    ∷ row 4 3 1 df_bcd
    ∷ row 5 3 1 df_bcd
    ∷ row 6 1 0 df_char
    ∷ row 7 3 1 df_bcd
    ∷ row 8 3 1 df_bcd
    ∷ row 9 5 0 df_char
    ∷ row 10 4 0 df_hhmm
    ∷ row 11 6 1 df_bcd
    ∷ row 12 6 1 df_bcd
    ∷ row 13 1 0 df_char
    ∷ row 14 6 1 df_bcd
    ∷ row 15 16 0 df_bcd
    ∷ row 16 16 0 df_bcd
    ∷ row 17 5 0 df_bcd
    ∷ row 18 16 0 df_bcd
    ∷ row 19 16 0 df_bcd
    ∷ row 20 5 2 df_bcd
    ∷ row 21 3 0 df_bcd
    ∷ row 22 1 0 df_char
    ∷ row 23 3 0 df_bcd
    ∷ row 24 7 3 df_bcd
    ∷ row 25 7 3 df_bcd
    ∷ row 26 7 3 df_bcd
    ∷ row 27 7 3 df_bcd
    ∷ row 28 7 3 df_bcd
    ∷ row 29 1 0 df_char
    ∷ row 30 5 2 df_bcd
    ∷ row 31 7 3 df_bcd
    ∷ row 32 7 3 df_bcd
    ∷ row 33 7 3 df_bcd
    ∷ row 34 4 1 df_bcd
    ∷ row 35 2 1 df_bcd
    ∷ row 36 2 1 df_bcd
    ∷ row 37 4 1 df_bcd
    ∷ row 38 3 1 df_bcd
    ∷ row 39 1 0 df_char
    ∷ row 40 3 1 df_bcd
    ∷ row 41 3 1 df_bcd
    ∷ row 42 1 0 df_char
    ∷ row 43 1 0 df_char
    ∷ row 44 1 0 df_char
    ∷ row 45 1 0 df_char
    ∷ row 46 7 3 df_bcd
    ∷ row 47 7 3 df_bcd
    ∷ row 48 3 1 df_bcd
    ∷ row 49 1 0 df_char
    ∷ row 50 1 0 df_char
    ∷ row 51 3 1 df_bcd
    ∷ row 52 1 0 df_char
    ∷ row 53 1 0 df_char
    ∷ row 54 2 0 df_char
    ∷ row 55 3 1 df_bcd
    ∷ row 56 1 0 df_char
    ∷ row 57 2 1 df_bcd
    ∷ row 58 4 0 df_bcd
    ∷ row 59 1 0 df_bcd
    ∷ row 60 9 3 df_bcd
    ∷ row 61 9 3 df_bcd
    ∷ row 62 4 1 df_bcd
    ∷ row 63 3 1 df_bcd
    ∷ row 64 3 0 df_bcd
    ∷ row 65 4 1 df_bcd
    ∷ row 66 4 1 df_bcd
    ∷ row 67 4 1 df_bcd
    ∷ row 68 4 1 df_bcd
    ∷ row 69 4 1 df_bcd
    ∷ row 70 4 1 df_bcd
    ∷ row 71 4 1 df_bcd
    ∷ row 72 4 1 df_bcd
    ∷ row 73 4 1 df_bcd
    ∷ row 74 1 0 df_char
    ∷ row 75 1 0 df_char
    ∷ row 76 1 0 df_char
    ∷ row 77 1 0 df_char
    ∷ row 78 2 0 df_bcd
    ∷ row 79 2 0 df_bcd
    ∷ row 80 2 0 df_bcd
    ∷ row 81 2 0 df_bcd
    ∷ row 82 2 0 df_bcd
    ∷ row 83 2 0 df_bcd
    ∷ []

-- The entries "NS" to "ZXN".
abbrev pub personalset_ns_to_zxn : List ItemConfig
personalset_ns_to_zxn =
    row 84 2 0 df_bcd
    ∷ row 85 5 1 df_bcd
    ∷ row 86 5 1 df_bcd
    ∷ row 87 5 1 df_bcd
    ∷ row 88 5 1 df_bcd
    ∷ row 89 5 1 df_bcd
    ∷ row 90 5 1 df_bcd
    ∷ row 91 3 0 df_bcd
    ∷ row 92 4 0 df_hhmm
    ∷ row 93 5 1 df_bcd
    ∷ row 94 5 1 df_bcd
    ∷ row 95 5 1 df_bcd
    ∷ row 96 5 1 df_bcd
    ∷ row 97 5 1 df_bcd
    ∷ row 98 5 1 df_bcd
    ∷ row 99 3 2 df_bcd
    ∷ row 100 3 0 df_bcd
    ∷ row 101 5 1 df_bcd
    ∷ row 102 9 3 df_bcd
    ∷ row 103 9 3 df_bcd
    ∷ row 104 9 3 df_bcd
    ∷ row 105 9 3 df_bcd
    ∷ row 106 9 3 df_bcd
    ∷ row 107 9 3 df_bcd
    ∷ row 108 9 3 df_bcd
    ∷ row 109 9 3 df_bcd
    ∷ row 110 9 3 df_bcd
    ∷ row 111 9 3 df_bcd
    ∷ row 112 9 3 df_bcd
    ∷ row 113 9 3 df_bcd
    ∷ row 114 9 3 df_bcd
    ∷ row 115 9 3 df_bcd
    ∷ row 116 9 3 df_bcd
    ∷ row 117 9 3 df_bcd
    ∷ row 118 9 3 df_bcd
    ∷ row 119 9 3 df_bcd
    ∷ row 120 9 3 df_bcd
    ∷ row 121 9 3 df_bcd
    ∷ row 122 9 3 df_bcd
    ∷ row 123 9 3 df_bcd
    ∷ row 124 9 3 df_bcd
    ∷ row 125 9 3 df_bcd
    ∷ row 126 9 3 df_bcd
    ∷ row 127 9 3 df_bcd
    ∷ row 128 9 3 df_bcd
    ∷ row 129 9 3 df_bcd
    ∷ row 130 9 3 df_bcd
    ∷ row 131 9 3 df_bcd
    ∷ row 132 9 3 df_bcd
    ∷ row 133 1 0 df_char
    ∷ row 134 1 0 df_char
    ∷ row 135 1 0 df_char
    ∷ row 136 9 3 df_bcd
    ∷ row 137 1 0 df_char
    ∷ row 138 8 0 df_char
    ∷ row 139 11 3 df_bcd
    ∷ row 140 11 3 df_bcd
    ∷ row 141 11 3 df_bcd
    ∷ row 142 11 3 df_bcd
    ∷ row 143 8 0 df_char
    ∷ row 144 8 0 df_char
    ∷ row 145 8 0 df_char
    ∷ row 146 2 0 df_char
    ∷ row 147 2 0 df_bcd
    ∷ row 148 2 0 df_bcd
    ∷ row 149 4 1 df_bcd
    ∷ row 150 4 1 df_bcd
    ∷ row 151 5 3 df_bcd
    ∷ row 152 5 3 df_bcd
    ∷ row 153 1 0 df_char
    ∷ row 154 9 3 df_bcd
    ∷ row 155 9 3 df_bcd
    ∷ row 156 9 3 df_bcd
    ∷ row 157 9 3 df_bcd
    ∷ row 158 9 3 df_bcd
    ∷ row 159 11 3 df_bcd
    ∷ row 160 11 3 df_bcd
    ∷ row 161 11 3 df_bcd
    ∷ row 162 11 3 df_bcd
    ∷ row 163 11 3 df_bcd
    ∷ row 164 11 3 df_bcd
    ∷ row 165 1 0 df_char
    ∷ row 166 9 3 df_bcd
    ∷ row 167 9 3 df_bcd
    ∷ row 168 9 3 df_bcd
    ∷ row 169 7 3 df_bcd
    ∷ row 170 7 3 df_bcd
    ∷ row 171 7 3 df_bcd
    ∷ row 172 7 3 df_bcd
    ∷ row 173 7 3 df_bcd
    ∷ row 174 7 3 df_bcd
    ∷ row 175 7 3 df_bcd
    ∷ row 176 7 3 df_bcd
    ∷ row 177 7 3 df_bcd
    ∷ row 178 7 3 df_bcd
    ∷ row 179 7 3 df_bcd
    ∷ row 180 7 3 df_bcd
    ∷ row 181 7 3 df_bcd
    ∷ row 182 7 3 df_bcd
    ∷ row 183 7 3 df_bcd
    ∷ row 184 7 3 df_bcd
    ∷ row 185 7 3 df_bcd
    ∷ row 186 7 3 df_bcd
    ∷ row 187 7 3 df_bcd
    ∷ row 188 7 3 df_bcd
    ∷ row 189 7 3 df_bcd
    ∷ row 190 7 3 df_bcd
    ∷ row 191 7 3 df_bcd
    ∷ row 192 7 3 df_bcd
    ∷ row 193 7 3 df_bcd
    ∷ row 194 7 3 df_bcd
    ∷ row 195 7 3 df_bcd
    ∷ row 196 7 3 df_bcd
    ∷ row 197 7 3 df_bcd
    ∷ row 198 7 3 df_bcd
    ∷ row 199 7 3 df_bcd
    ∷ row 200 7 3 df_bcd
    ∷ row 201 7 3 df_bcd
    ∷ row 202 7 3 df_bcd
    ∷ row 203 7 3 df_bcd
    ∷ row 204 7 3 df_bcd
    ∷ row 205 7 3 df_bcd
    ∷ []

abbrev pub personalset_config_items : List ItemConfig
personalset_config_items = personalset_a_to_nrx ++ personalset_ns_to_zxn
