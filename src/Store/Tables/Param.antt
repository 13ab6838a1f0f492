-- ===== src/Store/Tables/Param.antt =====
-- The tables of the basic configuration and of the program's own data, data/DataClassItemConfig.cpp.
use yd.Prelude.{List, [], ◌∷◌}
use yd.Item.{ItemConfig, df_bcd, df_hex, df_hex_num, df_char, df_string_vector}
use yd.Store.{row}

abbrev pub param_config_items : List ItemConfig
param_config_items =
    row 0x01 8 0 df_hex
    ∷ row 0x02 10 0 df_hex_num
    ∷ row 0x03 4 0 df_hex_num
    ∷ row 0x04 20 0 df_hex
    ∷ row 0x05 20 0 df_hex
    ∷ row 0x06 20 0 df_hex
    ∷ row 0x07 20 0 df_hex
    ∷ row 0x08 20 0 df_hex
    ∷ row 0x09 20 0 df_hex
    ∷ row 0x0A 20 0 df_hex
    ∷ row 0x0B 20 0 df_hex
    ∷ row 0x0C 2 0 df_hex
    ∷ row 0x0D 16 0 df_hex
    ∷ row 0x0E 1 0 df_hex
    ∷ row 0x0F 1 0 df_hex
    ∷ row 0xFF01 2 0 df_bcd
    ∷ []

abbrev pub appdata_config_items : List ItemConfig
appdata_config_items =
    row 1 50 0 df_char
    ∷ row 2 16 0 df_hex
    ∷ row 3 16 0 df_hex
    ∷ row 4 16 0 df_hex
    ∷ row 5 16 0 df_hex
    ∷ row 6 4 0 df_bcd
    ∷ row 7 4 0 df_bcd
    ∷ row 8 6 1 df_bcd
    ∷ row 9 200 0 df_string_vector
    ∷ []
