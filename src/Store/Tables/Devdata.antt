-- ===== src/Store/Tables/Devdata.antt =====
-- The table of the measured values, data/DataClassItemConfig.cpp.
use yd.Prelude.{List, [], ◌∷◌, ◌++◌}
use yd.Item.{ItemConfig, df_bcd, df_hex, df_char, df_jpg, df_hhmm}
use yd.Store.{row}

-- The elements of the protocol.
abbrev pub devdata_standard : List ItemConfig
devdata_standard =
    row 0xF0 0 0 df_hex
    ∷ row 0xF1 0 0 df_hex
    ∷ row 0xF2 0 0 df_char
    ∷ row 0xF3 0 0 df_jpg
    ∷ row 0xF4 24 0 df_hex
    ∷ row 0xF5 48 0 df_hex
    ∷ row 0xF6 48 0 df_hex
    ∷ row 0xF7 48 0 df_hex
    ∷ row 0xF8 48 0 df_hex
    ∷ row 0xF9 48 0 df_hex
    ∷ row 0xFA 48 0 df_hex
    ∷ row 0xFB 48 0 df_hex
    ∷ row 0xFC 48 0 df_hex
    ∷ row 0xFD 0 0 df_hex
    ∷ row 0x01 8 2 df_bcd
    ∷ row 0x02 3 1 df_bcd
    ∷ row 0x03 3 1 df_bcd
    ∷ row 0x04 6 0 df_hex
    ∷ row 0x05 4 0 df_hhmm
    ∷ row 0x06 5 1 df_bcd
    ∷ row 0x07 5 1 df_bcd
    ∷ row 0x08 5 0 df_bcd
    ∷ row 0x09 5 2 df_bcd
    ∷ row 0x0A 3 0 df_bcd
    ∷ row 0x0B 1 0 df_bcd
    ∷ row 0x0C 3 0 df_bcd
    ∷ row 0x0D 3 1 df_bcd
    ∷ row 0x0E 6 2 df_bcd
    ∷ row 0x0F 5 2 df_bcd
    ∷ row 0x10 4 1 df_bcd
    ∷ row 0x11 4 1 df_bcd
    ∷ row 0x12 4 1 df_bcd
    ∷ row 0x13 4 1 df_bcd
    ∷ row 0x14 4 1 df_bcd
    ∷ row 0x15 4 1 df_bcd
    ∷ row 0x16 4 1 df_bcd
    ∷ row 0x17 4 1 df_bcd
    ∷ row 0x18 4 1 df_bcd
    ∷ row 0x19 2 0 df_bcd
    ∷ row 0x1A 5 1 df_bcd
    ∷ row 0x1B 5 1 df_bcd
    ∷ row 0x1C 5 1 df_bcd
    ∷ row 0x1D 5 1 df_bcd
    ∷ row 0x1E 5 1 df_bcd
    ∷ row 0x1F 5 1 df_bcd
    ∷ row 0x20 5 1 df_bcd
    ∷ row 0x21 5 1 df_bcd
    ∷ row 0x22 5 1 df_bcd
    ∷ row 0x23 5 1 df_bcd
    ∷ row 0x24 5 1 df_bcd
    ∷ row 0x25 5 1 df_bcd
    ∷ row 0x26 6 1 df_bcd
    ∷ row 0x27 9 3 df_bcd
    ∷ row 0x28 9 3 df_bcd
    ∷ row 0x29 9 3 df_bcd
    ∷ row 0x2A 9 3 df_bcd
    ∷ row 0x2B 9 3 df_bcd
    ∷ row 0x2C 9 3 df_bcd
    ∷ row 0x2D 9 3 df_bcd
    ∷ row 0x2E 9 3 df_bcd
    ∷ row 0x2F 9 3 df_bcd
    ∷ row 0x30 9 3 df_bcd
    ∷ row 0x31 9 3 df_bcd
    ∷ row 0x32 11 3 df_bcd
    ∷ row 0x33 2 0 df_bcd
    ∷ row 0x34 2 0 df_bcd
    ∷ row 0x35 4 1 df_bcd
    ∷ row 0x36 5 3 df_bcd
    ∷ row 0x37 5 3 df_bcd
    ∷ row 0x38 4 2 df_bcd
    ∷ row 0x39 7 3 df_bcd
    ∷ row 0x3A 7 3 df_bcd
    ∷ row 0x3B 7 3 df_bcd
    ∷ row 0x3C 7 3 df_bcd
    ∷ row 0x3D 7 3 df_bcd
    ∷ row 0x3E 7 3 df_bcd
    ∷ row 0x3F 7 3 df_bcd
    ∷ row 0x40 7 3 df_bcd
    ∷ row 0x41 7 3 df_bcd
    ∷ row 0x42 7 3 df_bcd
    ∷ row 0x43 7 3 df_bcd
    ∷ row 0x44 9 3 df_bcd
    ∷ row 0x45 8 0 df_hex
    ∷ row 0x46 4 2 df_bcd
    ∷ row 0x47 4 1 df_bcd
    ∷ row 0x48 5 0 df_bcd
    ∷ row 0x49 3 0 df_bcd
    ∷ row 0x4A 4 1 df_bcd
    ∷ row 0x4B 5 1 df_bcd
    ∷ row 0x4C 6 2 df_bcd
    ∷ row 0x4D 5 3 df_bcd
    ∷ row 0x4E 5 2 df_bcd
    ∷ row 0x4F 4 2 df_bcd
    ∷ row 0x50 7 4 df_bcd
    ∷ row 0x51 6 4 df_bcd
    ∷ row 0x52 7 5 df_bcd
    ∷ row 0x53 7 5 df_bcd
    ∷ row 0x54 7 5 df_bcd
    ∷ row 0x55 7 5 df_bcd
    ∷ row 0x56 7 5 df_bcd
    ∷ row 0x57 4 2 df_bcd
    ∷ row 0x58 5 2 df_bcd
    ∷ row 0x59 5 2 df_bcd
    ∷ row 0x5A 5 2 df_bcd
    ∷ row 0x5B 5 2 df_bcd
    ∷ row 0x5C 5 2 df_bcd
    ∷ row 0x5D 5 2 df_bcd
    ∷ row 0x5E 5 2 df_bcd
    ∷ row 0x5F 5 2 df_bcd
    ∷ row 0x60 11 3 df_bcd
    ∷ row 0x61 11 3 df_bcd
    ∷ row 0x62 11 3 df_bcd
    ∷ row 0x63 11 3 df_bcd
    ∷ row 0x64 11 3 df_bcd
    ∷ row 0x65 11 3 df_bcd
    ∷ row 0x66 11 3 df_bcd
    ∷ row 0x67 11 3 df_bcd
    ∷ row 0x68 10 2 df_bcd
    ∷ row 0x69 10 2 df_bcd
    ∷ row 0x6A 10 2 df_bcd
    ∷ row 0x6B 10 2 df_bcd
    ∷ row 0x6C 10 2 df_bcd
    ∷ row 0x6D 10 2 df_bcd
    ∷ row 0x6E 10 2 df_bcd
    ∷ row 0x6F 10 2 df_bcd
    ∷ row 0x70 4 1 df_bcd
    ∷ row 0x71 4 1 df_bcd
    ∷ row 0x72 4 1 df_bcd
    ∷ row 0x73 4 1 df_bcd
    ∷ row 0x74 4 1 df_bcd
    ∷ row 0x75 4 1 df_bcd
    ∷ []

-- The elements of two bytes, "QC1" to "QC8".
abbrev pub devdata_custom : List ItemConfig
devdata_custom =
    row 0xFFA1 10 0 df_bcd
    ∷ row 0xFFA2 10 0 df_bcd
    ∷ row 0xFFA3 10 0 df_bcd
    ∷ row 0xFFA4 10 0 df_bcd
    ∷ row 0xFFA5 10 0 df_bcd
    ∷ row 0xFFA6 10 0 df_bcd
    ∷ row 0xFFA7 10 0 df_bcd
    ∷ row 0xFFA8 10 0 df_bcd
    ∷ []

abbrev pub devdata_config_items : List ItemConfig
devdata_config_items = devdata_standard ++ devdata_custom
