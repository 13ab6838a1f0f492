-- ===== src/Store/Tables/Runtime.antt =====
-- The table of the running parameters, data/DataClassItemConfig.cpp.
use yd.Prelude.{List, [], ◌∷◌}
use yd.Item.{ItemConfig, df_bcd}
use yd.Store.{row}

abbrev pub runtime_config_items : List ItemConfig
runtime_config_items =
    row 0x20 2 0 df_bcd
    ∷ row 0x21 2 0 df_bcd
    ∷ row 0x22 2 0 df_bcd
    ∷ row 0x23 4 0 df_bcd
    ∷ row 0x24 2 0 df_bcd
    ∷ row 0x25 2 1 df_bcd
    ∷ row 0x26 2 1 df_bcd
    ∷ row 0x27 2 0 df_bcd
    ∷ row 0x28 7 3 df_bcd
    ∷ row 0x29 7 3 df_bcd
    ∷ row 0x2A 7 3 df_bcd
    ∷ row 0x2B 7 3 df_bcd
    ∷ row 0x2C 7 3 df_bcd
    ∷ row 0x2D 7 3 df_bcd
    ∷ row 0x2E 7 3 df_bcd
    ∷ row 0x2F 7 3 df_bcd
    ∷ row 0x30 5 3 df_bcd
    ∷ row 0x31 5 3 df_bcd
    ∷ row 0x32 5 3 df_bcd
    ∷ row 0x33 5 3 df_bcd
    ∷ row 0x34 5 3 df_bcd
    ∷ row 0x35 5 3 df_bcd
    ∷ row 0x36 5 3 df_bcd
    ∷ row 0x37 5 3 df_bcd
    ∷ row 0x38 4 2 df_bcd
    ∷ row 0x39 4 2 df_bcd
    ∷ row 0x3A 4 2 df_bcd
    ∷ row 0x3B 4 2 df_bcd
    ∷ row 0x3C 4 2 df_bcd
    ∷ row 0x3D 4 2 df_bcd
    ∷ row 0x3E 4 2 df_bcd
    ∷ row 0x3F 4 2 df_bcd
    ∷ row 0x40 3 2 df_bcd
    ∷ row 0x41 3 2 df_bcd
    ∷ row 0x42 6 3 df_bcd
    ∷ row 0x43 5 3 df_bcd
    ∷ row 0x44 3 2 df_bcd
    ∷ row 0x45 6 0 df_bcd
    ∷ row 0x46 4 0 df_bcd
    ∷ row 0x47 4 2 df_bcd
    ∷ row 0x48 2 1 df_bcd
    ∷ row 0x49 4 2 df_bcd
    ∷ row 0x4A 4 2 df_bcd
    ∷ row 0x4B 4 2 df_bcd
    ∷ row 0x4C 4 2 df_bcd
    ∷ row 0x4D 4 2 df_bcd
    ∷ row 0x4E 4 2 df_bcd
    ∷ row 0x4F 4 2 df_bcd
    ∷ row 0x50 4 2 df_bcd
    ∷ row 0x51 4 2 df_bcd
    ∷ row 0x52 4 2 df_bcd
    ∷ row 0x53 4 2 df_bcd
    ∷ row 0x54 4 2 df_bcd
    ∷ row 0x55 4 2 df_bcd
    ∷ row 0x56 4 2 df_bcd
    ∷ row 0x57 4 2 df_bcd
    ∷ row 0x58 4 2 df_bcd
    ∷ row 0x59 8 2 df_bcd
    ∷ row 0x5A 8 2 df_bcd
    ∷ row 0x5B 8 2 df_bcd
    ∷ row 0x5C 8 2 df_bcd
    ∷ row 0x5D 8 2 df_bcd
    ∷ row 0x5E 8 2 df_bcd
    ∷ row 0x5F 8 2 df_bcd
    ∷ row 0x60 8 2 df_bcd
    ∷ row 0x61 8 2 df_bcd
    ∷ row 0x62 8 2 df_bcd
    ∷ row 0x63 8 2 df_bcd
    ∷ row 0x64 8 2 df_bcd
    ∷ row 0x65 8 2 df_bcd
    ∷ row 0x66 8 2 df_bcd
    ∷ row 0x67 8 2 df_bcd
    ∷ row 0x68 8 2 df_bcd
    ∷ row 0x69 3 1 df_bcd
    ∷ row 0x6A 3 1 df_bcd
    ∷ row 0x6B 2 1 df_bcd
    ∷ row 0x6C 2 1 df_bcd
    ∷ row 0x6D 4 1 df_bcd
    ∷ row 0x6E 4 1 df_bcd
    ∷ row 0x6F 4 1 df_bcd
    ∷ row 0x70 4 1 df_bcd
    ∷ row 0x71 5 0 df_bcd
    ∷ row 0x72 5 0 df_bcd
    ∷ row 0x73 5 1 df_bcd
    ∷ row 0x74 5 1 df_bcd
    ∷ row 0x75 3 0 df_bcd
    ∷ row 0x76 3 0 df_bcd
    ∷ row 0x77 6 2 df_bcd
    ∷ row 0x78 6 2 df_bcd
    ∷ row 0x79 5 2 df_bcd
    ∷ row 0x7A 5 2 df_bcd
    ∷ row 0x7B 7 4 df_bcd
    ∷ row 0x7C 7 4 df_bcd
    ∷ row 0x7D 6 4 df_bcd
    ∷ row 0x7E 6 4 df_bcd
    ∷ row 0x7F 5 2 df_bcd
    ∷ row 0x80 5 2 df_bcd
    ∷ row 0x81 7 5 df_bcd
    ∷ row 0x82 7 5 df_bcd
    ∷ row 0x83 7 5 df_bcd
    ∷ row 0x84 7 5 df_bcd
    ∷ row 0x85 7 5 df_bcd
    ∷ row 0x86 7 5 df_bcd
    ∷ row 0x87 7 5 df_bcd
    ∷ row 0x88 7 5 df_bcd
    ∷ row 0x89 4 2 df_bcd
    ∷ row 0x8A 4 2 df_bcd
    ∷ row 0x8B 4 2 df_bcd
    ∷ row 0x8C 4 2 df_bcd
    ∷ row 0x8D 11 3 df_bcd
    ∷ row 0x8E 11 3 df_bcd
    ∷ row 0x8F 11 3 df_bcd
    ∷ row 0x90 11 3 df_bcd
    ∷ row 0x91 11 3 df_bcd
    ∷ row 0x92 11 3 df_bcd
    ∷ row 0x93 11 3 df_bcd
    ∷ row 0x94 11 3 df_bcd
    ∷ row 0x95 11 3 df_bcd
    ∷ row 0x96 11 3 df_bcd
    ∷ row 0x97 0 0 df_bcd
    ∷ row 0x98 0 0 df_bcd
    ∷ row 0x99 11 3 df_bcd
    ∷ row 0x9A 11 3 df_bcd
    ∷ row 0x9B 11 3 df_bcd
    ∷ row 0x9C 11 3 df_bcd
    ∷ row 0x9D 11 3 df_bcd
    ∷ row 0x9E 11 3 df_bcd
    ∷ row 0x9F 11 3 df_bcd
    ∷ row 0xA0 11 3 df_bcd
    ∷ row 0xA1 11 3 df_bcd
    ∷ row 0xA2 11 3 df_bcd
    ∷ row 0xA3 11 3 df_bcd
    ∷ row 0xA4 11 3 df_bcd
    ∷ row 0xA5 11 3 df_bcd
    ∷ row 0xA6 11 3 df_bcd
    ∷ row 0xA7 11 3 df_bcd
    ∷ row 0xA8 11 3 df_bcd
    ∷ row 0xFF01 4 0 df_bcd
    ∷ []
