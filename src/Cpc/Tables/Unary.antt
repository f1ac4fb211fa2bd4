-- ===== src/Cpc/Tables/Unary.antt =====
-- The length-limited unary code, from cpc/include/compression_data.hpp.
use whylogs_datasketches.Base.{ℕ, List, [], ◌∷◌}

abbrev pub length_limited_unary_encoding_table65 : List ℕ
length_limited_unary_encoding_table65 =
    0x1000 ∷ 0x2001 ∷ 0x3003 ∷ 0x4007 ∷ 0x500f ∷ 0x701f ∷ 0x805f ∷ 0x80df ∷ 0xa03f ∷ 0xa23f ∷ 0xb13f
    ∷ 0xc53f ∷ 0xcd3f ∷ 0xc33f ∷ 0xcb3f ∷ 0xc73f ∷ 0xcf3f ∷ 0xc0bf ∷ 0xc8bf ∷ 0xc4bf ∷ 0xccbf
    ∷ 0xc2bf ∷ 0xcabf ∷ 0xc6bf ∷ 0xcebf ∷ 0xc1bf ∷ 0xc9bf ∷ 0xc5bf ∷ 0xcdbf ∷ 0xc3bf ∷ 0xcbbf
    ∷ 0xc7bf ∷ 0xcfbf ∷ 0xc07f ∷ 0xc87f ∷ 0xc47f ∷ 0xcc7f ∷ 0xc27f ∷ 0xca7f ∷ 0xc67f ∷ 0xce7f
    ∷ 0xc17f ∷ 0xc97f ∷ 0xc57f ∷ 0xcd7f ∷ 0xc37f ∷ 0xcb7f ∷ 0xc77f ∷ 0xcf7f ∷ 0xc0ff ∷ 0xc8ff
    ∷ 0xc4ff ∷ 0xccff ∷ 0xc2ff ∷ 0xcaff ∷ 0xc6ff ∷ 0xceff ∷ 0xc1ff ∷ 0xc9ff ∷ 0xc5ff ∷ 0xcdff
    ∷ 0xc3ff ∷ 0xcbff ∷ 0xc7ff ∷ 0xcfff ∷ []
