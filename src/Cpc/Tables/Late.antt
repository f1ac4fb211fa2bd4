-- ===== src/Cpc/Tables/Late.antt =====
-- The code tables of the last eight phases of the steady state, from cpc/include/compression_data.hpp.
use whylogs_datasketches.Base.{ℕ, List, [], ◌∷◌}

abbrev pub steady_table_8 : List ℕ
steady_table_8 =
    0x7033 ∷ 0x4006 ∷ 0x601d ∷ 0x2000 ∷ 0x7073 ∷ 0x400e ∷ 0x603d ∷ 0x3002 ∷ 0x807b ∷ 0x5005 ∷ 0x700b
    ∷ 0x4001 ∷ 0x9097 ∷ 0x5015 ∷ 0x80fb ∷ 0x4009 ∷ 0xa0f7 ∷ 0x6003 ∷ 0x8007 ∷ 0x500d ∷ 0xa2f7
    ∷ 0x704b ∷ 0x9197 ∷ 0x6023 ∷ 0xb34f ∷ 0x8087 ∷ 0xa1f7 ∷ 0x702b ∷ 0xb74f ∷ 0x8047 ∷ 0xa3f7
    ∷ 0x706b ∷ 0xb0cf ∷ 0x701b ∷ 0x9057 ∷ 0x6013 ∷ 0xb4cf ∷ 0x80c7 ∷ 0xa00f ∷ 0x705b ∷ 0xc72f
    ∷ 0x9157 ∷ 0xb2cf ∷ 0x8027 ∷ 0xcf2f ∷ 0x90d7 ∷ 0xb6cf ∷ 0x80a7 ∷ 0xc0af ∷ 0xa20f ∷ 0xc8af
    ∷ 0x91d7 ∷ 0xc4af ∷ 0xa10f ∷ 0xccaf ∷ 0x9037 ∷ 0xc2af ∷ 0xcaaf ∷ 0xc6af ∷ 0xb1cf ∷ 0xceaf
    ∷ 0xc1af ∷ 0xc9af ∷ 0xb5cf ∷ 0xc5af ∷ 0x8067 ∷ 0xa30f ∷ 0x703b ∷ 0xcdaf ∷ 0x9137 ∷ 0xb3cf
    ∷ 0x80e7 ∷ 0xc3af ∷ 0xa08f ∷ 0xcbaf ∷ 0x90b7 ∷ 0xc7af ∷ 0xa28f ∷ 0xcfaf ∷ 0x91b7 ∷ 0xc06f
    ∷ 0xb7cf ∷ 0xc86f ∷ 0xa18f ∷ 0xc46f ∷ 0xb02f ∷ 0xcc6f ∷ 0xa38f ∷ 0xc26f ∷ 0xca6f ∷ 0xc66f
    ∷ 0xce6f ∷ 0xc16f ∷ 0xc96f ∷ 0xc56f ∷ 0xcd6f ∷ 0xc36f ∷ 0xcb6f ∷ 0xc76f ∷ 0xb42f ∷ 0xcf6f
    ∷ 0xc0ef ∷ 0xc8ef ∷ 0xb22f ∷ 0xc4ef ∷ 0xccef ∷ 0xc2ef ∷ 0xcaef ∷ 0xc6ef ∷ 0xceef ∷ 0xc1ef
    ∷ 0xc9ef ∷ 0xc5ef ∷ 0xcdef ∷ 0xc3ef ∷ 0xcbef ∷ 0xc7ef ∷ 0xcfef ∷ 0xc01f ∷ 0xc81f ∷ 0xc41f
    ∷ 0xcc1f ∷ 0xc21f ∷ 0xca1f ∷ 0xc61f ∷ 0xce1f ∷ 0xc11f ∷ 0xc91f ∷ 0xc51f ∷ 0x9077 ∷ 0xcd1f
    ∷ 0x8017 ∷ 0xc31f ∷ 0xa04f ∷ 0xcb1f ∷ 0x9177 ∷ 0xc71f ∷ 0xb62f ∷ 0xcf1f ∷ 0xa24f ∷ 0xc09f
    ∷ 0xb12f ∷ 0xc89f ∷ 0xa14f ∷ 0xc49f ∷ 0xcc9f ∷ 0xc29f ∷ 0xb52f ∷ 0xca9f ∷ 0xc69f ∷ 0xce9f
    ∷ 0xb32f ∷ 0xc19f ∷ 0xc99f ∷ 0xc59f ∷ 0xcd9f ∷ 0xc39f ∷ 0xcb9f ∷ 0xc79f ∷ 0xcf9f ∷ 0xc05f
    ∷ 0xc85f ∷ 0xc45f ∷ 0xcc5f ∷ 0xc25f ∷ 0xca5f ∷ 0xc65f ∷ 0xce5f ∷ 0xc15f ∷ 0xc95f ∷ 0xc55f
    ∷ 0xcd5f ∷ 0xc35f ∷ 0xcb5f ∷ 0xc75f ∷ 0xcf5f ∷ 0xc0df ∷ 0xc8df ∷ 0xc4df ∷ 0xccdf ∷ 0xc2df
    ∷ 0xcadf ∷ 0xc6df ∷ 0xcedf ∷ 0xc1df ∷ 0xc9df ∷ 0xc5df ∷ 0xcddf ∷ 0xc3df ∷ 0xcbdf ∷ 0xc7df
    ∷ 0xcfdf ∷ 0xc03f ∷ 0xc83f ∷ 0xc43f ∷ 0xcc3f ∷ 0xc23f ∷ 0xca3f ∷ 0xc63f ∷ 0xce3f ∷ 0xc13f
    ∷ 0xc93f ∷ 0xc53f ∷ 0xcd3f ∷ 0xc33f ∷ 0xcb3f ∷ 0xc73f ∷ 0xcf3f ∷ 0xc0bf ∷ 0xc8bf ∷ 0xc4bf
    ∷ 0xccbf ∷ 0xc2bf ∷ 0xcabf ∷ 0xc6bf ∷ 0xcebf ∷ 0xc1bf ∷ 0xc9bf ∷ 0xc5bf ∷ 0xcdbf ∷ 0xc3bf
    ∷ 0xcbbf ∷ 0xc7bf ∷ 0xcfbf ∷ 0xc07f ∷ 0xc87f ∷ 0xc47f ∷ 0xcc7f ∷ 0xc27f ∷ 0xca7f ∷ 0xc67f
    ∷ 0xce7f ∷ 0xc17f ∷ 0xc97f ∷ 0xc57f ∷ 0xcd7f ∷ 0xc37f ∷ 0xcb7f ∷ 0xc77f ∷ 0xcf7f ∷ 0xc0ff
    ∷ 0xc8ff ∷ 0xc4ff ∷ 0xccff ∷ 0xc2ff ∷ 0xcaff ∷ 0xc6ff ∷ 0xceff ∷ 0xc1ff ∷ 0xc9ff ∷ 0xc5ff
    ∷ 0xcdff ∷ 0xc3ff ∷ 0xcbff ∷ 0xc7ff ∷ 0xcfff ∷ []

abbrev pub steady_table_9 : List ℕ
steady_table_9 =
    0x7033 ∷ 0x4006 ∷ 0x601d ∷ 0x2000 ∷ 0x7073 ∷ 0x400e ∷ 0x603d ∷ 0x3002 ∷ 0x9097 ∷ 0x5005 ∷ 0x700b
    ∷ 0x4001 ∷ 0x9197 ∷ 0x6003 ∷ 0x807b ∷ 0x4009 ∷ 0xa0f7 ∷ 0x6023 ∷ 0x80fb ∷ 0x5015 ∷ 0xa2f7
    ∷ 0x704b ∷ 0x9057 ∷ 0x500d ∷ 0xb34f ∷ 0x8007 ∷ 0xa1f7 ∷ 0x702b ∷ 0xc72f ∷ 0x8087 ∷ 0xa3f7
    ∷ 0x706b ∷ 0xb74f ∷ 0x701b ∷ 0x9157 ∷ 0x6013 ∷ 0xb0cf ∷ 0x8047 ∷ 0xa00f ∷ 0x705b ∷ 0xcf2f
    ∷ 0x90d7 ∷ 0xb4cf ∷ 0x80c7 ∷ 0xc0af ∷ 0x91d7 ∷ 0xb2cf ∷ 0x8027 ∷ 0xc8af ∷ 0xa20f ∷ 0xc4af
    ∷ 0x9037 ∷ 0xccaf ∷ 0xa10f ∷ 0xc2af ∷ 0x9137 ∷ 0xcaaf ∷ 0xc6af ∷ 0xceaf ∷ 0xa30f ∷ 0xc1af
    ∷ 0xc9af ∷ 0xc5af ∷ 0xb6cf ∷ 0xcdaf ∷ 0x80a7 ∷ 0xb1cf ∷ 0x703b ∷ 0xc3af ∷ 0x90b7 ∷ 0xb5cf
    ∷ 0x8067 ∷ 0xcbaf ∷ 0xa08f ∷ 0xc7af ∷ 0x91b7 ∷ 0xcfaf ∷ 0xa28f ∷ 0xc06f ∷ 0x9077 ∷ 0xc86f
    ∷ 0xb3cf ∷ 0xc46f ∷ 0xa18f ∷ 0xcc6f ∷ 0xb7cf ∷ 0xc26f ∷ 0xa38f ∷ 0xca6f ∷ 0xc66f ∷ 0xce6f
    ∷ 0xb02f ∷ 0xc16f ∷ 0xc96f ∷ 0xc56f ∷ 0xcd6f ∷ 0xc36f ∷ 0xcb6f ∷ 0xc76f ∷ 0xb42f ∷ 0xcf6f
    ∷ 0xc0ef ∷ 0xc8ef ∷ 0xb22f ∷ 0xc4ef ∷ 0xccef ∷ 0xc2ef ∷ 0xcaef ∷ 0xc6ef ∷ 0xceef ∷ 0xc1ef
    ∷ 0xc9ef ∷ 0xc5ef ∷ 0xcdef ∷ 0xc3ef ∷ 0xcbef ∷ 0xc7ef ∷ 0xcfef ∷ 0xc01f ∷ 0xc81f ∷ 0xc41f
    ∷ 0xcc1f ∷ 0xc21f ∷ 0xca1f ∷ 0xc61f ∷ 0xce1f ∷ 0xc11f ∷ 0xc91f ∷ 0xc51f ∷ 0x9177 ∷ 0xcd1f
    ∷ 0x80e7 ∷ 0xc31f ∷ 0xa04f ∷ 0xcb1f ∷ 0x8017 ∷ 0xc71f ∷ 0xb62f ∷ 0xcf1f ∷ 0xa24f ∷ 0xc09f
    ∷ 0xb12f ∷ 0xc89f ∷ 0xa14f ∷ 0xc49f ∷ 0xcc9f ∷ 0xc29f ∷ 0xb52f ∷ 0xca9f ∷ 0xc69f ∷ 0xce9f
    ∷ 0xb32f ∷ 0xc19f ∷ 0xc99f ∷ 0xc59f ∷ 0xcd9f ∷ 0xc39f ∷ 0xcb9f ∷ 0xc79f ∷ 0xcf9f ∷ 0xc05f
    ∷ 0xc85f ∷ 0xc45f ∷ 0xcc5f ∷ 0xc25f ∷ 0xca5f ∷ 0xc65f ∷ 0xce5f ∷ 0xc15f ∷ 0xc95f ∷ 0xc55f
    ∷ 0xcd5f ∷ 0xc35f ∷ 0xcb5f ∷ 0xc75f ∷ 0xcf5f ∷ 0xc0df ∷ 0xc8df ∷ 0xc4df ∷ 0xccdf ∷ 0xc2df
    ∷ 0xcadf ∷ 0xc6df ∷ 0xcedf ∷ 0xc1df ∷ 0xc9df ∷ 0xc5df ∷ 0xcddf ∷ 0xc3df ∷ 0xcbdf ∷ 0xc7df
    ∷ 0xcfdf ∷ 0xc03f ∷ 0xc83f ∷ 0xc43f ∷ 0xcc3f ∷ 0xc23f ∷ 0xca3f ∷ 0xc63f ∷ 0xce3f ∷ 0xc13f
    ∷ 0xc93f ∷ 0xc53f ∷ 0xcd3f ∷ 0xc33f ∷ 0xcb3f ∷ 0xc73f ∷ 0xcf3f ∷ 0xc0bf ∷ 0xc8bf ∷ 0xc4bf
    ∷ 0xccbf ∷ 0xc2bf ∷ 0xcabf ∷ 0xc6bf ∷ 0xcebf ∷ 0xc1bf ∷ 0xc9bf ∷ 0xc5bf ∷ 0xcdbf ∷ 0xc3bf
    ∷ 0xcbbf ∷ 0xc7bf ∷ 0xcfbf ∷ 0xc07f ∷ 0xc87f ∷ 0xc47f ∷ 0xcc7f ∷ 0xc27f ∷ 0xca7f ∷ 0xc67f
    ∷ 0xce7f ∷ 0xc17f ∷ 0xc97f ∷ 0xc57f ∷ 0xcd7f ∷ 0xc37f ∷ 0xcb7f ∷ 0xc77f ∷ 0xcf7f ∷ 0xc0ff
    ∷ 0xc8ff ∷ 0xc4ff ∷ 0xccff ∷ 0xc2ff ∷ 0xcaff ∷ 0xc6ff ∷ 0xceff ∷ 0xc1ff ∷ 0xc9ff ∷ 0xc5ff
    ∷ 0xcdff ∷ 0xc3ff ∷ 0xcbff ∷ 0xc7ff ∷ 0xcfff ∷ []

abbrev pub steady_table_10 : List ℕ
steady_table_10 =
    0x700b ∷ 0x4006 ∷ 0x601d ∷ 0x2000 ∷ 0x807b ∷ 0x400e ∷ 0x603d ∷ 0x3002 ∷ 0x9017 ∷ 0x5005 ∷ 0x704b
    ∷ 0x4001 ∷ 0x9117 ∷ 0x6003 ∷ 0x80fb ∷ 0x4009 ∷ 0xa177 ∷ 0x6023 ∷ 0x9097 ∷ 0x5015 ∷ 0xa377
    ∷ 0x702b ∷ 0x9197 ∷ 0x500d ∷ 0xb34f ∷ 0x8007 ∷ 0xa0f7 ∷ 0x706b ∷ 0xc0af ∷ 0x8087 ∷ 0xa2f7
    ∷ 0x701b ∷ 0xb74f ∷ 0x8047 ∷ 0xa1f7 ∷ 0x6013 ∷ 0xb0cf ∷ 0x80c7 ∷ 0xa3f7 ∷ 0x6033 ∷ 0xc8af
    ∷ 0x9057 ∷ 0xb4cf ∷ 0x8027 ∷ 0xc4af ∷ 0x9157 ∷ 0xb2cf ∷ 0x80a7 ∷ 0xccaf ∷ 0xa00f ∷ 0xc2af
    ∷ 0x90d7 ∷ 0xcaaf ∷ 0xa20f ∷ 0xc6af ∷ 0x91d7 ∷ 0xceaf ∷ 0xb6cf ∷ 0xc1af ∷ 0xa10f ∷ 0xc9af
    ∷ 0xc5af ∷ 0xcdaf ∷ 0xa30f ∷ 0xc3af ∷ 0x9037 ∷ 0xb1cf ∷ 0x705b ∷ 0xcbaf ∷ 0x9137 ∷ 0xb5cf
    ∷ 0x703b ∷ 0xc7af ∷ 0xa08f ∷ 0xcfaf ∷ 0x90b7 ∷ 0xc06f ∷ 0xa28f ∷ 0xc86f ∷ 0x91b7 ∷ 0xc46f
    ∷ 0xb3cf ∷ 0xcc6f ∷ 0xa18f ∷ 0xc26f ∷ 0xb7cf ∷ 0xca6f ∷ 0xa38f ∷ 0xc66f ∷ 0xce6f ∷ 0xc16f
    ∷ 0xb02f ∷ 0xc96f ∷ 0xc56f ∷ 0xcd6f ∷ 0xb42f ∷ 0xc36f ∷ 0xcb6f ∷ 0xc76f ∷ 0xb22f ∷ 0xcf6f
    ∷ 0xc0ef ∷ 0xc8ef ∷ 0xb62f ∷ 0xc4ef ∷ 0xccef ∷ 0xc2ef ∷ 0xcaef ∷ 0xc6ef ∷ 0xceef ∷ 0xc1ef
    ∷ 0xc9ef ∷ 0xc5ef ∷ 0xcdef ∷ 0xc3ef ∷ 0xcbef ∷ 0xc7ef ∷ 0xcfef ∷ 0xc01f ∷ 0xc81f ∷ 0xc41f
    ∷ 0xcc1f ∷ 0xc21f ∷ 0xca1f ∷ 0xc61f ∷ 0xce1f ∷ 0xc11f ∷ 0xc91f ∷ 0xc51f ∷ 0x9077 ∷ 0xcd1f
    ∷ 0x8067 ∷ 0xc31f ∷ 0xa04f ∷ 0xcb1f ∷ 0x80e7 ∷ 0xc71f ∷ 0xb12f ∷ 0xcf1f ∷ 0xa24f ∷ 0xc09f
    ∷ 0xb52f ∷ 0xc89f ∷ 0xa14f ∷ 0xc49f ∷ 0xcc9f ∷ 0xc29f ∷ 0xb32f ∷ 0xca9f ∷ 0xc69f ∷ 0xce9f
    ∷ 0xb72f ∷ 0xc19f ∷ 0xc99f ∷ 0xc59f ∷ 0xcd9f ∷ 0xc39f ∷ 0xcb9f ∷ 0xc79f ∷ 0xcf9f ∷ 0xc05f
    ∷ 0xc85f ∷ 0xc45f ∷ 0xcc5f ∷ 0xc25f ∷ 0xca5f ∷ 0xc65f ∷ 0xce5f ∷ 0xc15f ∷ 0xc95f ∷ 0xc55f
    ∷ 0xcd5f ∷ 0xc35f ∷ 0xcb5f ∷ 0xc75f ∷ 0xcf5f ∷ 0xc0df ∷ 0xc8df ∷ 0xc4df ∷ 0xccdf ∷ 0xc2df
    ∷ 0xcadf ∷ 0xc6df ∷ 0xcedf ∷ 0xc1df ∷ 0xc9df ∷ 0xc5df ∷ 0xcddf ∷ 0xc3df ∷ 0xcbdf ∷ 0xc7df
    ∷ 0xcfdf ∷ 0xc03f ∷ 0xc83f ∷ 0xc43f ∷ 0xcc3f ∷ 0xc23f ∷ 0xca3f ∷ 0xc63f ∷ 0xce3f ∷ 0xc13f
    ∷ 0xc93f ∷ 0xc53f ∷ 0xcd3f ∷ 0xc33f ∷ 0xcb3f ∷ 0xc73f ∷ 0xcf3f ∷ 0xc0bf ∷ 0xc8bf ∷ 0xc4bf
    ∷ 0xccbf ∷ 0xc2bf ∷ 0xcabf ∷ 0xc6bf ∷ 0xcebf ∷ 0xc1bf ∷ 0xc9bf ∷ 0xc5bf ∷ 0xcdbf ∷ 0xc3bf
    ∷ 0xcbbf ∷ 0xc7bf ∷ 0xcfbf ∷ 0xc07f ∷ 0xc87f ∷ 0xc47f ∷ 0xcc7f ∷ 0xc27f ∷ 0xca7f ∷ 0xc67f
    ∷ 0xce7f ∷ 0xc17f ∷ 0xc97f ∷ 0xc57f ∷ 0xcd7f ∷ 0xc37f ∷ 0xcb7f ∷ 0xc77f ∷ 0xcf7f ∷ 0xc0ff
    ∷ 0xc8ff ∷ 0xc4ff ∷ 0xccff ∷ 0xc2ff ∷ 0xcaff ∷ 0xc6ff ∷ 0xceff ∷ 0xc1ff ∷ 0xc9ff ∷ 0xc5ff
    ∷ 0xcdff ∷ 0xc3ff ∷ 0xcbff ∷ 0xc7ff ∷ 0xcfff ∷ []

abbrev pub steady_table_11 : List ℕ
steady_table_11 =
    0x803b ∷ 0x4006 ∷ 0x601d ∷ 0x2000 ∷ 0x80bb ∷ 0x400e ∷ 0x603d ∷ 0x3002 ∷ 0x9017 ∷ 0x5005 ∷ 0x807b
    ∷ 0x4001 ∷ 0x9117 ∷ 0x6003 ∷ 0x80fb ∷ 0x4009 ∷ 0xa177 ∷ 0x6023 ∷ 0x9097 ∷ 0x5015 ∷ 0xa377
    ∷ 0x702b ∷ 0x9197 ∷ 0x500d ∷ 0xb34f ∷ 0x8007 ∷ 0xa0f7 ∷ 0x6013 ∷ 0xc0af ∷ 0x8087 ∷ 0xa2f7
    ∷ 0x706b ∷ 0xb74f ∷ 0x8047 ∷ 0xa1f7 ∷ 0x6033 ∷ 0xb0cf ∷ 0x80c7 ∷ 0xa3f7 ∷ 0x600b ∷ 0xc8af
    ∷ 0x9057 ∷ 0xb4cf ∷ 0x8027 ∷ 0xc4af ∷ 0x9157 ∷ 0xb2cf ∷ 0x80a7 ∷ 0xccaf ∷ 0xa00f ∷ 0xc2af
    ∷ 0x90d7 ∷ 0xcaaf ∷ 0xa20f ∷ 0xc6af ∷ 0x91d7 ∷ 0xceaf ∷ 0xb6cf ∷ 0xc1af ∷ 0xa10f ∷ 0xc9af
    ∷ 0xc5af ∷ 0xcdaf ∷ 0xa30f ∷ 0xc3af ∷ 0x9037 ∷ 0xb1cf ∷ 0x701b ∷ 0xcbaf ∷ 0x9137 ∷ 0xb5cf
    ∷ 0x705b ∷ 0xc7af ∷ 0xa08f ∷ 0xcfaf ∷ 0x90b7 ∷ 0xc06f ∷ 0xa28f ∷ 0xc86f ∷ 0x91b7 ∷ 0xc46f
    ∷ 0xb3cf ∷ 0xcc6f ∷ 0xa18f ∷ 0xc26f ∷ 0xb7cf ∷ 0xca6f ∷ 0xa38f ∷ 0xc66f ∷ 0xce6f ∷ 0xc16f
    ∷ 0xb02f ∷ 0xc96f ∷ 0xc56f ∷ 0xcd6f ∷ 0xb42f ∷ 0xc36f ∷ 0xcb6f ∷ 0xc76f ∷ 0xb22f ∷ 0xcf6f
    ∷ 0xc0ef ∷ 0xc8ef ∷ 0xb62f ∷ 0xc4ef ∷ 0xccef ∷ 0xc2ef ∷ 0xcaef ∷ 0xc6ef ∷ 0xceef ∷ 0xc1ef
    ∷ 0xc9ef ∷ 0xc5ef ∷ 0xcdef ∷ 0xc3ef ∷ 0xcbef ∷ 0xc7ef ∷ 0xcfef ∷ 0xc01f ∷ 0xc81f ∷ 0xc41f
    ∷ 0xcc1f ∷ 0xc21f ∷ 0xca1f ∷ 0xc61f ∷ 0xce1f ∷ 0xc11f ∷ 0xc91f ∷ 0xc51f ∷ 0xa04f ∷ 0xcd1f
    ∷ 0x8067 ∷ 0xc31f ∷ 0xa24f ∷ 0xcb1f ∷ 0x80e7 ∷ 0xc71f ∷ 0xb12f ∷ 0xcf1f ∷ 0x9077 ∷ 0xc09f
    ∷ 0xb52f ∷ 0xc89f ∷ 0xa14f ∷ 0xc49f ∷ 0xcc9f ∷ 0xc29f ∷ 0xb32f ∷ 0xca9f ∷ 0xc69f ∷ 0xce9f
    ∷ 0xb72f ∷ 0xc19f ∷ 0xc99f ∷ 0xc59f ∷ 0xcd9f ∷ 0xc39f ∷ 0xcb9f ∷ 0xc79f ∷ 0xcf9f ∷ 0xc05f
    ∷ 0xc85f ∷ 0xc45f ∷ 0xcc5f ∷ 0xc25f ∷ 0xca5f ∷ 0xc65f ∷ 0xce5f ∷ 0xc15f ∷ 0xc95f ∷ 0xc55f
    ∷ 0xcd5f ∷ 0xc35f ∷ 0xcb5f ∷ 0xc75f ∷ 0xcf5f ∷ 0xc0df ∷ 0xc8df ∷ 0xc4df ∷ 0xccdf ∷ 0xc2df
    ∷ 0xcadf ∷ 0xc6df ∷ 0xcedf ∷ 0xc1df ∷ 0xc9df ∷ 0xc5df ∷ 0xcddf ∷ 0xc3df ∷ 0xcbdf ∷ 0xc7df
    ∷ 0xcfdf ∷ 0xc03f ∷ 0xc83f ∷ 0xc43f ∷ 0xcc3f ∷ 0xc23f ∷ 0xca3f ∷ 0xc63f ∷ 0xce3f ∷ 0xc13f
    ∷ 0xc93f ∷ 0xc53f ∷ 0xcd3f ∷ 0xc33f ∷ 0xcb3f ∷ 0xc73f ∷ 0xcf3f ∷ 0xc0bf ∷ 0xc8bf ∷ 0xc4bf
    ∷ 0xccbf ∷ 0xc2bf ∷ 0xcabf ∷ 0xc6bf ∷ 0xcebf ∷ 0xc1bf ∷ 0xc9bf ∷ 0xc5bf ∷ 0xcdbf ∷ 0xc3bf
    ∷ 0xcbbf ∷ 0xc7bf ∷ 0xcfbf ∷ 0xc07f ∷ 0xc87f ∷ 0xc47f ∷ 0xcc7f ∷ 0xc27f ∷ 0xca7f ∷ 0xc67f
    ∷ 0xce7f ∷ 0xc17f ∷ 0xc97f ∷ 0xc57f ∷ 0xcd7f ∷ 0xc37f ∷ 0xcb7f ∷ 0xc77f ∷ 0xcf7f ∷ 0xc0ff
    ∷ 0xc8ff ∷ 0xc4ff ∷ 0xccff ∷ 0xc2ff ∷ 0xcaff ∷ 0xc6ff ∷ 0xceff ∷ 0xc1ff ∷ 0xc9ff ∷ 0xc5ff
    ∷ 0xcdff ∷ 0xc3ff ∷ 0xcbff ∷ 0xc7ff ∷ 0xcfff ∷ []

abbrev pub steady_table_12 : List ℕ
steady_table_12 =
    0x807b ∷ 0x4006 ∷ 0x601d ∷ 0x2000 ∷ 0x80fb ∷ 0x400e ∷ 0x700b ∷ 0x3002 ∷ 0x9097 ∷ 0x5005 ∷ 0x8007
    ∷ 0x4001 ∷ 0x9197 ∷ 0x603d ∷ 0x8087 ∷ 0x4009 ∷ 0xa177 ∷ 0x704b ∷ 0x9057 ∷ 0x5015 ∷ 0xb34f
    ∷ 0x702b ∷ 0x9157 ∷ 0x500d ∷ 0xc72f ∷ 0x8047 ∷ 0xa377 ∷ 0x6003 ∷ 0xcf2f ∷ 0x80c7 ∷ 0xa0f7
    ∷ 0x6023 ∷ 0xc0af ∷ 0x8027 ∷ 0xa2f7 ∷ 0x6013 ∷ 0xc8af ∷ 0x80a7 ∷ 0xa1f7 ∷ 0x6033 ∷ 0xc4af
    ∷ 0x90d7 ∷ 0xb74f ∷ 0x706b ∷ 0xccaf ∷ 0x91d7 ∷ 0xb0cf ∷ 0x701b ∷ 0xc2af ∷ 0xa3f7 ∷ 0xcaaf
    ∷ 0x9037 ∷ 0xc6af ∷ 0xa00f ∷ 0xceaf ∷ 0x9137 ∷ 0xc1af ∷ 0xb4cf ∷ 0xc9af ∷ 0xa20f ∷ 0xc5af
    ∷ 0xb2cf ∷ 0xcdaf ∷ 0xa10f ∷ 0xc3af ∷ 0x90b7 ∷ 0xb6cf ∷ 0x705b ∷ 0xcbaf ∷ 0x91b7 ∷ 0xb1cf
    ∷ 0x703b ∷ 0xc7af ∷ 0xa30f ∷ 0xcfaf ∷ 0x8067 ∷ 0xc06f ∷ 0xa08f ∷ 0xc86f ∷ 0x9077 ∷ 0xc46f
    ∷ 0xb5cf ∷ 0xcc6f ∷ 0xa28f ∷ 0xc26f ∷ 0xb3cf ∷ 0xca6f ∷ 0xa18f ∷ 0xc66f ∷ 0xce6f ∷ 0xc16f
    ∷ 0xb7cf ∷ 0xc96f ∷ 0xc56f ∷ 0xcd6f ∷ 0xb02f ∷ 0xc36f ∷ 0xcb6f ∷ 0xc76f ∷ 0xb42f ∷ 0xcf6f
    ∷ 0xc0ef ∷ 0xc8ef ∷ 0xb22f ∷ 0xc4ef ∷ 0xccef ∷ 0xc2ef ∷ 0xcaef ∷ 0xc6ef ∷ 0xceef ∷ 0xc1ef
    ∷ 0xc9ef ∷ 0xc5ef ∷ 0xcdef ∷ 0xc3ef ∷ 0xcbef ∷ 0xc7ef ∷ 0xcfef ∷ 0xc01f ∷ 0xc81f ∷ 0xc41f
    ∷ 0xcc1f ∷ 0xc21f ∷ 0xca1f ∷ 0xc61f ∷ 0xce1f ∷ 0xc11f ∷ 0xc91f ∷ 0xc51f ∷ 0xa38f ∷ 0xcd1f
    ∷ 0x80e7 ∷ 0xc31f ∷ 0xa04f ∷ 0xcb1f ∷ 0x8017 ∷ 0xc71f ∷ 0xb62f ∷ 0xcf1f ∷ 0xa24f ∷ 0xc09f
    ∷ 0xb12f ∷ 0xc89f ∷ 0xa14f ∷ 0xc49f ∷ 0xcc9f ∷ 0xc29f ∷ 0xb52f ∷ 0xca9f ∷ 0xc69f ∷ 0xce9f
    ∷ 0xb32f ∷ 0xc19f ∷ 0xc99f ∷ 0xc59f ∷ 0xcd9f ∷ 0xc39f ∷ 0xcb9f ∷ 0xc79f ∷ 0xcf9f ∷ 0xc05f
    ∷ 0xc85f ∷ 0xc45f ∷ 0xcc5f ∷ 0xc25f ∷ 0xca5f ∷ 0xc65f ∷ 0xce5f ∷ 0xc15f ∷ 0xc95f ∷ 0xc55f
    ∷ 0xcd5f ∷ 0xc35f ∷ 0xcb5f ∷ 0xc75f ∷ 0xcf5f ∷ 0xc0df ∷ 0xc8df ∷ 0xc4df ∷ 0xccdf ∷ 0xc2df
    ∷ 0xcadf ∷ 0xc6df ∷ 0xcedf ∷ 0xc1df ∷ 0xc9df ∷ 0xc5df ∷ 0xcddf ∷ 0xc3df ∷ 0xcbdf ∷ 0xc7df
    ∷ 0xcfdf ∷ 0xc03f ∷ 0xc83f ∷ 0xc43f ∷ 0xcc3f ∷ 0xc23f ∷ 0xca3f ∷ 0xc63f ∷ 0xce3f ∷ 0xc13f
    ∷ 0xc93f ∷ 0xc53f ∷ 0xcd3f ∷ 0xc33f ∷ 0xcb3f ∷ 0xc73f ∷ 0xcf3f ∷ 0xc0bf ∷ 0xc8bf ∷ 0xc4bf
    ∷ 0xccbf ∷ 0xc2bf ∷ 0xcabf ∷ 0xc6bf ∷ 0xcebf ∷ 0xc1bf ∷ 0xc9bf ∷ 0xc5bf ∷ 0xcdbf ∷ 0xc3bf
    ∷ 0xcbbf ∷ 0xc7bf ∷ 0xcfbf ∷ 0xc07f ∷ 0xc87f ∷ 0xc47f ∷ 0xcc7f ∷ 0xc27f ∷ 0xca7f ∷ 0xc67f
    ∷ 0xce7f ∷ 0xc17f ∷ 0xc97f ∷ 0xc57f ∷ 0xcd7f ∷ 0xc37f ∷ 0xcb7f ∷ 0xc77f ∷ 0xcf7f ∷ 0xc0ff
    ∷ 0xc8ff ∷ 0xc4ff ∷ 0xccff ∷ 0xc2ff ∷ 0xcaff ∷ 0xc6ff ∷ 0xceff ∷ 0xc1ff ∷ 0xc9ff ∷ 0xc5ff
    ∷ 0xcdff ∷ 0xc3ff ∷ 0xcbff ∷ 0xc7ff ∷ 0xcfff ∷ []

abbrev pub steady_table_13 : List ℕ
steady_table_13 =
    0x803b ∷ 0x4006 ∷ 0x7033 ∷ 0x3002 ∷ 0x80bb ∷ 0x400e ∷ 0x7073 ∷ 0x2000 ∷ 0xa0f7 ∷ 0x601d ∷ 0x807b
    ∷ 0x4001 ∷ 0xa2f7 ∷ 0x5005 ∷ 0x80fb ∷ 0x4009 ∷ 0xb34f ∷ 0x700b ∷ 0x9057 ∷ 0x5015 ∷ 0xb74f
    ∷ 0x704b ∷ 0x9157 ∷ 0x500d ∷ 0xc72f ∷ 0x8007 ∷ 0xa1f7 ∷ 0x603d ∷ 0xcf2f ∷ 0x8087 ∷ 0xa3f7
    ∷ 0x6003 ∷ 0xc0af ∷ 0x8047 ∷ 0xa00f ∷ 0x6023 ∷ 0xc8af ∷ 0x80c7 ∷ 0xa20f ∷ 0x6013 ∷ 0xc4af
    ∷ 0x90d7 ∷ 0xb0cf ∷ 0x702b ∷ 0xccaf ∷ 0x91d7 ∷ 0xb4cf ∷ 0x706b ∷ 0xc2af ∷ 0xa10f ∷ 0xcaaf
    ∷ 0x8027 ∷ 0xc6af ∷ 0xa30f ∷ 0xceaf ∷ 0x80a7 ∷ 0xc1af ∷ 0xb2cf ∷ 0xc9af ∷ 0xa08f ∷ 0xc5af
    ∷ 0xb6cf ∷ 0xcdaf ∷ 0xa28f ∷ 0xc3af ∷ 0x9037 ∷ 0xb1cf ∷ 0x701b ∷ 0xcbaf ∷ 0x9137 ∷ 0xb5cf
    ∷ 0x705b ∷ 0xc7af ∷ 0xa18f ∷ 0xcfaf ∷ 0x8067 ∷ 0xc06f ∷ 0xa38f ∷ 0xc86f ∷ 0x80e7 ∷ 0xc46f
    ∷ 0xb3cf ∷ 0xcc6f ∷ 0x90b7 ∷ 0xc26f ∷ 0xb7cf ∷ 0xca6f ∷ 0x91b7 ∷ 0xc66f ∷ 0xce6f ∷ 0xc16f
    ∷ 0xb02f ∷ 0xc96f ∷ 0xc56f ∷ 0xcd6f ∷ 0xb42f ∷ 0xc36f ∷ 0xcb6f ∷ 0xc76f ∷ 0xb22f ∷ 0xcf6f
    ∷ 0xc0ef ∷ 0xc8ef ∷ 0xb62f ∷ 0xc4ef ∷ 0xccef ∷ 0xc2ef ∷ 0xcaef ∷ 0xc6ef ∷ 0xceef ∷ 0xc1ef
    ∷ 0xc9ef ∷ 0xc5ef ∷ 0xcdef ∷ 0xc3ef ∷ 0xcbef ∷ 0xc7ef ∷ 0xcfef ∷ 0xc01f ∷ 0xc81f ∷ 0xc41f
    ∷ 0xcc1f ∷ 0xc21f ∷ 0xca1f ∷ 0xc61f ∷ 0xce1f ∷ 0xc11f ∷ 0xc91f ∷ 0xc51f ∷ 0xa04f ∷ 0xcd1f
    ∷ 0x8017 ∷ 0xc31f ∷ 0xa24f ∷ 0xcb1f ∷ 0x8097 ∷ 0xc71f ∷ 0xb12f ∷ 0xcf1f ∷ 0x9077 ∷ 0xc09f
    ∷ 0xb52f ∷ 0xc89f ∷ 0x9177 ∷ 0xc49f ∷ 0xcc9f ∷ 0xc29f ∷ 0xb32f ∷ 0xca9f ∷ 0xc69f ∷ 0xce9f
    ∷ 0xa14f ∷ 0xc19f ∷ 0xc99f ∷ 0xc59f ∷ 0xcd9f ∷ 0xc39f ∷ 0xcb9f ∷ 0xc79f ∷ 0xcf9f ∷ 0xc05f
    ∷ 0xc85f ∷ 0xc45f ∷ 0xcc5f ∷ 0xc25f ∷ 0xca5f ∷ 0xc65f ∷ 0xce5f ∷ 0xc15f ∷ 0xc95f ∷ 0xc55f
    ∷ 0xcd5f ∷ 0xc35f ∷ 0xcb5f ∷ 0xc75f ∷ 0xcf5f ∷ 0xc0df ∷ 0xc8df ∷ 0xc4df ∷ 0xccdf ∷ 0xc2df
    ∷ 0xcadf ∷ 0xc6df ∷ 0xcedf ∷ 0xc1df ∷ 0xc9df ∷ 0xc5df ∷ 0xcddf ∷ 0xc3df ∷ 0xcbdf ∷ 0xc7df
    ∷ 0xcfdf ∷ 0xc03f ∷ 0xc83f ∷ 0xc43f ∷ 0xcc3f ∷ 0xc23f ∷ 0xca3f ∷ 0xc63f ∷ 0xce3f ∷ 0xc13f
    ∷ 0xc93f ∷ 0xc53f ∷ 0xcd3f ∷ 0xc33f ∷ 0xcb3f ∷ 0xc73f ∷ 0xcf3f ∷ 0xc0bf ∷ 0xc8bf ∷ 0xc4bf
    ∷ 0xccbf ∷ 0xc2bf ∷ 0xcabf ∷ 0xc6bf ∷ 0xcebf ∷ 0xc1bf ∷ 0xc9bf ∷ 0xc5bf ∷ 0xcdbf ∷ 0xc3bf
    ∷ 0xcbbf ∷ 0xc7bf ∷ 0xcfbf ∷ 0xc07f ∷ 0xc87f ∷ 0xc47f ∷ 0xcc7f ∷ 0xc27f ∷ 0xca7f ∷ 0xc67f
    ∷ 0xce7f ∷ 0xc17f ∷ 0xc97f ∷ 0xc57f ∷ 0xcd7f ∷ 0xc37f ∷ 0xcb7f ∷ 0xc77f ∷ 0xcf7f ∷ 0xc0ff
    ∷ 0xc8ff ∷ 0xc4ff ∷ 0xccff ∷ 0xc2ff ∷ 0xcaff ∷ 0xc6ff ∷ 0xceff ∷ 0xc1ff ∷ 0xc9ff ∷ 0xc5ff
    ∷ 0xcdff ∷ 0xc3ff ∷ 0xcbff ∷ 0xc7ff ∷ 0xcfff ∷ []

abbrev pub steady_table_14 : List ℕ
steady_table_14 =
    0x9017 ∷ 0x4006 ∷ 0x7033 ∷ 0x3002 ∷ 0x9117 ∷ 0x400e ∷ 0x7073 ∷ 0x2000 ∷ 0xa177 ∷ 0x601d ∷ 0x803b
    ∷ 0x4001 ∷ 0xa377 ∷ 0x5005 ∷ 0x80bb ∷ 0x4009 ∷ 0xb0cf ∷ 0x700b ∷ 0x9097 ∷ 0x5015 ∷ 0xb4cf
    ∷ 0x704b ∷ 0x9197 ∷ 0x500d ∷ 0xc4af ∷ 0x807b ∷ 0xa0f7 ∷ 0x603d ∷ 0xccaf ∷ 0x80fb ∷ 0xa2f7
    ∷ 0x6003 ∷ 0xc2af ∷ 0x8007 ∷ 0xa1f7 ∷ 0x6023 ∷ 0xcaaf ∷ 0x8087 ∷ 0xa3f7 ∷ 0x6013 ∷ 0xc6af
    ∷ 0x9057 ∷ 0xb2cf ∷ 0x702b ∷ 0xceaf ∷ 0x9157 ∷ 0xb6cf ∷ 0x706b ∷ 0xc1af ∷ 0xa00f ∷ 0xc9af
    ∷ 0x8047 ∷ 0xc5af ∷ 0xa20f ∷ 0xcdaf ∷ 0x80c7 ∷ 0xc3af ∷ 0xb1cf ∷ 0xcbaf ∷ 0xa10f ∷ 0xc7af
    ∷ 0xb5cf ∷ 0xcfaf ∷ 0x90d7 ∷ 0xc06f ∷ 0x91d7 ∷ 0xb3cf ∷ 0x701b ∷ 0xc86f ∷ 0x9037 ∷ 0xb7cf
    ∷ 0x705b ∷ 0xc46f ∷ 0xa30f ∷ 0xcc6f ∷ 0x8027 ∷ 0xc26f ∷ 0xa08f ∷ 0xca6f ∷ 0x80a7 ∷ 0xc66f
    ∷ 0xb02f ∷ 0xce6f ∷ 0x9137 ∷ 0xc16f ∷ 0xb42f ∷ 0xc96f ∷ 0x90b7 ∷ 0xc56f ∷ 0xcd6f ∷ 0xc36f
    ∷ 0xb22f ∷ 0xcb6f ∷ 0xc76f ∷ 0xcf6f ∷ 0xa28f ∷ 0xc0ef ∷ 0xc8ef ∷ 0xc4ef ∷ 0xa18f ∷ 0xccef
    ∷ 0xc2ef ∷ 0xcaef ∷ 0xa38f ∷ 0xc6ef ∷ 0xceef ∷ 0xc1ef ∷ 0xc9ef ∷ 0xc5ef ∷ 0xcdef ∷ 0xc3ef
    ∷ 0xb62f ∷ 0xcbef ∷ 0xc7ef ∷ 0xcfef ∷ 0xc01f ∷ 0xc81f ∷ 0xc41f ∷ 0xcc1f ∷ 0xc21f ∷ 0xca1f
    ∷ 0xc61f ∷ 0xce1f ∷ 0xc11f ∷ 0xc91f ∷ 0xc51f ∷ 0xcd1f ∷ 0xc31f ∷ 0xcb1f ∷ 0xa04f ∷ 0xc71f
    ∷ 0x8067 ∷ 0xcf1f ∷ 0xa24f ∷ 0xc09f ∷ 0x80e7 ∷ 0xc89f ∷ 0xb12f ∷ 0xc49f ∷ 0x91b7 ∷ 0xcc9f
    ∷ 0xb52f ∷ 0xc29f ∷ 0x9077 ∷ 0xca9f ∷ 0xc69f ∷ 0xce9f ∷ 0xa14f ∷ 0xc19f ∷ 0xc99f ∷ 0xc59f
    ∷ 0xa34f ∷ 0xcd9f ∷ 0xc39f ∷ 0xcb9f ∷ 0xc79f ∷ 0xcf9f ∷ 0xc05f ∷ 0xc85f ∷ 0xb32f ∷ 0xc45f
    ∷ 0xcc5f ∷ 0xc25f ∷ 0xb72f ∷ 0xca5f ∷ 0xc65f ∷ 0xce5f ∷ 0xb0af ∷ 0xc15f ∷ 0xc95f ∷ 0xc55f
    ∷ 0xcd5f ∷ 0xc35f ∷ 0xcb5f ∷ 0xc75f ∷ 0xcf5f ∷ 0xc0df ∷ 0xc8df ∷ 0xc4df ∷ 0xccdf ∷ 0xc2df
    ∷ 0xcadf ∷ 0xc6df ∷ 0xcedf ∷ 0xc1df ∷ 0xc9df ∷ 0xc5df ∷ 0xcddf ∷ 0xc3df ∷ 0xcbdf ∷ 0xc7df
    ∷ 0xcfdf ∷ 0xc03f ∷ 0xc83f ∷ 0xc43f ∷ 0xcc3f ∷ 0xc23f ∷ 0xca3f ∷ 0xc63f ∷ 0xce3f ∷ 0xc13f
    ∷ 0xc93f ∷ 0xc53f ∷ 0xcd3f ∷ 0xc33f ∷ 0xcb3f ∷ 0xc73f ∷ 0xcf3f ∷ 0xc0bf ∷ 0xc8bf ∷ 0xc4bf
    ∷ 0xccbf ∷ 0xc2bf ∷ 0xcabf ∷ 0xc6bf ∷ 0xcebf ∷ 0xc1bf ∷ 0xc9bf ∷ 0xc5bf ∷ 0xcdbf ∷ 0xc3bf
    ∷ 0xcbbf ∷ 0xc7bf ∷ 0xcfbf ∷ 0xc07f ∷ 0xc87f ∷ 0xc47f ∷ 0xcc7f ∷ 0xc27f ∷ 0xca7f ∷ 0xc67f
    ∷ 0xce7f ∷ 0xc17f ∷ 0xc97f ∷ 0xc57f ∷ 0xcd7f ∷ 0xc37f ∷ 0xcb7f ∷ 0xc77f ∷ 0xcf7f ∷ 0xc0ff
    ∷ 0xc8ff ∷ 0xc4ff ∷ 0xccff ∷ 0xc2ff ∷ 0xcaff ∷ 0xc6ff ∷ 0xceff ∷ 0xc1ff ∷ 0xc9ff ∷ 0xc5ff
    ∷ 0xcdff ∷ 0xc3ff ∷ 0xcbff ∷ 0xc7ff ∷ 0xcfff ∷ []

abbrev pub steady_table_15 : List ℕ
steady_table_15 =
    0x9017 ∷ 0x4006 ∷ 0x7033 ∷ 0x3002 ∷ 0x9117 ∷ 0x400e ∷ 0x7073 ∷ 0x2000 ∷ 0xa0f7 ∷ 0x601d ∷ 0x803b
    ∷ 0x4001 ∷ 0xa2f7 ∷ 0x5005 ∷ 0x80bb ∷ 0x4009 ∷ 0xb0cf ∷ 0x700b ∷ 0x9097 ∷ 0x5015 ∷ 0xb4cf
    ∷ 0x704b ∷ 0x9197 ∷ 0x500d ∷ 0xc0af ∷ 0x807b ∷ 0xb2cf ∷ 0x603d ∷ 0xc8af ∷ 0x80fb ∷ 0xa1f7
    ∷ 0x6003 ∷ 0xc4af ∷ 0x8007 ∷ 0xb6cf ∷ 0x6023 ∷ 0xccaf ∷ 0x8087 ∷ 0xa3f7 ∷ 0x6013 ∷ 0xc2af
    ∷ 0x9057 ∷ 0xcaaf ∷ 0x702b ∷ 0xc6af ∷ 0x9157 ∷ 0xb1cf ∷ 0x706b ∷ 0xceaf ∷ 0xa00f ∷ 0xc1af
    ∷ 0x8047 ∷ 0xc9af ∷ 0xa20f ∷ 0xc5af ∷ 0x80c7 ∷ 0xcdaf ∷ 0xb5cf ∷ 0xc3af ∷ 0x90d7 ∷ 0xcbaf
    ∷ 0xb3cf ∷ 0xc7af ∷ 0x91d7 ∷ 0xcfaf ∷ 0x9037 ∷ 0xc06f ∷ 0x701b ∷ 0xc86f ∷ 0x9137 ∷ 0xb7cf
    ∷ 0x705b ∷ 0xc46f ∷ 0xa10f ∷ 0xcc6f ∷ 0x8027 ∷ 0xc26f ∷ 0xa30f ∷ 0xca6f ∷ 0x80a7 ∷ 0xc66f
    ∷ 0xb02f ∷ 0xce6f ∷ 0x90b7 ∷ 0xc16f ∷ 0xb42f ∷ 0xc96f ∷ 0x91b7 ∷ 0xc56f ∷ 0xcd6f ∷ 0xc36f
    ∷ 0xa08f ∷ 0xcb6f ∷ 0xc76f ∷ 0xcf6f ∷ 0xa28f ∷ 0xc0ef ∷ 0xc8ef ∷ 0xc4ef ∷ 0xa18f ∷ 0xccef
    ∷ 0xc2ef ∷ 0xcaef ∷ 0xa38f ∷ 0xc6ef ∷ 0xceef ∷ 0xc1ef ∷ 0xc9ef ∷ 0xc5ef ∷ 0xcdef ∷ 0xc3ef
    ∷ 0xb22f ∷ 0xcbef ∷ 0xc7ef ∷ 0xcfef ∷ 0xc01f ∷ 0xc81f ∷ 0xc41f ∷ 0xcc1f ∷ 0xc21f ∷ 0xca1f
    ∷ 0xc61f ∷ 0xce1f ∷ 0xc11f ∷ 0xc91f ∷ 0xc51f ∷ 0xcd1f ∷ 0xc31f ∷ 0xcb1f ∷ 0xa04f ∷ 0xc71f
    ∷ 0x8067 ∷ 0xcf1f ∷ 0xa24f ∷ 0xc09f ∷ 0x80e7 ∷ 0xc89f ∷ 0xb62f ∷ 0xc49f ∷ 0x9077 ∷ 0xcc9f
    ∷ 0xb12f ∷ 0xc29f ∷ 0x9177 ∷ 0xca9f ∷ 0xc69f ∷ 0xce9f ∷ 0xa14f ∷ 0xc19f ∷ 0xc99f ∷ 0xc59f
    ∷ 0xa34f ∷ 0xcd9f ∷ 0xc39f ∷ 0xcb9f ∷ 0xc79f ∷ 0xcf9f ∷ 0xc05f ∷ 0xc85f ∷ 0xb52f ∷ 0xc45f
    ∷ 0xcc5f ∷ 0xc25f ∷ 0xb32f ∷ 0xca5f ∷ 0xc65f ∷ 0xce5f ∷ 0xb72f ∷ 0xc15f ∷ 0xc95f ∷ 0xc55f
    ∷ 0xcd5f ∷ 0xc35f ∷ 0xcb5f ∷ 0xc75f ∷ 0xcf5f ∷ 0xc0df ∷ 0xc8df ∷ 0xc4df ∷ 0xccdf ∷ 0xc2df
    ∷ 0xcadf ∷ 0xc6df ∷ 0xcedf ∷ 0xc1df ∷ 0xc9df ∷ 0xc5df ∷ 0xcddf ∷ 0xc3df ∷ 0xcbdf ∷ 0xc7df
    ∷ 0xcfdf ∷ 0xc03f ∷ 0xc83f ∷ 0xc43f ∷ 0xcc3f ∷ 0xc23f ∷ 0xca3f ∷ 0xc63f ∷ 0xce3f ∷ 0xc13f
    ∷ 0xc93f ∷ 0xc53f ∷ 0xcd3f ∷ 0xc33f ∷ 0xcb3f ∷ 0xc73f ∷ 0xcf3f ∷ 0xc0bf ∷ 0xc8bf ∷ 0xc4bf
    ∷ 0xccbf ∷ 0xc2bf ∷ 0xcabf ∷ 0xc6bf ∷ 0xcebf ∷ 0xc1bf ∷ 0xc9bf ∷ 0xc5bf ∷ 0xcdbf ∷ 0xc3bf
    ∷ 0xcbbf ∷ 0xc7bf ∷ 0xcfbf ∷ 0xc07f ∷ 0xc87f ∷ 0xc47f ∷ 0xcc7f ∷ 0xc27f ∷ 0xca7f ∷ 0xc67f
    ∷ 0xce7f ∷ 0xc17f ∷ 0xc97f ∷ 0xc57f ∷ 0xcd7f ∷ 0xc37f ∷ 0xcb7f ∷ 0xc77f ∷ 0xcf7f ∷ 0xc0ff
    ∷ 0xc8ff ∷ 0xc4ff ∷ 0xccff ∷ 0xc2ff ∷ 0xcaff ∷ 0xc6ff ∷ 0xceff ∷ 0xc1ff ∷ 0xc9ff ∷ 0xc5ff
    ∷ 0xcdff ∷ 0xc3ff ∷ 0xcbff ∷ 0xc7ff ∷ 0xcfff ∷ []
