-- ===== src/Cpc/Tables/Early.antt =====
-- The code tables of the first eight phases of the steady state, from cpc/include/compression_data.hpp.
use whylogs_datasketches.Base.{ℕ, List, [], ◌∷◌}

abbrev pub steady_table_0 : List ℕ
steady_table_0 =
    0x9017 ∷ 0x5009 ∷ 0x7033 ∷ 0x3002 ∷ 0x9117 ∷ 0x5019 ∷ 0x7073 ∷ 0x2000 ∷ 0xa177 ∷ 0x601d ∷ 0x803b
    ∷ 0x4001 ∷ 0xa377 ∷ 0x5005 ∷ 0x80bb ∷ 0x3006 ∷ 0xb0cf ∷ 0x700b ∷ 0xa0f7 ∷ 0x5015 ∷ 0xb4cf
    ∷ 0x704b ∷ 0x9097 ∷ 0x500d ∷ 0xc4af ∷ 0x807b ∷ 0xa2f7 ∷ 0x603d ∷ 0xccaf ∷ 0x80fb ∷ 0xa1f7
    ∷ 0x6003 ∷ 0xc2af ∷ 0x8007 ∷ 0xb2cf ∷ 0x6023 ∷ 0xcaaf ∷ 0x8087 ∷ 0xa3f7 ∷ 0x6013 ∷ 0xc6af
    ∷ 0x9197 ∷ 0xceaf ∷ 0x702b ∷ 0xc1af ∷ 0x9057 ∷ 0xb6cf ∷ 0x706b ∷ 0xc9af ∷ 0xa00f ∷ 0xc5af
    ∷ 0x8047 ∷ 0xcdaf ∷ 0xa20f ∷ 0xc3af ∷ 0x80c7 ∷ 0xcbaf ∷ 0xb1cf ∷ 0xc7af ∷ 0x9157 ∷ 0xcfaf
    ∷ 0xb5cf ∷ 0xc06f ∷ 0x90d7 ∷ 0xc86f ∷ 0x91d7 ∷ 0xc46f ∷ 0x701b ∷ 0xcc6f ∷ 0x9037 ∷ 0xb3cf
    ∷ 0x705b ∷ 0xc26f ∷ 0xa10f ∷ 0xca6f ∷ 0x8027 ∷ 0xc66f ∷ 0xa30f ∷ 0xce6f ∷ 0x80a7 ∷ 0xc16f
    ∷ 0xb7cf ∷ 0xc96f ∷ 0x9137 ∷ 0xc56f ∷ 0xb02f ∷ 0xcd6f ∷ 0x90b7 ∷ 0xc36f ∷ 0xcb6f ∷ 0xc76f
    ∷ 0xa08f ∷ 0xcf6f ∷ 0xc0ef ∷ 0xc8ef ∷ 0xa28f ∷ 0xc4ef ∷ 0xccef ∷ 0xc2ef ∷ 0xa18f ∷ 0xcaef
    ∷ 0xc6ef ∷ 0xceef ∷ 0xa38f ∷ 0xc1ef ∷ 0xc9ef ∷ 0xc5ef ∷ 0xb42f ∷ 0xcdef ∷ 0xc3ef ∷ 0xcbef
    ∷ 0xb22f ∷ 0xc7ef ∷ 0xcfef ∷ 0xc01f ∷ 0xc81f ∷ 0xc41f ∷ 0xcc1f ∷ 0xc21f ∷ 0xca1f ∷ 0xc61f
    ∷ 0xce1f ∷ 0xc11f ∷ 0xc91f ∷ 0xc51f ∷ 0xcd1f ∷ 0xc31f ∷ 0xcb1f ∷ 0xc71f ∷ 0xa04f ∷ 0xcf1f
    ∷ 0x8067 ∷ 0xc09f ∷ 0xa24f ∷ 0xc89f ∷ 0x80e7 ∷ 0xc49f ∷ 0xb62f ∷ 0xcc9f ∷ 0x91b7 ∷ 0xc29f
    ∷ 0xb12f ∷ 0xca9f ∷ 0x9077 ∷ 0xc69f ∷ 0xce9f ∷ 0xc19f ∷ 0xa14f ∷ 0xc99f ∷ 0xc59f ∷ 0xcd9f
    ∷ 0xa34f ∷ 0xc39f ∷ 0xcb9f ∷ 0xc79f ∷ 0xb52f ∷ 0xcf9f ∷ 0xc05f ∷ 0xc85f ∷ 0xb32f ∷ 0xc45f
    ∷ 0xcc5f ∷ 0xc25f ∷ 0xb72f ∷ 0xca5f ∷ 0xc65f ∷ 0xce5f ∷ 0xb0af ∷ 0xc15f ∷ 0xc95f ∷ 0xc55f
    ∷ 0xcd5f ∷ 0xc35f ∷ 0xcb5f ∷ 0xc75f ∷ 0xcf5f ∷ 0xc0df ∷ 0xc8df ∷ 0xc4df ∷ 0xccdf ∷ 0xc2df
    ∷ 0xcadf ∷ 0xc6df ∷ 0xcedf ∷ 0xc1df ∷ 0xc9df ∷ 0xc5df ∷ 0xcddf ∷ 0xc3df ∷ 0xcbdf ∷ 0xc7df
    ∷ 0xcfdf ∷ 0xc03f ∷ 0xc83f ∷ 0xc43f ∷ 0xcc3f ∷ 0xc23f ∷ 0xca3f ∷ 0xc63f ∷ 0xce3f ∷ 0xc13f
    ∷ 0xc93f ∷ 0xc53f ∷ 0xcd3f ∷ 0xc33f ∷ 0xcb3f ∷ 0xc73f ∷ 0xcf3f ∷ 0xc0bf ∷ 0xc8bf ∷ 0xc4bf
    ∷ 0xccbf ∷ 0xc2bf ∷ 0xcabf ∷ 0xc6bf ∷ 0xcebf ∷ 0xc1bf ∷ 0xc9bf ∷ 0xc5bf ∷ 0xcdbf ∷ 0xc3bf
    ∷ 0xcbbf ∷ 0xc7bf ∷ 0xcfbf ∷ 0xc07f ∷ 0xc87f ∷ 0xc47f ∷ 0xcc7f ∷ 0xc27f ∷ 0xca7f ∷ 0xc67f
    ∷ 0xce7f ∷ 0xc17f ∷ 0xc97f ∷ 0xc57f ∷ 0xcd7f ∷ 0xc37f ∷ 0xcb7f ∷ 0xc77f ∷ 0xcf7f ∷ 0xc0ff
    ∷ 0xc8ff ∷ 0xc4ff ∷ 0xccff ∷ 0xc2ff ∷ 0xcaff ∷ 0xc6ff ∷ 0xceff ∷ 0xc1ff ∷ 0xc9ff ∷ 0xc5ff
    ∷ 0xcdff ∷ 0xc3ff ∷ 0xcbff ∷ 0xc7ff ∷ 0xcfff ∷ []

abbrev pub steady_table_1 : List ℕ
steady_table_1 =
    0xa177 ∷ 0x5009 ∷ 0x803b ∷ 0x3002 ∷ 0x9017 ∷ 0x5019 ∷ 0x700b ∷ 0x2000 ∷ 0xb34f ∷ 0x601d ∷ 0x9117
    ∷ 0x4001 ∷ 0xa377 ∷ 0x603d ∷ 0x80bb ∷ 0x3006 ∷ 0xc4af ∷ 0x704b ∷ 0xa0f7 ∷ 0x5005 ∷ 0xb74f
    ∷ 0x702b ∷ 0x9097 ∷ 0x5015 ∷ 0xccaf ∷ 0x807b ∷ 0xb0cf ∷ 0x6003 ∷ 0xc2af ∷ 0x80fb ∷ 0xa2f7
    ∷ 0x500d ∷ 0xcaaf ∷ 0x8007 ∷ 0xb4cf ∷ 0x6023 ∷ 0xc6af ∷ 0x8087 ∷ 0xa1f7 ∷ 0x6013 ∷ 0xceaf
    ∷ 0x9197 ∷ 0xc1af ∷ 0x706b ∷ 0xc9af ∷ 0x9057 ∷ 0xb2cf ∷ 0x6033 ∷ 0xc5af ∷ 0xa3f7 ∷ 0xcdaf
    ∷ 0x8047 ∷ 0xc3af ∷ 0xa00f ∷ 0xcbaf ∷ 0x80c7 ∷ 0xc7af ∷ 0xb6cf ∷ 0xcfaf ∷ 0x9157 ∷ 0xc06f
    ∷ 0xb1cf ∷ 0xc86f ∷ 0x90d7 ∷ 0xc46f ∷ 0x91d7 ∷ 0xcc6f ∷ 0x701b ∷ 0xc26f ∷ 0x9037 ∷ 0xb5cf
    ∷ 0x705b ∷ 0xca6f ∷ 0xa20f ∷ 0xc66f ∷ 0x8027 ∷ 0xce6f ∷ 0xa10f ∷ 0xc16f ∷ 0x80a7 ∷ 0xc96f
    ∷ 0xb3cf ∷ 0xc56f ∷ 0x9137 ∷ 0xcd6f ∷ 0xb7cf ∷ 0xc36f ∷ 0x90b7 ∷ 0xcb6f ∷ 0xc76f ∷ 0xcf6f
    ∷ 0xa30f ∷ 0xc0ef ∷ 0xc8ef ∷ 0xc4ef ∷ 0xa08f ∷ 0xccef ∷ 0xc2ef ∷ 0xcaef ∷ 0xa28f ∷ 0xc6ef
    ∷ 0xceef ∷ 0xc1ef ∷ 0xa18f ∷ 0xc9ef ∷ 0xc5ef ∷ 0xcdef ∷ 0xb02f ∷ 0xc3ef ∷ 0xcbef ∷ 0xc7ef
    ∷ 0xb42f ∷ 0xcfef ∷ 0xc01f ∷ 0xc81f ∷ 0xc41f ∷ 0xcc1f ∷ 0xc21f ∷ 0xca1f ∷ 0xc61f ∷ 0xce1f
    ∷ 0xc11f ∷ 0xc91f ∷ 0xc51f ∷ 0xcd1f ∷ 0xc31f ∷ 0xcb1f ∷ 0xc71f ∷ 0xcf1f ∷ 0xa38f ∷ 0xc09f
    ∷ 0x8067 ∷ 0xc89f ∷ 0xa04f ∷ 0xc49f ∷ 0x80e7 ∷ 0xcc9f ∷ 0xb22f ∷ 0xc29f ∷ 0x91b7 ∷ 0xca9f
    ∷ 0xb62f ∷ 0xc69f ∷ 0x9077 ∷ 0xce9f ∷ 0xc19f ∷ 0xc99f ∷ 0xa24f ∷ 0xc59f ∷ 0xcd9f ∷ 0xc39f
    ∷ 0xa14f ∷ 0xcb9f ∷ 0xc79f ∷ 0xcf9f ∷ 0xb12f ∷ 0xc05f ∷ 0xc85f ∷ 0xc45f ∷ 0xb52f ∷ 0xcc5f
    ∷ 0xc25f ∷ 0xca5f ∷ 0xb32f ∷ 0xc65f ∷ 0xce5f ∷ 0xc15f ∷ 0xb72f ∷ 0xc95f ∷ 0xc55f ∷ 0xcd5f
    ∷ 0xc35f ∷ 0xcb5f ∷ 0xc75f ∷ 0xcf5f ∷ 0xb0af ∷ 0xc0df ∷ 0xc8df ∷ 0xc4df ∷ 0xccdf ∷ 0xc2df
    ∷ 0xcadf ∷ 0xc6df ∷ 0xcedf ∷ 0xc1df ∷ 0xc9df ∷ 0xc5df ∷ 0xcddf ∷ 0xc3df ∷ 0xcbdf ∷ 0xc7df
    ∷ 0xcfdf ∷ 0xc03f ∷ 0xc83f ∷ 0xc43f ∷ 0xcc3f ∷ 0xc23f ∷ 0xca3f ∷ 0xc63f ∷ 0xce3f ∷ 0xc13f
    ∷ 0xc93f ∷ 0xc53f ∷ 0xcd3f ∷ 0xc33f ∷ 0xcb3f ∷ 0xc73f ∷ 0xcf3f ∷ 0xc0bf ∷ 0xc8bf ∷ 0xc4bf
    ∷ 0xccbf ∷ 0xc2bf ∷ 0xcabf ∷ 0xc6bf ∷ 0xcebf ∷ 0xc1bf ∷ 0xc9bf ∷ 0xc5bf ∷ 0xcdbf ∷ 0xc3bf
    ∷ 0xcbbf ∷ 0xc7bf ∷ 0xcfbf ∷ 0xc07f ∷ 0xc87f ∷ 0xc47f ∷ 0xcc7f ∷ 0xc27f ∷ 0xca7f ∷ 0xc67f
    ∷ 0xce7f ∷ 0xc17f ∷ 0xc97f ∷ 0xc57f ∷ 0xcd7f ∷ 0xc37f ∷ 0xcb7f ∷ 0xc77f ∷ 0xcf7f ∷ 0xc0ff
    ∷ 0xc8ff ∷ 0xc4ff ∷ 0xccff ∷ 0xc2ff ∷ 0xcaff ∷ 0xc6ff ∷ 0xceff ∷ 0xc1ff ∷ 0xc9ff ∷ 0xc5ff
    ∷ 0xcdff ∷ 0xc3ff ∷ 0xcbff ∷ 0xc7ff ∷ 0xcfff ∷ []

abbrev pub steady_table_2 : List ℕ
steady_table_2 =
    0xa177 ∷ 0x5009 ∷ 0x803b ∷ 0x3002 ∷ 0xa377 ∷ 0x5019 ∷ 0x80bb ∷ 0x2000 ∷ 0xb34f ∷ 0x601d ∷ 0x9057
    ∷ 0x4001 ∷ 0xb74f ∷ 0x603d ∷ 0x807b ∷ 0x3006 ∷ 0xc72f ∷ 0x700b ∷ 0xa0f7 ∷ 0x5005 ∷ 0xcf2f
    ∷ 0x704b ∷ 0xa2f7 ∷ 0x5015 ∷ 0xc0af ∷ 0x80fb ∷ 0xb0cf ∷ 0x6003 ∷ 0xc8af ∷ 0x8007 ∷ 0xa1f7
    ∷ 0x500d ∷ 0xc4af ∷ 0x8087 ∷ 0xb4cf ∷ 0x6023 ∷ 0xccaf ∷ 0x8047 ∷ 0xb2cf ∷ 0x6013 ∷ 0xc2af
    ∷ 0x9157 ∷ 0xcaaf ∷ 0x702b ∷ 0xc6af ∷ 0x90d7 ∷ 0xceaf ∷ 0x6033 ∷ 0xc1af ∷ 0xa3f7 ∷ 0xc9af
    ∷ 0x80c7 ∷ 0xc5af ∷ 0xa00f ∷ 0xcdaf ∷ 0x8027 ∷ 0xc3af ∷ 0xb6cf ∷ 0xcbaf ∷ 0x91d7 ∷ 0xc7af
    ∷ 0xb1cf ∷ 0xcfaf ∷ 0x80a7 ∷ 0xc06f ∷ 0x9037 ∷ 0xc86f ∷ 0x706b ∷ 0xc46f ∷ 0x9137 ∷ 0xcc6f
    ∷ 0x701b ∷ 0xc26f ∷ 0xa20f ∷ 0xca6f ∷ 0x8067 ∷ 0xc66f ∷ 0xa10f ∷ 0xce6f ∷ 0x705b ∷ 0xc16f
    ∷ 0xb5cf ∷ 0xc96f ∷ 0x90b7 ∷ 0xc56f ∷ 0xb3cf ∷ 0xcd6f ∷ 0x91b7 ∷ 0xc36f ∷ 0xcb6f ∷ 0xc76f
    ∷ 0xa30f ∷ 0xcf6f ∷ 0xc0ef ∷ 0xc8ef ∷ 0xa08f ∷ 0xc4ef ∷ 0xccef ∷ 0xc2ef ∷ 0xa28f ∷ 0xcaef
    ∷ 0xc6ef ∷ 0xceef ∷ 0xa18f ∷ 0xc1ef ∷ 0xc9ef ∷ 0xc5ef ∷ 0xb7cf ∷ 0xcdef ∷ 0xc3ef ∷ 0xcbef
    ∷ 0xb02f ∷ 0xc7ef ∷ 0xcfef ∷ 0xc01f ∷ 0xc81f ∷ 0xc41f ∷ 0xcc1f ∷ 0xc21f ∷ 0xca1f ∷ 0xc61f
    ∷ 0xce1f ∷ 0xc11f ∷ 0xc91f ∷ 0xc51f ∷ 0xcd1f ∷ 0xc31f ∷ 0xcb1f ∷ 0xc71f ∷ 0xa38f ∷ 0xcf1f
    ∷ 0x80e7 ∷ 0xc09f ∷ 0xa04f ∷ 0xc89f ∷ 0x8017 ∷ 0xc49f ∷ 0xb42f ∷ 0xcc9f ∷ 0x9077 ∷ 0xc29f
    ∷ 0xb22f ∷ 0xca9f ∷ 0x8097 ∷ 0xc69f ∷ 0xce9f ∷ 0xc19f ∷ 0xa24f ∷ 0xc99f ∷ 0xc59f ∷ 0xcd9f
    ∷ 0xa14f ∷ 0xc39f ∷ 0xcb9f ∷ 0xc79f ∷ 0xb62f ∷ 0xcf9f ∷ 0xc05f ∷ 0xc85f ∷ 0xb12f ∷ 0xc45f
    ∷ 0xcc5f ∷ 0xc25f ∷ 0xb52f ∷ 0xca5f ∷ 0xc65f ∷ 0xce5f ∷ 0xb32f ∷ 0xc15f ∷ 0xc95f ∷ 0xc55f
    ∷ 0xcd5f ∷ 0xc35f ∷ 0xcb5f ∷ 0xc75f ∷ 0xcf5f ∷ 0xc0df ∷ 0xc8df ∷ 0xc4df ∷ 0xccdf ∷ 0xc2df
    ∷ 0xcadf ∷ 0xc6df ∷ 0xcedf ∷ 0xc1df ∷ 0xc9df ∷ 0xc5df ∷ 0xcddf ∷ 0xc3df ∷ 0xcbdf ∷ 0xc7df
    ∷ 0xcfdf ∷ 0xc03f ∷ 0xc83f ∷ 0xc43f ∷ 0xcc3f ∷ 0xc23f ∷ 0xca3f ∷ 0xc63f ∷ 0xce3f ∷ 0xc13f
    ∷ 0xc93f ∷ 0xc53f ∷ 0xcd3f ∷ 0xc33f ∷ 0xcb3f ∷ 0xc73f ∷ 0xcf3f ∷ 0xc0bf ∷ 0xc8bf ∷ 0xc4bf
    ∷ 0xccbf ∷ 0xc2bf ∷ 0xcabf ∷ 0xc6bf ∷ 0xcebf ∷ 0xc1bf ∷ 0xc9bf ∷ 0xc5bf ∷ 0xcdbf ∷ 0xc3bf
    ∷ 0xcbbf ∷ 0xc7bf ∷ 0xcfbf ∷ 0xc07f ∷ 0xc87f ∷ 0xc47f ∷ 0xcc7f ∷ 0xc27f ∷ 0xca7f ∷ 0xc67f
    ∷ 0xce7f ∷ 0xc17f ∷ 0xc97f ∷ 0xc57f ∷ 0xcd7f ∷ 0xc37f ∷ 0xcb7f ∷ 0xc77f ∷ 0xcf7f ∷ 0xc0ff
    ∷ 0xc8ff ∷ 0xc4ff ∷ 0xccff ∷ 0xc2ff ∷ 0xcaff ∷ 0xc6ff ∷ 0xceff ∷ 0xc1ff ∷ 0xc9ff ∷ 0xc5ff
    ∷ 0xcdff ∷ 0xc3ff ∷ 0xcbff ∷ 0xc7ff ∷ 0xcfff ∷ []

abbrev pub steady_table_3 : List ℕ
steady_table_3 =
    0xb24f ∷ 0x601d ∷ 0x9097 ∷ 0x3002 ∷ 0xa1f7 ∷ 0x5005 ∷ 0x807b ∷ 0x2000 ∷ 0xc52f ∷ 0x603d ∷ 0x9197
    ∷ 0x4001 ∷ 0xb64f ∷ 0x6003 ∷ 0x9057 ∷ 0x3006 ∷ 0xcd2f ∷ 0x80fb ∷ 0xb14f ∷ 0x5015 ∷ 0xc32f
    ∷ 0x702b ∷ 0xa3f7 ∷ 0x4009 ∷ 0xcb2f ∷ 0x8007 ∷ 0xb54f ∷ 0x6023 ∷ 0xc72f ∷ 0x8087 ∷ 0xb34f
    ∷ 0x500d ∷ 0xcf2f ∷ 0x9157 ∷ 0xc0af ∷ 0x6013 ∷ 0xc8af ∷ 0x8047 ∷ 0xb74f ∷ 0x6033 ∷ 0xc4af
    ∷ 0x90d7 ∷ 0xccaf ∷ 0x706b ∷ 0xc2af ∷ 0x91d7 ∷ 0xcaaf ∷ 0x600b ∷ 0xc6af ∷ 0xb0cf ∷ 0xceaf
    ∷ 0x80c7 ∷ 0xc1af ∷ 0xa00f ∷ 0xc9af ∷ 0x8027 ∷ 0xc5af ∷ 0xb4cf ∷ 0xcdaf ∷ 0x9037 ∷ 0xc3af
    ∷ 0xb2cf ∷ 0xcbaf ∷ 0x80a7 ∷ 0xc7af ∷ 0xa20f ∷ 0xcfaf ∷ 0x701b ∷ 0xc06f ∷ 0x9137 ∷ 0xc86f
    ∷ 0x705b ∷ 0xc46f ∷ 0xb6cf ∷ 0xcc6f ∷ 0x8067 ∷ 0xc26f ∷ 0xa10f ∷ 0xca6f ∷ 0x703b ∷ 0xc66f
    ∷ 0xce6f ∷ 0xc16f ∷ 0x90b7 ∷ 0xc96f ∷ 0xb1cf ∷ 0xc56f ∷ 0x91b7 ∷ 0xcd6f ∷ 0xc36f ∷ 0xcb6f
    ∷ 0xa30f ∷ 0xc76f ∷ 0xcf6f ∷ 0xc0ef ∷ 0x9077 ∷ 0xc8ef ∷ 0xc4ef ∷ 0xccef ∷ 0xa08f ∷ 0xc2ef
    ∷ 0xcaef ∷ 0xc6ef ∷ 0xa28f ∷ 0xceef ∷ 0xc1ef ∷ 0xc9ef ∷ 0xb5cf ∷ 0xc5ef ∷ 0xcdef ∷ 0xc3ef
    ∷ 0xb3cf ∷ 0xcbef ∷ 0xc7ef ∷ 0xcfef ∷ 0xc01f ∷ 0xc81f ∷ 0xc41f ∷ 0xcc1f ∷ 0xc21f ∷ 0xca1f
    ∷ 0xc61f ∷ 0xce1f ∷ 0xc11f ∷ 0xc91f ∷ 0xc51f ∷ 0xcd1f ∷ 0xc31f ∷ 0xcb1f ∷ 0xb7cf ∷ 0xc71f
    ∷ 0x80e7 ∷ 0xcf1f ∷ 0xa18f ∷ 0xc09f ∷ 0x8017 ∷ 0xc89f ∷ 0xc49f ∷ 0xcc9f ∷ 0x9177 ∷ 0xc29f
    ∷ 0xb02f ∷ 0xca9f ∷ 0x90f7 ∷ 0xc69f ∷ 0xce9f ∷ 0xc19f ∷ 0xa38f ∷ 0xc99f ∷ 0xc59f ∷ 0xcd9f
    ∷ 0xa04f ∷ 0xc39f ∷ 0xcb9f ∷ 0xc79f ∷ 0xb42f ∷ 0xcf9f ∷ 0xc05f ∷ 0xc85f ∷ 0xb22f ∷ 0xc45f
    ∷ 0xcc5f ∷ 0xc25f ∷ 0xb62f ∷ 0xca5f ∷ 0xc65f ∷ 0xce5f ∷ 0xb12f ∷ 0xc15f ∷ 0xc95f ∷ 0xc55f
    ∷ 0xcd5f ∷ 0xc35f ∷ 0xcb5f ∷ 0xc75f ∷ 0xcf5f ∷ 0xc0df ∷ 0xc8df ∷ 0xc4df ∷ 0xccdf ∷ 0xc2df
    ∷ 0xcadf ∷ 0xc6df ∷ 0xcedf ∷ 0xc1df ∷ 0xc9df ∷ 0xc5df ∷ 0xcddf ∷ 0xc3df ∷ 0xcbdf ∷ 0xc7df
    ∷ 0xcfdf ∷ 0xc03f ∷ 0xc83f ∷ 0xc43f ∷ 0xcc3f ∷ 0xc23f ∷ 0xca3f ∷ 0xc63f ∷ 0xce3f ∷ 0xc13f
    ∷ 0xc93f ∷ 0xc53f ∷ 0xcd3f ∷ 0xc33f ∷ 0xcb3f ∷ 0xc73f ∷ 0xcf3f ∷ 0xc0bf ∷ 0xc8bf ∷ 0xc4bf
    ∷ 0xccbf ∷ 0xc2bf ∷ 0xcabf ∷ 0xc6bf ∷ 0xcebf ∷ 0xc1bf ∷ 0xc9bf ∷ 0xc5bf ∷ 0xcdbf ∷ 0xc3bf
    ∷ 0xcbbf ∷ 0xc7bf ∷ 0xcfbf ∷ 0xc07f ∷ 0xc87f ∷ 0xc47f ∷ 0xcc7f ∷ 0xc27f ∷ 0xca7f ∷ 0xc67f
    ∷ 0xce7f ∷ 0xc17f ∷ 0xc97f ∷ 0xc57f ∷ 0xcd7f ∷ 0xc37f ∷ 0xcb7f ∷ 0xc77f ∷ 0xcf7f ∷ 0xc0ff
    ∷ 0xc8ff ∷ 0xc4ff ∷ 0xccff ∷ 0xc2ff ∷ 0xcaff ∷ 0xc6ff ∷ 0xceff ∷ 0xc1ff ∷ 0xc9ff ∷ 0xc5ff
    ∷ 0xcdff ∷ 0xc3ff ∷ 0xcbff ∷ 0xc7ff ∷ 0xcfff ∷ []

abbrev pub steady_table_4 : List ℕ
steady_table_4 =
    0xb24f ∷ 0x601d ∷ 0x9057 ∷ 0x3002 ∷ 0xb64f ∷ 0x5005 ∷ 0x807b ∷ 0x2000 ∷ 0xc32f ∷ 0x700b ∷ 0xa0f7
    ∷ 0x4001 ∷ 0xb14f ∷ 0x603d ∷ 0x9157 ∷ 0x3006 ∷ 0xcb2f ∷ 0x80fb ∷ 0xb54f ∷ 0x5015 ∷ 0xc72f
    ∷ 0x704b ∷ 0xa2f7 ∷ 0x4009 ∷ 0xcf2f ∷ 0x8007 ∷ 0xb34f ∷ 0x6003 ∷ 0xc0af ∷ 0x8087 ∷ 0xb74f
    ∷ 0x500d ∷ 0xc8af ∷ 0x90d7 ∷ 0xc4af ∷ 0x6023 ∷ 0xccaf ∷ 0x8047 ∷ 0xb0cf ∷ 0x6013 ∷ 0xc2af
    ∷ 0xa1f7 ∷ 0xcaaf ∷ 0x702b ∷ 0xc6af ∷ 0x91d7 ∷ 0xceaf ∷ 0x6033 ∷ 0xc1af ∷ 0xb4cf ∷ 0xc9af
    ∷ 0x80c7 ∷ 0xc5af ∷ 0xa3f7 ∷ 0xcdaf ∷ 0x706b ∷ 0xc3af ∷ 0xb2cf ∷ 0xcbaf ∷ 0x9037 ∷ 0xc7af
    ∷ 0xb6cf ∷ 0xcfaf ∷ 0x8027 ∷ 0xc06f ∷ 0xa00f ∷ 0xc86f ∷ 0x701b ∷ 0xc46f ∷ 0x9137 ∷ 0xcc6f
    ∷ 0x705b ∷ 0xc26f ∷ 0xb1cf ∷ 0xca6f ∷ 0x80a7 ∷ 0xc66f ∷ 0xa20f ∷ 0xce6f ∷ 0x703b ∷ 0xc16f
    ∷ 0xc96f ∷ 0xc56f ∷ 0x90b7 ∷ 0xcd6f ∷ 0xb5cf ∷ 0xc36f ∷ 0x8067 ∷ 0xcb6f ∷ 0xc76f ∷ 0xcf6f
    ∷ 0xa10f ∷ 0xc0ef ∷ 0xc8ef ∷ 0xc4ef ∷ 0x91b7 ∷ 0xccef ∷ 0xc2ef ∷ 0xcaef ∷ 0xa30f ∷ 0xc6ef
    ∷ 0xceef ∷ 0xc1ef ∷ 0xa08f ∷ 0xc9ef ∷ 0xc5ef ∷ 0xcdef ∷ 0xb3cf ∷ 0xc3ef ∷ 0xcbef ∷ 0xc7ef
    ∷ 0xa28f ∷ 0xcfef ∷ 0xc01f ∷ 0xc81f ∷ 0xc41f ∷ 0xcc1f ∷ 0xc21f ∷ 0xca1f ∷ 0xb7cf ∷ 0xc61f
    ∷ 0xce1f ∷ 0xc11f ∷ 0xc91f ∷ 0xc51f ∷ 0xcd1f ∷ 0xc31f ∷ 0xcb1f ∷ 0xc71f ∷ 0xb02f ∷ 0xcf1f
    ∷ 0x80e7 ∷ 0xc09f ∷ 0xa18f ∷ 0xc89f ∷ 0x8017 ∷ 0xc49f ∷ 0xcc9f ∷ 0xc29f ∷ 0x9077 ∷ 0xca9f
    ∷ 0xb42f ∷ 0xc69f ∷ 0x8097 ∷ 0xce9f ∷ 0xc19f ∷ 0xc99f ∷ 0xa38f ∷ 0xc59f ∷ 0xcd9f ∷ 0xc39f
    ∷ 0x9177 ∷ 0xcb9f ∷ 0xc79f ∷ 0xcf9f ∷ 0xb22f ∷ 0xc05f ∷ 0xc85f ∷ 0xc45f ∷ 0xa04f ∷ 0xcc5f
    ∷ 0xc25f ∷ 0xca5f ∷ 0xb62f ∷ 0xc65f ∷ 0xce5f ∷ 0xc15f ∷ 0xb12f ∷ 0xc95f ∷ 0xc55f ∷ 0xcd5f
    ∷ 0xc35f ∷ 0xcb5f ∷ 0xc75f ∷ 0xcf5f ∷ 0xb52f ∷ 0xc0df ∷ 0xc8df ∷ 0xc4df ∷ 0xccdf ∷ 0xc2df
    ∷ 0xcadf ∷ 0xc6df ∷ 0xcedf ∷ 0xc1df ∷ 0xc9df ∷ 0xc5df ∷ 0xcddf ∷ 0xc3df ∷ 0xcbdf ∷ 0xc7df
    ∷ 0xcfdf ∷ 0xc03f ∷ 0xc83f ∷ 0xc43f ∷ 0xcc3f ∷ 0xc23f ∷ 0xca3f ∷ 0xc63f ∷ 0xce3f ∷ 0xc13f
    ∷ 0xc93f ∷ 0xc53f ∷ 0xcd3f ∷ 0xc33f ∷ 0xcb3f ∷ 0xc73f ∷ 0xcf3f ∷ 0xc0bf ∷ 0xc8bf ∷ 0xc4bf
    ∷ 0xccbf ∷ 0xc2bf ∷ 0xcabf ∷ 0xc6bf ∷ 0xcebf ∷ 0xc1bf ∷ 0xc9bf ∷ 0xc5bf ∷ 0xcdbf ∷ 0xc3bf
    ∷ 0xcbbf ∷ 0xc7bf ∷ 0xcfbf ∷ 0xc07f ∷ 0xc87f ∷ 0xc47f ∷ 0xcc7f ∷ 0xc27f ∷ 0xca7f ∷ 0xc67f
    ∷ 0xce7f ∷ 0xc17f ∷ 0xc97f ∷ 0xc57f ∷ 0xcd7f ∷ 0xc37f ∷ 0xcb7f ∷ 0xc77f ∷ 0xcf7f ∷ 0xc0ff
    ∷ 0xc8ff ∷ 0xc4ff ∷ 0xccff ∷ 0xc2ff ∷ 0xcaff ∷ 0xc6ff ∷ 0xceff ∷ 0xc1ff ∷ 0xc9ff ∷ 0xc5ff
    ∷ 0xcdff ∷ 0xc3ff ∷ 0xcbff ∷ 0xc7ff ∷ 0xcfff ∷ []

abbrev pub steady_table_5 : List ℕ
steady_table_5 =
    0xc12f ∷ 0x601d ∷ 0x9057 ∷ 0x3002 ∷ 0xb14f ∷ 0x5005 ∷ 0x807b ∷ 0x2000 ∷ 0xc92f ∷ 0x700b ∷ 0xa1f7
    ∷ 0x4001 ∷ 0xc52f ∷ 0x603d ∷ 0x9157 ∷ 0x3006 ∷ 0xcd2f ∷ 0x80fb ∷ 0xb54f ∷ 0x5015 ∷ 0xc32f
    ∷ 0x704b ∷ 0xa3f7 ∷ 0x4009 ∷ 0xcb2f ∷ 0x8007 ∷ 0xc72f ∷ 0x6003 ∷ 0xcf2f ∷ 0x8087 ∷ 0xb34f
    ∷ 0x500d ∷ 0xc0af ∷ 0x90d7 ∷ 0xc8af ∷ 0x6023 ∷ 0xc4af ∷ 0x8047 ∷ 0xb74f ∷ 0x6013 ∷ 0xccaf
    ∷ 0xa00f ∷ 0xc2af ∷ 0x702b ∷ 0xcaaf ∷ 0x91d7 ∷ 0xc6af ∷ 0x6033 ∷ 0xceaf ∷ 0xb0cf ∷ 0xc1af
    ∷ 0x80c7 ∷ 0xc9af ∷ 0xa20f ∷ 0xc5af ∷ 0x706b ∷ 0xcdaf ∷ 0xc3af ∷ 0xcbaf ∷ 0x9037 ∷ 0xc7af
    ∷ 0xb4cf ∷ 0xcfaf ∷ 0x8027 ∷ 0xc06f ∷ 0xa10f ∷ 0xc86f ∷ 0x701b ∷ 0xc46f ∷ 0x9137 ∷ 0xcc6f
    ∷ 0x705b ∷ 0xc26f ∷ 0xb2cf ∷ 0xca6f ∷ 0x80a7 ∷ 0xc66f ∷ 0xa30f ∷ 0xce6f ∷ 0x703b ∷ 0xc16f
    ∷ 0xc96f ∷ 0xc56f ∷ 0x90b7 ∷ 0xcd6f ∷ 0xb6cf ∷ 0xc36f ∷ 0x8067 ∷ 0xcb6f ∷ 0xc76f ∷ 0xcf6f
    ∷ 0xa08f ∷ 0xc0ef ∷ 0xc8ef ∷ 0xc4ef ∷ 0x91b7 ∷ 0xccef ∷ 0xc2ef ∷ 0xcaef ∷ 0xa28f ∷ 0xc6ef
    ∷ 0xceef ∷ 0xc1ef ∷ 0x9077 ∷ 0xc9ef ∷ 0xc5ef ∷ 0xcdef ∷ 0xb1cf ∷ 0xc3ef ∷ 0xcbef ∷ 0xc7ef
    ∷ 0xa18f ∷ 0xcfef ∷ 0xc01f ∷ 0xc81f ∷ 0xc41f ∷ 0xcc1f ∷ 0xc21f ∷ 0xca1f ∷ 0xb5cf ∷ 0xc61f
    ∷ 0xce1f ∷ 0xc11f ∷ 0xc91f ∷ 0xc51f ∷ 0xcd1f ∷ 0xc31f ∷ 0xcb1f ∷ 0xc71f ∷ 0xb3cf ∷ 0xcf1f
    ∷ 0x80e7 ∷ 0xc09f ∷ 0xa38f ∷ 0xc89f ∷ 0x8017 ∷ 0xc49f ∷ 0xcc9f ∷ 0xc29f ∷ 0x9177 ∷ 0xca9f
    ∷ 0xb7cf ∷ 0xc69f ∷ 0x8097 ∷ 0xce9f ∷ 0xc19f ∷ 0xc99f ∷ 0xa04f ∷ 0xc59f ∷ 0xcd9f ∷ 0xc39f
    ∷ 0x90f7 ∷ 0xcb9f ∷ 0xc79f ∷ 0xcf9f ∷ 0xb02f ∷ 0xc05f ∷ 0xc85f ∷ 0xc45f ∷ 0xa24f ∷ 0xcc5f
    ∷ 0xc25f ∷ 0xca5f ∷ 0xb42f ∷ 0xc65f ∷ 0xce5f ∷ 0xc15f ∷ 0xb22f ∷ 0xc95f ∷ 0xc55f ∷ 0xcd5f
    ∷ 0xc35f ∷ 0xcb5f ∷ 0xc75f ∷ 0xcf5f ∷ 0xb62f ∷ 0xc0df ∷ 0xc8df ∷ 0xc4df ∷ 0xccdf ∷ 0xc2df
    ∷ 0xcadf ∷ 0xc6df ∷ 0xcedf ∷ 0xc1df ∷ 0xc9df ∷ 0xc5df ∷ 0xcddf ∷ 0xc3df ∷ 0xcbdf ∷ 0xc7df
    ∷ 0xcfdf ∷ 0xc03f ∷ 0xc83f ∷ 0xc43f ∷ 0xcc3f ∷ 0xc23f ∷ 0xca3f ∷ 0xc63f ∷ 0xce3f ∷ 0xc13f
    ∷ 0xc93f ∷ 0xc53f ∷ 0xcd3f ∷ 0xc33f ∷ 0xcb3f ∷ 0xc73f ∷ 0xcf3f ∷ 0xc0bf ∷ 0xc8bf ∷ 0xc4bf
    ∷ 0xccbf ∷ 0xc2bf ∷ 0xcabf ∷ 0xc6bf ∷ 0xcebf ∷ 0xc1bf ∷ 0xc9bf ∷ 0xc5bf ∷ 0xcdbf ∷ 0xc3bf
    ∷ 0xcbbf ∷ 0xc7bf ∷ 0xcfbf ∷ 0xc07f ∷ 0xc87f ∷ 0xc47f ∷ 0xcc7f ∷ 0xc27f ∷ 0xca7f ∷ 0xc67f
    ∷ 0xce7f ∷ 0xc17f ∷ 0xc97f ∷ 0xc57f ∷ 0xcd7f ∷ 0xc37f ∷ 0xcb7f ∷ 0xc77f ∷ 0xcf7f ∷ 0xc0ff
    ∷ 0xc8ff ∷ 0xc4ff ∷ 0xccff ∷ 0xc2ff ∷ 0xcaff ∷ 0xc6ff ∷ 0xceff ∷ 0xc1ff ∷ 0xc9ff ∷ 0xc5ff
    ∷ 0xcdff ∷ 0xc3ff ∷ 0xcbff ∷ 0xc7ff ∷ 0xcfff ∷ []

abbrev pub steady_table_6 : List ℕ
steady_table_6 =
    0x601d ∷ 0x3002 ∷ 0x603d ∷ 0x2000 ∷ 0x700b ∷ 0x4001 ∷ 0x6003 ∷ 0x3006 ∷ 0x807b ∷ 0x5005 ∷ 0x704b
    ∷ 0x4009 ∷ 0x9097 ∷ 0x6023 ∷ 0x80fb ∷ 0x5015 ∷ 0x9197 ∷ 0x6013 ∷ 0x8007 ∷ 0x500d ∷ 0xa0f7
    ∷ 0x702b ∷ 0x9057 ∷ 0x6033 ∷ 0xb14f ∷ 0x8087 ∷ 0xa2f7 ∷ 0x706b ∷ 0xb54f ∷ 0x9157 ∷ 0xa1f7
    ∷ 0x8047 ∷ 0xa3f7 ∷ 0x701b ∷ 0x90d7 ∷ 0x705b ∷ 0xb34f ∷ 0x80c7 ∷ 0xa00f ∷ 0x703b ∷ 0xc32f
    ∷ 0x91d7 ∷ 0xb74f ∷ 0x8027 ∷ 0xcb2f ∷ 0xa20f ∷ 0xb0cf ∷ 0x9037 ∷ 0xc72f ∷ 0xa10f ∷ 0xcf2f
    ∷ 0x9137 ∷ 0xc0af ∷ 0xb4cf ∷ 0xc8af ∷ 0xa30f ∷ 0xc4af ∷ 0xccaf ∷ 0xc2af ∷ 0xb2cf ∷ 0xcaaf
    ∷ 0xc6af ∷ 0xceaf ∷ 0xb6cf ∷ 0xb1cf ∷ 0x80a7 ∷ 0xa08f ∷ 0x8067 ∷ 0xc1af ∷ 0x90b7 ∷ 0xb5cf
    ∷ 0x80e7 ∷ 0xc9af ∷ 0xa28f ∷ 0xc5af ∷ 0x91b7 ∷ 0xcdaf ∷ 0xb3cf ∷ 0xc3af ∷ 0xa18f ∷ 0xcbaf
    ∷ 0xb7cf ∷ 0xc7af ∷ 0xa38f ∷ 0xcfaf ∷ 0xc06f ∷ 0xc86f ∷ 0xb02f ∷ 0xc46f ∷ 0xcc6f ∷ 0xc26f
    ∷ 0xca6f ∷ 0xc66f ∷ 0xce6f ∷ 0xc16f ∷ 0xc96f ∷ 0xc56f ∷ 0xcd6f ∷ 0xc36f ∷ 0xb42f ∷ 0xcb6f
    ∷ 0xc76f ∷ 0xcf6f ∷ 0xc0ef ∷ 0xc8ef ∷ 0xc4ef ∷ 0xccef ∷ 0xc2ef ∷ 0xcaef ∷ 0xc6ef ∷ 0xceef
    ∷ 0xc1ef ∷ 0xc9ef ∷ 0xc5ef ∷ 0xcdef ∷ 0xc3ef ∷ 0xcbef ∷ 0xc7ef ∷ 0xcfef ∷ 0xc01f ∷ 0xc81f
    ∷ 0xc41f ∷ 0xcc1f ∷ 0xc21f ∷ 0xca1f ∷ 0xc61f ∷ 0xce1f ∷ 0xc11f ∷ 0xc91f ∷ 0x9077 ∷ 0xb22f
    ∷ 0x8017 ∷ 0xc51f ∷ 0xa04f ∷ 0xcd1f ∷ 0x9177 ∷ 0xc31f ∷ 0xb62f ∷ 0xcb1f ∷ 0xa24f ∷ 0xc71f
    ∷ 0xcf1f ∷ 0xc09f ∷ 0xb12f ∷ 0xc89f ∷ 0xc49f ∷ 0xcc9f ∷ 0xb52f ∷ 0xc29f ∷ 0xca9f ∷ 0xc69f
    ∷ 0xce9f ∷ 0xc19f ∷ 0xc99f ∷ 0xc59f ∷ 0xcd9f ∷ 0xc39f ∷ 0xcb9f ∷ 0xc79f ∷ 0xcf9f ∷ 0xc05f
    ∷ 0xc85f ∷ 0xc45f ∷ 0xcc5f ∷ 0xc25f ∷ 0xca5f ∷ 0xc65f ∷ 0xce5f ∷ 0xc15f ∷ 0xc95f ∷ 0xc55f
    ∷ 0xcd5f ∷ 0xc35f ∷ 0xcb5f ∷ 0xc75f ∷ 0xcf5f ∷ 0xc0df ∷ 0xc8df ∷ 0xc4df ∷ 0xccdf ∷ 0xc2df
    ∷ 0xcadf ∷ 0xc6df ∷ 0xcedf ∷ 0xc1df ∷ 0xc9df ∷ 0xc5df ∷ 0xcddf ∷ 0xc3df ∷ 0xcbdf ∷ 0xc7df
    ∷ 0xcfdf ∷ 0xc03f ∷ 0xc83f ∷ 0xc43f ∷ 0xcc3f ∷ 0xc23f ∷ 0xca3f ∷ 0xc63f ∷ 0xce3f ∷ 0xc13f
    ∷ 0xc93f ∷ 0xc53f ∷ 0xcd3f ∷ 0xc33f ∷ 0xcb3f ∷ 0xc73f ∷ 0xcf3f ∷ 0xc0bf ∷ 0xc8bf ∷ 0xc4bf
    ∷ 0xccbf ∷ 0xc2bf ∷ 0xcabf ∷ 0xc6bf ∷ 0xcebf ∷ 0xc1bf ∷ 0xc9bf ∷ 0xc5bf ∷ 0xcdbf ∷ 0xc3bf
    ∷ 0xcbbf ∷ 0xc7bf ∷ 0xcfbf ∷ 0xc07f ∷ 0xc87f ∷ 0xc47f ∷ 0xcc7f ∷ 0xc27f ∷ 0xca7f ∷ 0xc67f
    ∷ 0xce7f ∷ 0xc17f ∷ 0xc97f ∷ 0xc57f ∷ 0xcd7f ∷ 0xc37f ∷ 0xcb7f ∷ 0xc77f ∷ 0xcf7f ∷ 0xc0ff
    ∷ 0xc8ff ∷ 0xc4ff ∷ 0xccff ∷ 0xc2ff ∷ 0xcaff ∷ 0xc6ff ∷ 0xceff ∷ 0xc1ff ∷ 0xc9ff ∷ 0xc5ff
    ∷ 0xcdff ∷ 0xc3ff ∷ 0xcbff ∷ 0xc7ff ∷ 0xcfff ∷ []

abbrev pub steady_table_7 : List ℕ
steady_table_7 =
    0x700b ∷ 0x3002 ∷ 0x601d ∷ 0x2000 ∷ 0x704b ∷ 0x4001 ∷ 0x603d ∷ 0x3006 ∷ 0x8007 ∷ 0x5005 ∷ 0x702b
    ∷ 0x4009 ∷ 0x9097 ∷ 0x6003 ∷ 0x8087 ∷ 0x5015 ∷ 0x9197 ∷ 0x6023 ∷ 0x8047 ∷ 0x500d ∷ 0xa0f7
    ∷ 0x706b ∷ 0x9057 ∷ 0x6013 ∷ 0xb14f ∷ 0x80c7 ∷ 0xa2f7 ∷ 0x701b ∷ 0xc52f ∷ 0x9157 ∷ 0xb54f
    ∷ 0x8027 ∷ 0xa1f7 ∷ 0x705b ∷ 0x90d7 ∷ 0x6033 ∷ 0xb34f ∷ 0x80a7 ∷ 0xa3f7 ∷ 0x703b ∷ 0xcd2f
    ∷ 0x91d7 ∷ 0xb74f ∷ 0x8067 ∷ 0xc32f ∷ 0xa00f ∷ 0xcb2f ∷ 0x9037 ∷ 0xc72f ∷ 0xa20f ∷ 0xcf2f
    ∷ 0x9137 ∷ 0xc0af ∷ 0xb0cf ∷ 0xc8af ∷ 0xa10f ∷ 0xc4af ∷ 0xccaf ∷ 0xc2af ∷ 0xb4cf ∷ 0xcaaf
    ∷ 0xc6af ∷ 0xceaf ∷ 0xb2cf ∷ 0xb6cf ∷ 0x80e7 ∷ 0xa30f ∷ 0x707b ∷ 0xc1af ∷ 0x90b7 ∷ 0xb1cf
    ∷ 0x8017 ∷ 0xc9af ∷ 0xa08f ∷ 0xc5af ∷ 0x91b7 ∷ 0xcdaf ∷ 0xb5cf ∷ 0xc3af ∷ 0xa28f ∷ 0xcbaf
    ∷ 0xb3cf ∷ 0xc7af ∷ 0xa18f ∷ 0xcfaf ∷ 0xc06f ∷ 0xc86f ∷ 0xb7cf ∷ 0xc46f ∷ 0xcc6f ∷ 0xc26f
    ∷ 0xca6f ∷ 0xc66f ∷ 0xce6f ∷ 0xc16f ∷ 0xc96f ∷ 0xc56f ∷ 0xcd6f ∷ 0xc36f ∷ 0xb02f ∷ 0xcb6f
    ∷ 0xc76f ∷ 0xcf6f ∷ 0xc0ef ∷ 0xc8ef ∷ 0xc4ef ∷ 0xccef ∷ 0xc2ef ∷ 0xcaef ∷ 0xc6ef ∷ 0xceef
    ∷ 0xc1ef ∷ 0xc9ef ∷ 0xc5ef ∷ 0xcdef ∷ 0xc3ef ∷ 0xcbef ∷ 0xc7ef ∷ 0xcfef ∷ 0xc01f ∷ 0xc81f
    ∷ 0xc41f ∷ 0xcc1f ∷ 0xc21f ∷ 0xca1f ∷ 0xc61f ∷ 0xce1f ∷ 0xc11f ∷ 0xc91f ∷ 0xa38f ∷ 0xb42f
    ∷ 0x9077 ∷ 0xc51f ∷ 0xa04f ∷ 0xcd1f ∷ 0x9177 ∷ 0xc31f ∷ 0xb22f ∷ 0xcb1f ∷ 0xa24f ∷ 0xc71f
    ∷ 0xcf1f ∷ 0xc09f ∷ 0xb62f ∷ 0xc89f ∷ 0xc49f ∷ 0xcc9f ∷ 0xb12f ∷ 0xc29f ∷ 0xca9f ∷ 0xc69f
    ∷ 0xce9f ∷ 0xc19f ∷ 0xc99f ∷ 0xc59f ∷ 0xcd9f ∷ 0xc39f ∷ 0xcb9f ∷ 0xc79f ∷ 0xcf9f ∷ 0xc05f
    ∷ 0xc85f ∷ 0xc45f ∷ 0xcc5f ∷ 0xc25f ∷ 0xca5f ∷ 0xc65f ∷ 0xce5f ∷ 0xc15f ∷ 0xc95f ∷ 0xc55f
    ∷ 0xcd5f ∷ 0xc35f ∷ 0xcb5f ∷ 0xc75f ∷ 0xcf5f ∷ 0xc0df ∷ 0xc8df ∷ 0xc4df ∷ 0xccdf ∷ 0xc2df
    ∷ 0xcadf ∷ 0xc6df ∷ 0xcedf ∷ 0xc1df ∷ 0xc9df ∷ 0xc5df ∷ 0xcddf ∷ 0xc3df ∷ 0xcbdf ∷ 0xc7df
    ∷ 0xcfdf ∷ 0xc03f ∷ 0xc83f ∷ 0xc43f ∷ 0xcc3f ∷ 0xc23f ∷ 0xca3f ∷ 0xc63f ∷ 0xce3f ∷ 0xc13f
    ∷ 0xc93f ∷ 0xc53f ∷ 0xcd3f ∷ 0xc33f ∷ 0xcb3f ∷ 0xc73f ∷ 0xcf3f ∷ 0xc0bf ∷ 0xc8bf ∷ 0xc4bf
    ∷ 0xccbf ∷ 0xc2bf ∷ 0xcabf ∷ 0xc6bf ∷ 0xcebf ∷ 0xc1bf ∷ 0xc9bf ∷ 0xc5bf ∷ 0xcdbf ∷ 0xc3bf
    ∷ 0xcbbf ∷ 0xc7bf ∷ 0xcfbf ∷ 0xc07f ∷ 0xc87f ∷ 0xc47f ∷ 0xcc7f ∷ 0xc27f ∷ 0xca7f ∷ 0xc67f
    ∷ 0xce7f ∷ 0xc17f ∷ 0xc97f ∷ 0xc57f ∷ 0xcd7f ∷ 0xc37f ∷ 0xcb7f ∷ 0xc77f ∷ 0xcf7f ∷ 0xc0ff
    ∷ 0xc8ff ∷ 0xc4ff ∷ 0xccff ∷ 0xc2ff ∷ 0xcaff ∷ 0xc6ff ∷ 0xceff ∷ 0xc1ff ∷ 0xc9ff ∷ 0xc5ff
    ∷ 0xcdff ∷ 0xc3ff ∷ 0xcbff ∷ 0xc7ff ∷ 0xcfff ∷ []
