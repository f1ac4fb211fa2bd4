-- ===== src/Cpc/Tables/Midrange.antt =====
-- The code tables of the transition to the steady state, from cpc/include/compression_data.hpp.
use whylogs_datasketches.Base.{ℕ, List, [], ◌∷◌}

abbrev pub midrange_table_0 : List ℕ
midrange_table_0 =
    0x1000 ∷ 0x2001 ∷ 0x4003 ∷ 0x500b ∷ 0x501b ∷ 0x6007 ∷ 0x8057 ∷ 0x9077 ∷ 0x6027 ∷ 0x80d7 ∷ 0x9177
    ∷ 0xa1f7 ∷ 0xa3f7 ∷ 0xb08f ∷ 0xc58f ∷ 0xcd8f ∷ 0x7017 ∷ 0x8037 ∷ 0xa00f ∷ 0xb48f ∷ 0xb28f
    ∷ 0xc38f ∷ 0xcb8f ∷ 0xc78f ∷ 0xcf8f ∷ 0xc04f ∷ 0xc84f ∷ 0xc44f ∷ 0xcc4f ∷ 0xc24f ∷ 0xca4f
    ∷ 0xc64f ∷ 0x80b7 ∷ 0xa20f ∷ 0xb68f ∷ 0xce4f ∷ 0xc14f ∷ 0xc94f ∷ 0xc54f ∷ 0xcd4f ∷ 0xc34f
    ∷ 0xcb4f ∷ 0xc74f ∷ 0xcf4f ∷ 0xc0cf ∷ 0xc8cf ∷ 0xc4cf ∷ 0xcccf ∷ 0xc2cf ∷ 0xcacf ∷ 0xc6cf
    ∷ 0xcecf ∷ 0xc1cf ∷ 0xc9cf ∷ 0xc5cf ∷ 0xcdcf ∷ 0xc3cf ∷ 0xcbcf ∷ 0xc7cf ∷ 0xcfcf ∷ 0xc02f
    ∷ 0xc82f ∷ 0xc42f ∷ 0xcc2f ∷ 0x90f7 ∷ 0xa10f ∷ 0xc22f ∷ 0xca2f ∷ 0xc62f ∷ 0xce2f ∷ 0xc12f
    ∷ 0xc92f ∷ 0xc52f ∷ 0xcd2f ∷ 0xc32f ∷ 0xcb2f ∷ 0xc72f ∷ 0xcf2f ∷ 0xc0af ∷ 0xc8af ∷ 0xc4af
    ∷ 0xccaf ∷ 0xc2af ∷ 0xcaaf ∷ 0xc6af ∷ 0xceaf ∷ 0xc1af ∷ 0xc9af ∷ 0xc5af ∷ 0xcdaf ∷ 0xc3af
    ∷ 0xcbaf ∷ 0xc7af ∷ 0xcfaf ∷ 0xc06f ∷ 0xc86f ∷ 0xc46f ∷ 0xcc6f ∷ 0xc26f ∷ 0xca6f ∷ 0xc66f
    ∷ 0xce6f ∷ 0xc16f ∷ 0xc96f ∷ 0xc56f ∷ 0xcd6f ∷ 0xc36f ∷ 0xcb6f ∷ 0xc76f ∷ 0xcf6f ∷ 0xc0ef
    ∷ 0xc8ef ∷ 0xc4ef ∷ 0xccef ∷ 0xc2ef ∷ 0xcaef ∷ 0xc6ef ∷ 0xceef ∷ 0xc1ef ∷ 0xc9ef ∷ 0xc5ef
    ∷ 0xcdef ∷ 0xc3ef ∷ 0xcbef ∷ 0xc7ef ∷ 0xcfef ∷ 0xc01f ∷ 0xc81f ∷ 0xa30f ∷ 0xb18f ∷ 0xc41f
    ∷ 0xcc1f ∷ 0xc21f ∷ 0xca1f ∷ 0xc61f ∷ 0xce1f ∷ 0xc11f ∷ 0xc91f ∷ 0xc51f ∷ 0xcd1f ∷ 0xc31f
    ∷ 0xcb1f ∷ 0xc71f ∷ 0xcf1f ∷ 0xc09f ∷ 0xc89f ∷ 0xc49f ∷ 0xcc9f ∷ 0xc29f ∷ 0xca9f ∷ 0xc69f
    ∷ 0xce9f ∷ 0xc19f ∷ 0xc99f ∷ 0xc59f ∷ 0xcd9f ∷ 0xc39f ∷ 0xcb9f ∷ 0xc79f ∷ 0xcf9f ∷ 0xc05f
    ∷ 0xc85f ∷ 0xc45f ∷ 0xcc5f ∷ 0xc25f ∷ 0xca5f ∷ 0xc65f ∷ 0xce5f ∷ 0xc15f ∷ 0xc95f ∷ 0xc55f
    ∷ 0xcd5f ∷ 0xc35f ∷ 0xcb5f ∷ 0xc75f ∷ 0xcf5f ∷ 0xc0df ∷ 0xc8df ∷ 0xc4df ∷ 0xccdf ∷ 0xc2df
    ∷ 0xcadf ∷ 0xc6df ∷ 0xcedf ∷ 0xc1df ∷ 0xc9df ∷ 0xc5df ∷ 0xcddf ∷ 0xc3df ∷ 0xcbdf ∷ 0xc7df
    ∷ 0xcfdf ∷ 0xc03f ∷ 0xc83f ∷ 0xc43f ∷ 0xcc3f ∷ 0xc23f ∷ 0xca3f ∷ 0xc63f ∷ 0xce3f ∷ 0xc13f
    ∷ 0xc93f ∷ 0xc53f ∷ 0xcd3f ∷ 0xc33f ∷ 0xcb3f ∷ 0xc73f ∷ 0xcf3f ∷ 0xc0bf ∷ 0xc8bf ∷ 0xc4bf
    ∷ 0xccbf ∷ 0xc2bf ∷ 0xcabf ∷ 0xc6bf ∷ 0xcebf ∷ 0xc1bf ∷ 0xc9bf ∷ 0xc5bf ∷ 0xcdbf ∷ 0xc3bf
    ∷ 0xcbbf ∷ 0xc7bf ∷ 0xcfbf ∷ 0xc07f ∷ 0xc87f ∷ 0xc47f ∷ 0xcc7f ∷ 0xc27f ∷ 0xca7f ∷ 0xc67f
    ∷ 0xce7f ∷ 0xc17f ∷ 0xc97f ∷ 0xc57f ∷ 0xcd7f ∷ 0xc37f ∷ 0xcb7f ∷ 0xc77f ∷ 0xcf7f ∷ 0xc0ff
    ∷ 0xc8ff ∷ 0xc4ff ∷ 0xccff ∷ 0xc2ff ∷ 0xcaff ∷ 0xc6ff ∷ 0xceff ∷ 0xc1ff ∷ 0xc9ff ∷ 0xc5ff
    ∷ 0xcdff ∷ 0xc3ff ∷ 0xcbff ∷ 0xc7ff ∷ 0xcfff ∷ []

abbrev pub midrange_table_1 : List ℕ
midrange_table_1 =
    0x2000 ∷ 0x2002 ∷ 0x3001 ∷ 0x4005 ∷ 0x400d ∷ 0x5003 ∷ 0x600b ∷ 0x602b ∷ 0x5013 ∷ 0x601b ∷ 0x7007
    ∷ 0x7047 ∷ 0x8017 ∷ 0x90b7 ∷ 0xa1f7 ∷ 0xa3f7 ∷ 0x603b ∷ 0x7027 ∷ 0x8097 ∷ 0x8057 ∷ 0x91b7
    ∷ 0xa00f ∷ 0xb18f ∷ 0xb58f ∷ 0xa20f ∷ 0xb38f ∷ 0xc54f ∷ 0xcd4f ∷ 0xc34f ∷ 0xcb4f ∷ 0xc74f
    ∷ 0xcf4f ∷ 0x7067 ∷ 0x80d7 ∷ 0x9077 ∷ 0xa10f ∷ 0xa30f ∷ 0xb78f ∷ 0xc0cf ∷ 0xc8cf ∷ 0xb04f
    ∷ 0xc4cf ∷ 0xcccf ∷ 0xc2cf ∷ 0xcacf ∷ 0xc6cf ∷ 0xcecf ∷ 0xc1cf ∷ 0xc9cf ∷ 0xc5cf ∷ 0xcdcf
    ∷ 0xc3cf ∷ 0xcbcf ∷ 0xc7cf ∷ 0xcfcf ∷ 0xc02f ∷ 0xc82f ∷ 0xc42f ∷ 0xcc2f ∷ 0xc22f ∷ 0xca2f
    ∷ 0xc62f ∷ 0xce2f ∷ 0xc12f ∷ 0x8037 ∷ 0x9177 ∷ 0xa08f ∷ 0xb44f ∷ 0xb24f ∷ 0xc92f ∷ 0xc52f
    ∷ 0xcd2f ∷ 0xc32f ∷ 0xcb2f ∷ 0xc72f ∷ 0xcf2f ∷ 0xc0af ∷ 0xc8af ∷ 0xc4af ∷ 0xccaf ∷ 0xc2af
    ∷ 0xcaaf ∷ 0xc6af ∷ 0xceaf ∷ 0xc1af ∷ 0xc9af ∷ 0xc5af ∷ 0xcdaf ∷ 0xc3af ∷ 0xcbaf ∷ 0xc7af
    ∷ 0xcfaf ∷ 0xc06f ∷ 0xc86f ∷ 0xc46f ∷ 0xcc6f ∷ 0xc26f ∷ 0xca6f ∷ 0xc66f ∷ 0xce6f ∷ 0xc16f
    ∷ 0xc96f ∷ 0xc56f ∷ 0xcd6f ∷ 0xc36f ∷ 0xcb6f ∷ 0xc76f ∷ 0xcf6f ∷ 0xc0ef ∷ 0xc8ef ∷ 0xc4ef
    ∷ 0xccef ∷ 0xc2ef ∷ 0xcaef ∷ 0xc6ef ∷ 0xceef ∷ 0xc1ef ∷ 0xc9ef ∷ 0xc5ef ∷ 0xcdef ∷ 0xc3ef
    ∷ 0xcbef ∷ 0xc7ef ∷ 0xcfef ∷ 0xc01f ∷ 0xc81f ∷ 0xc41f ∷ 0xcc1f ∷ 0x90f7 ∷ 0xa28f ∷ 0xb64f
    ∷ 0xb14f ∷ 0xc21f ∷ 0xca1f ∷ 0xc61f ∷ 0xce1f ∷ 0xc11f ∷ 0xc91f ∷ 0xc51f ∷ 0xcd1f ∷ 0xc31f
    ∷ 0xcb1f ∷ 0xc71f ∷ 0xcf1f ∷ 0xc09f ∷ 0xc89f ∷ 0xc49f ∷ 0xcc9f ∷ 0xc29f ∷ 0xca9f ∷ 0xc69f
    ∷ 0xce9f ∷ 0xc19f ∷ 0xc99f ∷ 0xc59f ∷ 0xcd9f ∷ 0xc39f ∷ 0xcb9f ∷ 0xc79f ∷ 0xcf9f ∷ 0xc05f
    ∷ 0xc85f ∷ 0xc45f ∷ 0xcc5f ∷ 0xc25f ∷ 0xca5f ∷ 0xc65f ∷ 0xce5f ∷ 0xc15f ∷ 0xc95f ∷ 0xc55f
    ∷ 0xcd5f ∷ 0xc35f ∷ 0xcb5f ∷ 0xc75f ∷ 0xcf5f ∷ 0xc0df ∷ 0xc8df ∷ 0xc4df ∷ 0xccdf ∷ 0xc2df
    ∷ 0xcadf ∷ 0xc6df ∷ 0xcedf ∷ 0xc1df ∷ 0xc9df ∷ 0xc5df ∷ 0xcddf ∷ 0xc3df ∷ 0xcbdf ∷ 0xc7df
    ∷ 0xcfdf ∷ 0xc03f ∷ 0xc83f ∷ 0xc43f ∷ 0xcc3f ∷ 0xc23f ∷ 0xca3f ∷ 0xc63f ∷ 0xce3f ∷ 0xc13f
    ∷ 0xc93f ∷ 0xc53f ∷ 0xcd3f ∷ 0xc33f ∷ 0xcb3f ∷ 0xc73f ∷ 0xcf3f ∷ 0xc0bf ∷ 0xc8bf ∷ 0xc4bf
    ∷ 0xccbf ∷ 0xc2bf ∷ 0xcabf ∷ 0xc6bf ∷ 0xcebf ∷ 0xc1bf ∷ 0xc9bf ∷ 0xc5bf ∷ 0xcdbf ∷ 0xc3bf
    ∷ 0xcbbf ∷ 0xc7bf ∷ 0xcfbf ∷ 0xc07f ∷ 0xc87f ∷ 0xc47f ∷ 0xcc7f ∷ 0xc27f ∷ 0xca7f ∷ 0xc67f
    ∷ 0xce7f ∷ 0xc17f ∷ 0xc97f ∷ 0xc57f ∷ 0xcd7f ∷ 0xc37f ∷ 0xcb7f ∷ 0xc77f ∷ 0xcf7f ∷ 0xc0ff
    ∷ 0xc8ff ∷ 0xc4ff ∷ 0xccff ∷ 0xc2ff ∷ 0xcaff ∷ 0xc6ff ∷ 0xceff ∷ 0xc1ff ∷ 0xc9ff ∷ 0xc5ff
    ∷ 0xcdff ∷ 0xc3ff ∷ 0xcbff ∷ 0xc7ff ∷ 0xcfff ∷ []

abbrev pub midrange_table_2 : List ℕ
midrange_table_2 =
    0x2000 ∷ 0x2002 ∷ 0x4005 ∷ 0x3001 ∷ 0x5003 ∷ 0x400d ∷ 0x600b ∷ 0x602b ∷ 0x601b ∷ 0x5013 ∷ 0x703b
    ∷ 0x707b ∷ 0x8067 ∷ 0x80e7 ∷ 0x90d7 ∷ 0x91d7 ∷ 0x7007 ∷ 0x7047 ∷ 0x8017 ∷ 0x8097 ∷ 0x9037
    ∷ 0x9137 ∷ 0xa1f7 ∷ 0xa3f7 ∷ 0xa00f ∷ 0xa20f ∷ 0xb38f ∷ 0xb78f ∷ 0xc0cf ∷ 0xc8cf ∷ 0xc4cf
    ∷ 0xcccf ∷ 0x8057 ∷ 0x7027 ∷ 0x90b7 ∷ 0x91b7 ∷ 0xa10f ∷ 0xa30f ∷ 0xb04f ∷ 0xb44f ∷ 0xb24f
    ∷ 0xb64f ∷ 0xc2cf ∷ 0xcacf ∷ 0xc6cf ∷ 0xcecf ∷ 0xc1cf ∷ 0xc9cf ∷ 0xc5cf ∷ 0xcdcf ∷ 0xc3cf
    ∷ 0xcbcf ∷ 0xc7cf ∷ 0xcfcf ∷ 0xc02f ∷ 0xc82f ∷ 0xc42f ∷ 0xcc2f ∷ 0xc22f ∷ 0xca2f ∷ 0xc62f
    ∷ 0xce2f ∷ 0xc12f ∷ 0xc92f ∷ 0x9077 ∷ 0x9177 ∷ 0xa08f ∷ 0xa28f ∷ 0xb14f ∷ 0xb54f ∷ 0xc52f
    ∷ 0xcd2f ∷ 0xc32f ∷ 0xcb2f ∷ 0xc72f ∷ 0xcf2f ∷ 0xc0af ∷ 0xc8af ∷ 0xc4af ∷ 0xccaf ∷ 0xc2af
    ∷ 0xcaaf ∷ 0xc6af ∷ 0xceaf ∷ 0xc1af ∷ 0xc9af ∷ 0xc5af ∷ 0xcdaf ∷ 0xc3af ∷ 0xcbaf ∷ 0xc7af
    ∷ 0xcfaf ∷ 0xc06f ∷ 0xc86f ∷ 0xc46f ∷ 0xcc6f ∷ 0xc26f ∷ 0xca6f ∷ 0xc66f ∷ 0xce6f ∷ 0xc16f
    ∷ 0xc96f ∷ 0xc56f ∷ 0xcd6f ∷ 0xc36f ∷ 0xcb6f ∷ 0xc76f ∷ 0xcf6f ∷ 0xc0ef ∷ 0xc8ef ∷ 0xc4ef
    ∷ 0xccef ∷ 0xc2ef ∷ 0xcaef ∷ 0xc6ef ∷ 0xceef ∷ 0xc1ef ∷ 0xc9ef ∷ 0xc5ef ∷ 0xcdef ∷ 0xc3ef
    ∷ 0xcbef ∷ 0xc7ef ∷ 0xcfef ∷ 0xc01f ∷ 0xc81f ∷ 0xc41f ∷ 0xcc1f ∷ 0xa18f ∷ 0x90f7 ∷ 0xb34f
    ∷ 0xb74f ∷ 0xc21f ∷ 0xca1f ∷ 0xc61f ∷ 0xce1f ∷ 0xc11f ∷ 0xc91f ∷ 0xc51f ∷ 0xcd1f ∷ 0xc31f
    ∷ 0xcb1f ∷ 0xc71f ∷ 0xcf1f ∷ 0xc09f ∷ 0xc89f ∷ 0xc49f ∷ 0xcc9f ∷ 0xc29f ∷ 0xca9f ∷ 0xc69f
    ∷ 0xce9f ∷ 0xc19f ∷ 0xc99f ∷ 0xc59f ∷ 0xcd9f ∷ 0xc39f ∷ 0xcb9f ∷ 0xc79f ∷ 0xcf9f ∷ 0xc05f
    ∷ 0xc85f ∷ 0xc45f ∷ 0xcc5f ∷ 0xc25f ∷ 0xca5f ∷ 0xc65f ∷ 0xce5f ∷ 0xc15f ∷ 0xc95f ∷ 0xc55f
    ∷ 0xcd5f ∷ 0xc35f ∷ 0xcb5f ∷ 0xc75f ∷ 0xcf5f ∷ 0xc0df ∷ 0xc8df ∷ 0xc4df ∷ 0xccdf ∷ 0xc2df
    ∷ 0xcadf ∷ 0xc6df ∷ 0xcedf ∷ 0xc1df ∷ 0xc9df ∷ 0xc5df ∷ 0xcddf ∷ 0xc3df ∷ 0xcbdf ∷ 0xc7df
    ∷ 0xcfdf ∷ 0xc03f ∷ 0xc83f ∷ 0xc43f ∷ 0xcc3f ∷ 0xc23f ∷ 0xca3f ∷ 0xc63f ∷ 0xce3f ∷ 0xc13f
    ∷ 0xc93f ∷ 0xc53f ∷ 0xcd3f ∷ 0xc33f ∷ 0xcb3f ∷ 0xc73f ∷ 0xcf3f ∷ 0xc0bf ∷ 0xc8bf ∷ 0xc4bf
    ∷ 0xccbf ∷ 0xc2bf ∷ 0xcabf ∷ 0xc6bf ∷ 0xcebf ∷ 0xc1bf ∷ 0xc9bf ∷ 0xc5bf ∷ 0xcdbf ∷ 0xc3bf
    ∷ 0xcbbf ∷ 0xc7bf ∷ 0xcfbf ∷ 0xc07f ∷ 0xc87f ∷ 0xc47f ∷ 0xcc7f ∷ 0xc27f ∷ 0xca7f ∷ 0xc67f
    ∷ 0xce7f ∷ 0xc17f ∷ 0xc97f ∷ 0xc57f ∷ 0xcd7f ∷ 0xc37f ∷ 0xcb7f ∷ 0xc77f ∷ 0xcf7f ∷ 0xc0ff
    ∷ 0xc8ff ∷ 0xc4ff ∷ 0xccff ∷ 0xc2ff ∷ 0xcaff ∷ 0xc6ff ∷ 0xceff ∷ 0xc1ff ∷ 0xc9ff ∷ 0xc5ff
    ∷ 0xcdff ∷ 0xc3ff ∷ 0xcbff ∷ 0xc7ff ∷ 0xcfff ∷ []

abbrev pub midrange_table_3 : List ℕ
midrange_table_3 =
    0x3002 ∷ 0x2000 ∷ 0x4001 ∷ 0x3006 ∷ 0x500d ∷ 0x4009 ∷ 0x501d ∷ 0x4005 ∷ 0x6013 ∷ 0x5003 ∷ 0x6033
    ∷ 0x600b ∷ 0x8027 ∷ 0x701b ∷ 0x80a7 ∷ 0x705b ∷ 0x703b ∷ 0x602b ∷ 0x707b ∷ 0x7007 ∷ 0x90d7
    ∷ 0x8067 ∷ 0x91d7 ∷ 0x80e7 ∷ 0xa1f7 ∷ 0x9037 ∷ 0xa3f7 ∷ 0xa00f ∷ 0xc5cf ∷ 0xb04f ∷ 0xcdcf
    ∷ 0xb44f ∷ 0x8017 ∷ 0x7047 ∷ 0x9137 ∷ 0x8097 ∷ 0xa20f ∷ 0x90b7 ∷ 0xa10f ∷ 0x91b7 ∷ 0xb24f
    ∷ 0xa30f ∷ 0xb64f ∷ 0xb14f ∷ 0xc3cf ∷ 0xcbcf ∷ 0xc7cf ∷ 0xcfcf ∷ 0xc02f ∷ 0xb54f ∷ 0xc82f
    ∷ 0xc42f ∷ 0xcc2f ∷ 0xc22f ∷ 0xca2f ∷ 0xc62f ∷ 0xce2f ∷ 0xc12f ∷ 0xc92f ∷ 0xc52f ∷ 0xcd2f
    ∷ 0xc32f ∷ 0xcb2f ∷ 0xc72f ∷ 0x9077 ∷ 0x8057 ∷ 0xa08f ∷ 0x9177 ∷ 0xb34f ∷ 0xa28f ∷ 0xb74f
    ∷ 0xb0cf ∷ 0xcf2f ∷ 0xb4cf ∷ 0xc0af ∷ 0xc8af ∷ 0xc4af ∷ 0xccaf ∷ 0xc2af ∷ 0xcaaf ∷ 0xc6af
    ∷ 0xceaf ∷ 0xc1af ∷ 0xc9af ∷ 0xc5af ∷ 0xcdaf ∷ 0xc3af ∷ 0xcbaf ∷ 0xc7af ∷ 0xcfaf ∷ 0xc06f
    ∷ 0xc86f ∷ 0xc46f ∷ 0xcc6f ∷ 0xc26f ∷ 0xca6f ∷ 0xc66f ∷ 0xce6f ∷ 0xc16f ∷ 0xc96f ∷ 0xc56f
    ∷ 0xcd6f ∷ 0xc36f ∷ 0xcb6f ∷ 0xc76f ∷ 0xcf6f ∷ 0xc0ef ∷ 0xc8ef ∷ 0xc4ef ∷ 0xccef ∷ 0xc2ef
    ∷ 0xcaef ∷ 0xc6ef ∷ 0xceef ∷ 0xc1ef ∷ 0xc9ef ∷ 0xc5ef ∷ 0xcdef ∷ 0xc3ef ∷ 0xcbef ∷ 0xc7ef
    ∷ 0xcfef ∷ 0xc01f ∷ 0xc81f ∷ 0xc41f ∷ 0xcc1f ∷ 0xc21f ∷ 0xca1f ∷ 0xa18f ∷ 0x90f7 ∷ 0xb2cf
    ∷ 0xa38f ∷ 0xc61f ∷ 0xb6cf ∷ 0xce1f ∷ 0xb1cf ∷ 0xc11f ∷ 0xc91f ∷ 0xc51f ∷ 0xcd1f ∷ 0xc31f
    ∷ 0xcb1f ∷ 0xc71f ∷ 0xcf1f ∷ 0xc09f ∷ 0xc89f ∷ 0xc49f ∷ 0xcc9f ∷ 0xc29f ∷ 0xca9f ∷ 0xc69f
    ∷ 0xce9f ∷ 0xc19f ∷ 0xc99f ∷ 0xc59f ∷ 0xcd9f ∷ 0xc39f ∷ 0xcb9f ∷ 0xc79f ∷ 0xcf9f ∷ 0xc05f
    ∷ 0xc85f ∷ 0xc45f ∷ 0xcc5f ∷ 0xc25f ∷ 0xca5f ∷ 0xc65f ∷ 0xce5f ∷ 0xc15f ∷ 0xc95f ∷ 0xc55f
    ∷ 0xcd5f ∷ 0xc35f ∷ 0xcb5f ∷ 0xc75f ∷ 0xcf5f ∷ 0xc0df ∷ 0xc8df ∷ 0xc4df ∷ 0xccdf ∷ 0xc2df
    ∷ 0xcadf ∷ 0xc6df ∷ 0xcedf ∷ 0xc1df ∷ 0xc9df ∷ 0xc5df ∷ 0xcddf ∷ 0xc3df ∷ 0xcbdf ∷ 0xc7df
    ∷ 0xcfdf ∷ 0xc03f ∷ 0xc83f ∷ 0xc43f ∷ 0xcc3f ∷ 0xc23f ∷ 0xca3f ∷ 0xc63f ∷ 0xce3f ∷ 0xc13f
    ∷ 0xc93f ∷ 0xc53f ∷ 0xcd3f ∷ 0xc33f ∷ 0xcb3f ∷ 0xc73f ∷ 0xcf3f ∷ 0xc0bf ∷ 0xc8bf ∷ 0xc4bf
    ∷ 0xccbf ∷ 0xc2bf ∷ 0xcabf ∷ 0xc6bf ∷ 0xcebf ∷ 0xc1bf ∷ 0xc9bf ∷ 0xc5bf ∷ 0xcdbf ∷ 0xc3bf
    ∷ 0xcbbf ∷ 0xc7bf ∷ 0xcfbf ∷ 0xc07f ∷ 0xc87f ∷ 0xc47f ∷ 0xcc7f ∷ 0xc27f ∷ 0xca7f ∷ 0xc67f
    ∷ 0xce7f ∷ 0xc17f ∷ 0xc97f ∷ 0xc57f ∷ 0xcd7f ∷ 0xc37f ∷ 0xcb7f ∷ 0xc77f ∷ 0xcf7f ∷ 0xc0ff
    ∷ 0xc8ff ∷ 0xc4ff ∷ 0xccff ∷ 0xc2ff ∷ 0xcaff ∷ 0xc6ff ∷ 0xceff ∷ 0xc1ff ∷ 0xc9ff ∷ 0xc5ff
    ∷ 0xcdff ∷ 0xc3ff ∷ 0xcbff ∷ 0xc7ff ∷ 0xcfff ∷ []

abbrev pub midrange_table_4 : List ℕ
midrange_table_4 =
    0x4006 ∷ 0x2000 ∷ 0x400e ∷ 0x3002 ∷ 0x5005 ∷ 0x4001 ∷ 0x5015 ∷ 0x4009 ∷ 0x6003 ∷ 0x500d ∷ 0x6023
    ∷ 0x501d ∷ 0x8047 ∷ 0x6013 ∷ 0x80c7 ∷ 0x6033 ∷ 0x701b ∷ 0x600b ∷ 0x8027 ∷ 0x602b ∷ 0x90d7
    ∷ 0x705b ∷ 0x91d7 ∷ 0x703b ∷ 0xa1f7 ∷ 0x80a7 ∷ 0xa3f7 ∷ 0x8067 ∷ 0xb24f ∷ 0xa00f ∷ 0xb64f
    ∷ 0xa20f ∷ 0x9037 ∷ 0x707b ∷ 0x9137 ∷ 0x7007 ∷ 0xa10f ∷ 0x80e7 ∷ 0xa30f ∷ 0x8017 ∷ 0xb14f
    ∷ 0x90b7 ∷ 0xb54f ∷ 0xa08f ∷ 0xc02f ∷ 0xb34f ∷ 0xc82f ∷ 0xb74f ∷ 0xc42f ∷ 0xb0cf ∷ 0xcc2f
    ∷ 0xb4cf ∷ 0xc22f ∷ 0xca2f ∷ 0xc62f ∷ 0xce2f ∷ 0xc12f ∷ 0xc92f ∷ 0xc52f ∷ 0xcd2f ∷ 0xc32f
    ∷ 0xcb2f ∷ 0xc72f ∷ 0xcf2f ∷ 0xa28f ∷ 0x8097 ∷ 0xa18f ∷ 0x8057 ∷ 0xb2cf ∷ 0x91b7 ∷ 0xb6cf
    ∷ 0x9077 ∷ 0xc0af ∷ 0xb1cf ∷ 0xc8af ∷ 0xb5cf ∷ 0xc4af ∷ 0xccaf ∷ 0xc2af ∷ 0xcaaf ∷ 0xc6af
    ∷ 0xceaf ∷ 0xc1af ∷ 0xc9af ∷ 0xc5af ∷ 0xcdaf ∷ 0xc3af ∷ 0xcbaf ∷ 0xc7af ∷ 0xcfaf ∷ 0xc06f
    ∷ 0xc86f ∷ 0xc46f ∷ 0xcc6f ∷ 0xc26f ∷ 0xca6f ∷ 0xc66f ∷ 0xce6f ∷ 0xc16f ∷ 0xc96f ∷ 0xc56f
    ∷ 0xcd6f ∷ 0xc36f ∷ 0xcb6f ∷ 0xc76f ∷ 0xcf6f ∷ 0xc0ef ∷ 0xc8ef ∷ 0xc4ef ∷ 0xccef ∷ 0xc2ef
    ∷ 0xcaef ∷ 0xc6ef ∷ 0xceef ∷ 0xc1ef ∷ 0xc9ef ∷ 0xc5ef ∷ 0xcdef ∷ 0xc3ef ∷ 0xcbef ∷ 0xc7ef
    ∷ 0xcfef ∷ 0xc01f ∷ 0xc81f ∷ 0xc41f ∷ 0xcc1f ∷ 0xc21f ∷ 0xca1f ∷ 0xb3cf ∷ 0x9177 ∷ 0xb7cf
    ∷ 0x90f7 ∷ 0xc61f ∷ 0xa38f ∷ 0xce1f ∷ 0xa04f ∷ 0xc11f ∷ 0xc91f ∷ 0xc51f ∷ 0xcd1f ∷ 0xc31f
    ∷ 0xcb1f ∷ 0xc71f ∷ 0xcf1f ∷ 0xc09f ∷ 0xc89f ∷ 0xc49f ∷ 0xcc9f ∷ 0xc29f ∷ 0xca9f ∷ 0xc69f
    ∷ 0xce9f ∷ 0xc19f ∷ 0xc99f ∷ 0xc59f ∷ 0xcd9f ∷ 0xc39f ∷ 0xcb9f ∷ 0xc79f ∷ 0xcf9f ∷ 0xc05f
    ∷ 0xc85f ∷ 0xc45f ∷ 0xcc5f ∷ 0xc25f ∷ 0xca5f ∷ 0xc65f ∷ 0xce5f ∷ 0xc15f ∷ 0xc95f ∷ 0xc55f
    ∷ 0xcd5f ∷ 0xc35f ∷ 0xcb5f ∷ 0xc75f ∷ 0xcf5f ∷ 0xc0df ∷ 0xc8df ∷ 0xc4df ∷ 0xccdf ∷ 0xc2df
    ∷ 0xcadf ∷ 0xc6df ∷ 0xcedf ∷ 0xc1df ∷ 0xc9df ∷ 0xc5df ∷ 0xcddf ∷ 0xc3df ∷ 0xcbdf ∷ 0xc7df
    ∷ 0xcfdf ∷ 0xc03f ∷ 0xc83f ∷ 0xc43f ∷ 0xcc3f ∷ 0xc23f ∷ 0xca3f ∷ 0xc63f ∷ 0xce3f ∷ 0xc13f
    ∷ 0xc93f ∷ 0xc53f ∷ 0xcd3f ∷ 0xc33f ∷ 0xcb3f ∷ 0xc73f ∷ 0xcf3f ∷ 0xc0bf ∷ 0xc8bf ∷ 0xc4bf
    ∷ 0xccbf ∷ 0xc2bf ∷ 0xcabf ∷ 0xc6bf ∷ 0xcebf ∷ 0xc1bf ∷ 0xc9bf ∷ 0xc5bf ∷ 0xcdbf ∷ 0xc3bf
    ∷ 0xcbbf ∷ 0xc7bf ∷ 0xcfbf ∷ 0xc07f ∷ 0xc87f ∷ 0xc47f ∷ 0xcc7f ∷ 0xc27f ∷ 0xca7f ∷ 0xc67f
    ∷ 0xce7f ∷ 0xc17f ∷ 0xc97f ∷ 0xc57f ∷ 0xcd7f ∷ 0xc37f ∷ 0xcb7f ∷ 0xc77f ∷ 0xcf7f ∷ 0xc0ff
    ∷ 0xc8ff ∷ 0xc4ff ∷ 0xccff ∷ 0xc2ff ∷ 0xcaff ∷ 0xc6ff ∷ 0xceff ∷ 0xc1ff ∷ 0xc9ff ∷ 0xc5ff
    ∷ 0xcdff ∷ 0xc3ff ∷ 0xcbff ∷ 0xc7ff ∷ 0xcfff ∷ []

abbrev pub midrange_table_5 : List ℕ
midrange_table_5 =
    0x5009 ∷ 0x3002 ∷ 0x5019 ∷ 0x2000 ∷ 0x6003 ∷ 0x4001 ∷ 0x5005 ∷ 0x3006 ∷ 0x702b ∷ 0x5015 ∷ 0x706b
    ∷ 0x500d ∷ 0x8007 ∷ 0x6023 ∷ 0x8087 ∷ 0x501d ∷ 0x8047 ∷ 0x6013 ∷ 0x80c7 ∷ 0x6033 ∷ 0x9097
    ∷ 0x701b ∷ 0x9197 ∷ 0x600b ∷ 0xa0f7 ∷ 0x8027 ∷ 0xa2f7 ∷ 0x80a7 ∷ 0xb14f ∷ 0x9057 ∷ 0xb54f
    ∷ 0x9157 ∷ 0x90d7 ∷ 0x705b ∷ 0x91d7 ∷ 0x703b ∷ 0xa1f7 ∷ 0x8067 ∷ 0xa3f7 ∷ 0x707b ∷ 0xb34f
    ∷ 0x9037 ∷ 0xb74f ∷ 0x9137 ∷ 0xc12f ∷ 0xa00f ∷ 0xc92f ∷ 0xa20f ∷ 0xc52f ∷ 0xa10f ∷ 0xcd2f
    ∷ 0xa30f ∷ 0xc32f ∷ 0xb0cf ∷ 0xcb2f ∷ 0xb4cf ∷ 0xc72f ∷ 0xcf2f ∷ 0xc0af ∷ 0xc8af ∷ 0xc4af
    ∷ 0xccaf ∷ 0xc2af ∷ 0xcaaf ∷ 0xa08f ∷ 0x80e7 ∷ 0xa28f ∷ 0x8017 ∷ 0xb2cf ∷ 0x90b7 ∷ 0xb6cf
    ∷ 0x91b7 ∷ 0xc6af ∷ 0xa18f ∷ 0xceaf ∷ 0xa38f ∷ 0xc1af ∷ 0xb1cf ∷ 0xc9af ∷ 0xb5cf ∷ 0xc5af
    ∷ 0xb3cf ∷ 0xcdaf ∷ 0xb7cf ∷ 0xc3af ∷ 0xcbaf ∷ 0xc7af ∷ 0xcfaf ∷ 0xc06f ∷ 0xc86f ∷ 0xc46f
    ∷ 0xcc6f ∷ 0xc26f ∷ 0xca6f ∷ 0xc66f ∷ 0xce6f ∷ 0xc16f ∷ 0xc96f ∷ 0xc56f ∷ 0xcd6f ∷ 0xc36f
    ∷ 0xcb6f ∷ 0xc76f ∷ 0xcf6f ∷ 0xc0ef ∷ 0xc8ef ∷ 0xc4ef ∷ 0xccef ∷ 0xc2ef ∷ 0xcaef ∷ 0xc6ef
    ∷ 0xceef ∷ 0xc1ef ∷ 0xc9ef ∷ 0xc5ef ∷ 0xcdef ∷ 0xc3ef ∷ 0xcbef ∷ 0xc7ef ∷ 0xcfef ∷ 0xc01f
    ∷ 0xc81f ∷ 0xc41f ∷ 0xcc1f ∷ 0xc21f ∷ 0xca1f ∷ 0xc61f ∷ 0xce1f ∷ 0xb02f ∷ 0x9077 ∷ 0xb42f
    ∷ 0x9177 ∷ 0xc11f ∷ 0xa04f ∷ 0xc91f ∷ 0xa24f ∷ 0xc51f ∷ 0xb22f ∷ 0xcd1f ∷ 0xb62f ∷ 0xc31f
    ∷ 0xcb1f ∷ 0xc71f ∷ 0xcf1f ∷ 0xc09f ∷ 0xc89f ∷ 0xc49f ∷ 0xcc9f ∷ 0xc29f ∷ 0xca9f ∷ 0xc69f
    ∷ 0xce9f ∷ 0xc19f ∷ 0xc99f ∷ 0xc59f ∷ 0xcd9f ∷ 0xc39f ∷ 0xcb9f ∷ 0xc79f ∷ 0xcf9f ∷ 0xc05f
    ∷ 0xc85f ∷ 0xc45f ∷ 0xcc5f ∷ 0xc25f ∷ 0xca5f ∷ 0xc65f ∷ 0xce5f ∷ 0xc15f ∷ 0xc95f ∷ 0xc55f
    ∷ 0xcd5f ∷ 0xc35f ∷ 0xcb5f ∷ 0xc75f ∷ 0xcf5f ∷ 0xc0df ∷ 0xc8df ∷ 0xc4df ∷ 0xccdf ∷ 0xc2df
    ∷ 0xcadf ∷ 0xc6df ∷ 0xcedf ∷ 0xc1df ∷ 0xc9df ∷ 0xc5df ∷ 0xcddf ∷ 0xc3df ∷ 0xcbdf ∷ 0xc7df
    ∷ 0xcfdf ∷ 0xc03f ∷ 0xc83f ∷ 0xc43f ∷ 0xcc3f ∷ 0xc23f ∷ 0xca3f ∷ 0xc63f ∷ 0xce3f ∷ 0xc13f
    ∷ 0xc93f ∷ 0xc53f ∷ 0xcd3f ∷ 0xc33f ∷ 0xcb3f ∷ 0xc73f ∷ 0xcf3f ∷ 0xc0bf ∷ 0xc8bf ∷ 0xc4bf
    ∷ 0xccbf ∷ 0xc2bf ∷ 0xcabf ∷ 0xc6bf ∷ 0xcebf ∷ 0xc1bf ∷ 0xc9bf ∷ 0xc5bf ∷ 0xcdbf ∷ 0xc3bf
    ∷ 0xcbbf ∷ 0xc7bf ∷ 0xcfbf ∷ 0xc07f ∷ 0xc87f ∷ 0xc47f ∷ 0xcc7f ∷ 0xc27f ∷ 0xca7f ∷ 0xc67f
    ∷ 0xce7f ∷ 0xc17f ∷ 0xc97f ∷ 0xc57f ∷ 0xcd7f ∷ 0xc37f ∷ 0xcb7f ∷ 0xc77f ∷ 0xcf7f ∷ 0xc0ff
    ∷ 0xc8ff ∷ 0xc4ff ∷ 0xccff ∷ 0xc2ff ∷ 0xcaff ∷ 0xc6ff ∷ 0xceff ∷ 0xc1ff ∷ 0xc9ff ∷ 0xc5ff
    ∷ 0xcdff ∷ 0xc3ff ∷ 0xcbff ∷ 0xc7ff ∷ 0xcfff ∷ []
