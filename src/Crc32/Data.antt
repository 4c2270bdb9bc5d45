-- ===== src/Crc32/Data.antt =====
-- The test data of software/spmd/crc32/main.c.
use no_cgbp_rtl.Base.{ℕ, List, [], ◌∷◌}

unfoldable pub data_bytes : List ℕ
data_bytes =
    0x95 ∷ 0xd7 ∷ 0xe1 ∷ 0x6c ∷ 0x7c ∷ 0x89 ∷ 0xd9 ∷ 0x7e ∷ 0x48 ∷ 0xb0 ∷ 0xa7 ∷ 0xb8 ∷ 0xf6 ∷ 0x2a
    ∷ 0xd8 ∷ 0x3f ∷ 0xd9 ∷ 0x12 ∷ 0x36 ∷ 0x8b ∷ 0xa5 ∷ 0x35 ∷ 0xb3 ∷ 0xff ∷ 0x6f ∷ 0xc5 ∷ 0x52
    ∷ 0x73 ∷ 0xda ∷ 0xdd ∷ 0xfa ∷ 0x92 ∷ 0x1e ∷ 0xa9 ∷ 0xed ∷ 0xd1 ∷ 0x46 ∷ 0x7e ∷ 0xea ∷ 0x47
    ∷ 0xec ∷ 0x80 ∷ 0xcf ∷ 0x6b ∷ 0xc1 ∷ 0x72 ∷ 0xe3 ∷ 0x95 ∷ 0x97 ∷ 0x07 ∷ 0xe5 ∷ 0xa7 ∷ 0xac
    ∷ 0xda ∷ 0x1d ∷ 0x71 ∷ 0x97 ∷ 0x8b ∷ 0x22 ∷ 0x09 ∷ 0xbb ∷ 0xf6 ∷ 0xae ∷ 0x02 ∷ 0xf5 ∷ 0xc5
    ∷ 0xc2 ∷ 0x40 ∷ 0x0e ∷ 0x95 ∷ 0x46 ∷ 0x40 ∷ 0x44 ∷ 0x30 ∷ 0x7e ∷ 0xa1 ∷ 0x1b ∷ 0xd6 ∷ 0xdd
    ∷ 0xae ∷ 0x77 ∷ 0xc3 ∷ 0x5a ∷ 0xa2 ∷ 0xce ∷ 0x09 ∷ 0x5d ∷ 0x8d ∷ 0x11 ∷ 0x74 ∷ 0x5e ∷ 0xa4
    ∷ 0xdb ∷ 0xc7 ∷ 0x24 ∷ 0x87 ∷ 0x72 ∷ 0x3b ∷ 0xc4 ∷ 0x19 ∷ 0x53 ∷ 0x5c ∷ 0x2b ∷ 0xd6 ∷ 0xf2
    ∷ 0xc8 ∷ 0x98 ∷ 0x74 ∷ 0xa2 ∷ 0x99 ∷ 0x7d ∷ 0xe6 ∷ 0xe2 ∷ 0xb0 ∷ 0xe7 ∷ 0x03 ∷ 0x52 ∷ 0xdf
    ∷ 0x93 ∷ 0x84 ∷ 0xf4 ∷ 0x81 ∷ 0x11 ∷ 0x96 ∷ 0x73 ∷ 0x24 ∷ 0x22 ∷ 0xd5 ∷ 0x7e ∷ 0xd0 ∷ 0xd7
    ∷ 0xda ∷ 0xb3 ∷ 0xe5 ∷ 0x47 ∷ 0x63 ∷ 0x13 ∷ 0x18 ∷ 0x22 ∷ 0x76 ∷ 0xab ∷ 0xc6 ∷ 0x2f ∷ 0xb3
    ∷ 0xe6 ∷ 0xba ∷ 0xe8 ∷ 0xf6 ∷ 0x4a ∷ 0x3b ∷ 0x4b ∷ 0x4b ∷ 0xc3 ∷ 0x25 ∷ 0xf9 ∷ 0xe0 ∷ 0x4a
    ∷ 0x72 ∷ 0x5b ∷ 0xce ∷ 0x5a ∷ 0x3d ∷ 0xd1 ∷ 0x60 ∷ 0xd7 ∷ 0xe4 ∷ 0x7b ∷ 0x5a ∷ 0xef ∷ 0xab
    ∷ 0xba ∷ 0xe9 ∷ 0xfb ∷ 0xe5 ∷ 0xf8 ∷ 0xb7 ∷ 0xd2 ∷ 0xd6 ∷ 0x45 ∷ 0x14 ∷ 0x0f ∷ 0xb6 ∷ 0x86
    ∷ 0x5f ∷ 0x62 ∷ 0xa3 ∷ 0xf3 ∷ 0xc3 ∷ 0xa9 ∷ 0x3f ∷ 0xfe ∷ 0xb2 ∷ 0x4f ∷ 0x95 ∷ 0xdd ∷ 0x27
    ∷ 0xb0 ∷ 0xa6 ∷ 0xfa ∷ 0xc2 ∷ 0xd3 ∷ 0x27 ∷ 0xa5 ∷ 0x32 ∷ 0xa8 ∷ 0x28 ∷ 0x53 ∷ 0x83 ∷ 0xba
    ∷ 0xca ∷ 0x35 ∷ 0x58 ∷ 0xb6 ∷ 0x92 ∷ 0xc3 ∷ 0x34 ∷ 0x46 ∷ 0xdb ∷ 0x77 ∷ 0x92 ∷ 0x58 ∷ 0xe6
    ∷ 0xfa ∷ 0xc1 ∷ 0x78 ∷ 0xfd ∷ 0xae ∷ 0x4f ∷ 0xc0 ∷ 0xd5 ∷ 0xca ∷ 0x93 ∷ 0xd7 ∷ 0x90 ∷ 0x4c
    ∷ 0x33 ∷ 0x3e ∷ 0x46 ∷ 0xf2 ∷ 0xb4 ∷ 0x78 ∷ 0x6e ∷ 0x91 ∷ 0x33 ∷ 0xb9 ∷ 0xc8 ∷ 0x79 ∷ 0xe4
    ∷ 0xaa ∷ 0xa5 ∷ 0x97 ∷ 0xae ∷ 0x87 ∷ 0x2f ∷ 0x79 ∷ 0xe5 ∷ 0xc1 ∷ 0x66 ∷ 0xdc ∷ 0x8b ∷ 0x1c
    ∷ 0xf1 ∷ 0x9a ∷ 0xfc ∷ 0x30 ∷ 0x6d ∷ 0x62 ∷ 0xe7 ∷ 0xb5 ∷ 0xe5 ∷ 0x51 ∷ 0x4b ∷ 0xf7 ∷ 0xb1
    ∷ 0xd9 ∷ 0x79 ∷ 0xb2 ∷ 0x8a ∷ 0x8c ∷ 0x18 ∷ 0x49 ∷ 0xc7 ∷ 0xb7 ∷ 0xa1 ∷ 0x11 ∷ 0xbe ∷ 0xa4
    ∷ 0x1e ∷ 0xcc ∷ 0x3b ∷ 0xa6 ∷ 0x02 ∷ 0x21 ∷ 0xa1 ∷ 0x5d ∷ 0xfe ∷ 0xc4 ∷ 0xcd ∷ 0x15 ∷ 0x0f
    ∷ 0x0b ∷ 0xf0 ∷ 0x43 ∷ 0x3f ∷ 0xd1 ∷ 0xd2 ∷ 0x48 ∷ 0xf5 ∷ 0x2d ∷ 0x14 ∷ 0x18 ∷ 0x30 ∷ 0x75
    ∷ 0x51 ∷ 0x2e ∷ 0x02 ∷ 0x42 ∷ 0xae ∷ 0xb1 ∷ 0xdf ∷ 0x33 ∷ 0xb7 ∷ 0x5a ∷ 0x54 ∷ 0xfa ∷ 0xf9
    ∷ 0x18 ∷ 0xde ∷ 0x68 ∷ 0x04 ∷ 0x93 ∷ 0x49 ∷ 0x7b ∷ 0x3c ∷ 0x0a ∷ 0xd9 ∷ 0x91 ∷ 0xab ∷ 0xc6
    ∷ 0xff ∷ 0x7a ∷ 0xa5 ∷ 0xd0 ∷ 0x9c ∷ 0xbb ∷ 0xa0 ∷ 0x79 ∷ 0xbd ∷ 0xd8 ∷ 0x75 ∷ 0xa9 ∷ 0x72
    ∷ 0x75 ∷ 0x1f ∷ 0x75 ∷ 0x9c ∷ 0x94 ∷ 0xc6 ∷ 0xf3 ∷ 0xdd ∷ 0x16 ∷ 0x52 ∷ 0xca ∷ 0x5f ∷ 0x0e
    ∷ 0x12 ∷ 0x94 ∷ 0x99 ∷ 0x3c ∷ 0x5d ∷ 0x3d ∷ 0x01 ∷ 0x72 ∷ 0xf3 ∷ 0x4a ∷ 0x78 ∷ 0xc8 ∷ 0xef
    ∷ 0xaa ∷ 0x7d ∷ 0xb9 ∷ 0x4f ∷ 0x53 ∷ 0x0c ∷ 0x46 ∷ 0xfe ∷ 0x16 ∷ 0xea ∷ 0xed ∷ 0x41 ∷ 0x3d
    ∷ 0x5d ∷ 0x04 ∷ 0x9a ∷ 0x6b ∷ 0x63 ∷ 0x17 ∷ 0x3e ∷ 0x42 ∷ 0xd1 ∷ 0x2f ∷ 0xed ∷ 0xa8 ∷ 0x4a
    ∷ 0xc2 ∷ 0x41 ∷ 0xe6 ∷ 0x23 ∷ 0xaa ∷ 0x0e ∷ 0x24 ∷ 0x45 ∷ 0x1f ∷ 0x0a ∷ 0x08 ∷ 0x5c ∷ 0x19
    ∷ 0x3e ∷ 0x6e ∷ 0x93 ∷ 0x81 ∷ 0xdb ∷ 0xc3 ∷ 0x05 ∷ 0xd7 ∷ 0x06 ∷ 0xd3 ∷ 0x03 ∷ 0x14 ∷ 0xe2
    ∷ 0xb0 ∷ 0x19 ∷ 0xe2 ∷ 0x3f ∷ 0xd2 ∷ 0x12 ∷ 0xb3 ∷ 0x1e ∷ 0x13 ∷ 0xf2 ∷ 0xb5 ∷ 0xd2 ∷ 0x90
    ∷ 0xbd ∷ 0x4c ∷ 0x6d ∷ 0x61 ∷ 0x57 ∷ 0xc5 ∷ 0x8d ∷ 0x21 ∷ 0xb7 ∷ 0x01 ∷ 0xc0 ∷ 0xf1 ∷ 0xc0
    ∷ 0x86 ∷ 0x1f ∷ 0x8a ∷ 0xfa ∷ 0xe8 ∷ 0x55 ∷ 0x2a ∷ 0xd5 ∷ 0xbb ∷ 0xd9 ∷ 0xe4 ∷ 0x2a ∷ 0x92
    ∷ 0x6d ∷ 0x7a ∷ 0x44 ∷ 0x33 ∷ 0x89 ∷ 0xf1 ∷ 0x2c ∷ 0xe0 ∷ 0xa2 ∷ 0x76 ∷ 0x6f ∷ 0x72 ∷ 0x10
    ∷ 0x02 ∷ 0xa4 ∷ 0xf0 ∷ 0x7f ∷ 0x6b ∷ 0x53 ∷ 0x2e ∷ 0xa2 ∷ 0x03 ∷ 0x10 ∷ 0x57 ∷ 0x87 ∷ 0x12
    ∷ 0x49 ∷ 0xcd ∷ 0xef ∷ 0x64 ∷ 0x73 ∷ 0xe9 ∷ 0x2e ∷ 0x0b ∷ 0x59 ∷ 0x7d ∷ 0x34 ∷ 0x1a ∷ 0x4a
    ∷ 0xb1 ∷ 0xaa ∷ 0x39 ∷ 0x08 ∷ 0xa5 ∷ 0xa0 ∷ 0x72 ∷ 0xe8 ∷ 0x5e ∷ 0xbb ∷ 0xca ∷ 0x38 ∷ 0x78
    ∷ 0xa4 ∷ 0x1e ∷ 0xe8 ∷ 0xe9 ∷ 0xff ∷ 0x01 ∷ 0xe6 ∷ 0x41 ∷ 0xb5 ∷ 0xd9 ∷ 0x7b ∷ 0x69 ∷ 0xfd
    ∷ 0x33 ∷ 0x98 ∷ 0x10 ∷ 0xbe ∷ 0xe6 ∷ 0xd7 ∷ 0x36 ∷ 0xb2 ∷ 0xf8 ∷ 0x83 ∷ 0xb9 ∷ 0xd5 ∷ 0x33
    ∷ 0xe3 ∷ 0x54 ∷ 0x8e ∷ 0x69 ∷ 0x76 ∷ 0x4c ∷ 0xf0 ∷ 0x82 ∷ 0x3c ∷ 0xa9 ∷ 0x2e ∷ 0xc5 ∷ 0xf0
    ∷ 0xda ∷ 0x3a ∷ 0x17 ∷ 0xf5 ∷ 0x36 ∷ 0xa8 ∷ 0x43 ∷ 0xb4 ∷ 0x89 ∷ 0xfa ∷ 0xc4 ∷ 0x4d ∷ 0x11
    ∷ 0x65 ∷ 0x73 ∷ 0x2f ∷ 0x97 ∷ 0x0a ∷ 0x45 ∷ 0xe1 ∷ 0x76 ∷ 0x67 ∷ 0x27 ∷ 0x8d ∷ 0xd5 ∷ 0x42
    ∷ 0xcc ∷ 0x79 ∷ 0xb5 ∷ 0xa8 ∷ 0xfd ∷ 0x3d ∷ 0xcb ∷ 0x64 ∷ 0x9c ∷ 0x9d ∷ 0xb6 ∷ 0xf8 ∷ 0x1a
    ∷ 0x5a ∷ 0x3b ∷ 0x46 ∷ 0x39 ∷ 0x91 ∷ 0xd1 ∷ 0x55 ∷ 0x3c ∷ 0x40 ∷ 0x2e ∷ 0xc5 ∷ 0x69 ∷ 0xf3
    ∷ 0x33 ∷ 0x96 ∷ 0x72 ∷ 0x60 ∷ 0x0b ∷ 0xa9 ∷ 0xd7 ∷ 0xba ∷ 0x6b ∷ 0xa9 ∷ 0xc3 ∷ 0x5a ∷ 0x1f
    ∷ 0xcb ∷ 0x6a ∷ 0x43 ∷ 0xfc ∷ 0x0e ∷ 0xf3 ∷ 0x16 ∷ 0x5b ∷ 0xd4 ∷ 0x01 ∷ 0x30 ∷ 0x56 ∷ 0x48
    ∷ 0xfb ∷ 0x96 ∷ 0x98 ∷ 0x35 ∷ 0x67 ∷ 0x49 ∷ 0x63 ∷ 0x8e ∷ 0x5b ∷ 0x78 ∷ 0x39 ∷ 0x98 ∷ 0x8f
    ∷ 0x6a ∷ 0xc4 ∷ 0x75 ∷ 0x04 ∷ 0x70 ∷ 0x7a ∷ 0x0e ∷ 0xec ∷ 0x53 ∷ 0xd2 ∷ 0x73 ∷ 0x39 ∷ 0x32
    ∷ 0x20 ∷ 0x85 ∷ 0x2f ∷ 0x85 ∷ 0xb5 ∷ 0x05 ∷ 0xe5 ∷ 0x8c ∷ 0xcb ∷ 0x94 ∷ 0xee ∷ 0xff ∷ 0x33
    ∷ 0xa1 ∷ 0x8e ∷ 0x55 ∷ 0xd8 ∷ 0xbf ∷ 0x92 ∷ 0xe1 ∷ 0x9e ∷ 0x00 ∷ 0x9c ∷ 0xd1 ∷ 0x0d ∷ 0x00
    ∷ 0xda ∷ 0x31 ∷ 0x68 ∷ 0x7e ∷ 0xe7 ∷ 0x9e ∷ 0xe8 ∷ 0x16 ∷ 0xe6 ∷ 0xa2 ∷ 0x56 ∷ 0xd1 ∷ 0x3a
    ∷ 0x5f ∷ 0x6b ∷ 0x29 ∷ 0x57 ∷ 0xbd ∷ 0x4b ∷ 0xca ∷ 0xd1 ∷ 0x23 ∷ 0xff ∷ 0x12 ∷ 0x76 ∷ 0x4b
    ∷ 0x64 ∷ 0x53 ∷ 0xfb ∷ 0x12 ∷ 0x49 ∷ 0x8c ∷ 0x2d ∷ 0x65 ∷ 0x08 ∷ 0x14 ∷ 0x8f ∷ 0x10 ∷ 0xb4
    ∷ 0x8b ∷ 0xac ∷ 0x7c ∷ 0xab ∷ 0x37 ∷ 0x46 ∷ 0xea ∷ 0x66 ∷ 0x6e ∷ 0x1c ∷ 0x63 ∷ 0xd9 ∷ 0x00
    ∷ 0xa3 ∷ 0x73 ∷ 0xa3 ∷ 0x1c ∷ 0x6b ∷ 0x9b ∷ 0xc5 ∷ 0xd0 ∷ 0xe0 ∷ 0x20 ∷ 0x00 ∷ 0x61 ∷ 0x14
    ∷ 0x7d ∷ 0xd7 ∷ 0x39 ∷ 0x61 ∷ 0xcc ∷ 0x6d ∷ 0xa7 ∷ 0x12 ∷ 0x8e ∷ 0xb0 ∷ 0x9a ∷ 0x48 ∷ 0x10
    ∷ 0xa1 ∷ 0xb1 ∷ 0x26 ∷ 0xc4 ∷ 0x4a ∷ 0xbc ∷ 0x7c ∷ 0x31 ∷ 0x6e ∷ 0x2d ∷ 0x00 ∷ 0x0f ∷ 0xba
    ∷ 0x9c ∷ 0x2a ∷ 0x62 ∷ 0x3e ∷ 0xfe ∷ 0xb1 ∷ 0x64 ∷ 0x76 ∷ 0x1b ∷ 0xc4 ∷ 0xb8 ∷ 0x78 ∷ 0x20
    ∷ 0x68 ∷ 0xde ∷ 0x7d ∷ 0xec ∷ 0xa6 ∷ 0x0a ∷ 0xa6 ∷ 0x8b ∷ 0xf8 ∷ 0xf5 ∷ 0x78 ∷ 0xc9 ∷ 0xeb
    ∷ 0xdc ∷ 0x8b ∷ 0x7c ∷ 0x78 ∷ 0xdc ∷ 0x93 ∷ 0x38 ∷ 0x1e ∷ 0x06 ∷ 0x93 ∷ 0xf7 ∷ 0xd8 ∷ 0xac
    ∷ 0x92 ∷ 0x51 ∷ 0xd2 ∷ 0x7f ∷ 0x8a ∷ 0xad ∷ 0x59 ∷ 0x6d ∷ 0xc3 ∷ 0xcf ∷ 0x75 ∷ 0x15 ∷ 0xc7
    ∷ 0xbe ∷ 0x19 ∷ 0x73 ∷ 0x67 ∷ 0xa5 ∷ 0x05 ∷ 0x36 ∷ 0x30 ∷ 0x76 ∷ 0x27 ∷ 0x10 ∷ 0x0c ∷ 0x3d
    ∷ 0xdf ∷ 0x09 ∷ 0x1a ∷ 0x54 ∷ 0x2d ∷ 0x96 ∷ 0x90 ∷ 0xb2 ∷ 0xb1 ∷ 0xda ∷ 0x08 ∷ 0xb8 ∷ 0x19
    ∷ 0x97 ∷ 0xc7 ∷ 0x83 ∷ 0x4f ∷ 0x47 ∷ 0x55 ∷ 0x85 ∷ 0xec ∷ 0x31 ∷ 0x8d ∷ 0x3e ∷ 0xe7 ∷ 0xa6
    ∷ 0xc8 ∷ 0x83 ∷ 0x2c ∷ 0xd6 ∷ 0xec ∷ 0xc5 ∷ 0x5c ∷ 0x57 ∷ 0xed ∷ 0x2c ∷ 0x16 ∷ 0xc5 ∷ 0xd3
    ∷ 0xa2 ∷ 0x8f ∷ 0xd8 ∷ 0xcb ∷ 0x8c ∷ 0xca ∷ 0xc5 ∷ 0x92 ∷ 0xe7 ∷ 0xc4 ∷ 0x3d ∷ 0x3d ∷ 0x69
    ∷ 0x28 ∷ 0x5e ∷ 0xb3 ∷ 0xe4 ∷ 0xa7 ∷ 0xc1 ∷ 0xe3 ∷ 0x19 ∷ 0xa1 ∷ 0xa9 ∷ 0xa4 ∷ 0xcb ∷ 0xc2
    ∷ 0xb4 ∷ 0xd7 ∷ 0x10 ∷ 0x15 ∷ 0xa2 ∷ 0x2f ∷ 0x8a ∷ 0xda ∷ 0xe5 ∷ 0xb1 ∷ 0x42 ∷ 0x3c ∷ 0x0a
    ∷ 0xec ∷ 0x92 ∷ 0x74 ∷ 0x69 ∷ 0x09 ∷ 0x92 ∷ 0x0b ∷ 0xc8 ∷ 0xf5 ∷ 0x80 ∷ 0x5a ∷ 0xf6 ∷ 0x77
    ∷ 0xff ∷ 0x51 ∷ 0x03 ∷ 0x6a ∷ 0x47 ∷ 0xb2 ∷ 0x4c ∷ 0x8c ∷ 0x5f ∷ 0x07 ∷ 0x36 ∷ 0xa1 ∷ 0x90
    ∷ 0xf5 ∷ 0x3e ∷ 0x0a ∷ 0x71 ∷ 0x73 ∷ 0x0d ∷ 0xce ∷ 0xc8 ∷ 0x89 ∷ 0x20 ∷ 0xab ∷ 0xdd ∷ 0x21
    ∷ 0xe2 ∷ 0x36 ∷ 0xed ∷ 0xd8 ∷ 0xd0 ∷ 0x66 ∷ 0x31 ∷ 0xd6 ∷ 0x64 ∷ 0xbe ∷ 0xb2 ∷ 0x6d ∷ 0xf4
    ∷ 0x1a ∷ 0xa0 ∷ 0x1f ∷ 0xab ∷ 0xb9 ∷ 0x48 ∷ 0x74 ∷ 0xb1 ∷ 0x40 ∷ 0xdb ∷ 0x09 ∷ 0xb3 ∷ 0xf8
    ∷ 0xfa ∷ 0xb3 ∷ 0x7b ∷ 0x3a ∷ 0x77 ∷ 0x2a ∷ 0xa7 ∷ 0x2b ∷ 0x09 ∷ 0x86 ∷ 0x1c ∷ 0xc6 ∷ 0x93
    ∷ 0xed ∷ 0x12 ∷ 0xa9 ∷ 0x28 ∷ 0x77 ∷ 0x60 ∷ 0x40 ∷ 0xe2 ∷ 0x9d ∷ 0xc0 ∷ 0x31 ∷ 0xca ∷ 0x10
    ∷ 0xe9 ∷ 0x9d ∷ 0xa6 ∷ 0x1b ∷ 0xbb ∷ 0x4e ∷ 0x5e ∷ 0x91 ∷ 0x9f ∷ 0xc8 ∷ 0xab ∷ 0x47 ∷ 0xa8
    ∷ 0xee ∷ 0xa3 ∷ 0xe6 ∷ 0x74 ∷ 0x88 ∷ 0xf0 ∷ 0xfe ∷ 0xe0 ∷ 0x93 ∷ 0xf3 ∷ 0x0a ∷ 0x97 ∷ 0x5c
    ∷ 0x12 ∷ 0x5f ∷ 0xd6 ∷ 0xc6 ∷ 0x8d ∷ 0x48 ∷ 0x3a ∷ 0x72 ∷ 0x88 ∷ 0x8f ∷ 0x30 ∷ 0x7f ∷ 0xf7
    ∷ 0xe4 ∷ 0x54 ∷ 0x12 ∷ 0xa6 ∷ 0xb0 ∷ 0x0b ∷ 0xb3 ∷ 0x5c ∷ 0xe1 ∷ 0x54 ∷ 0xea ∷ 0xe1 ∷ 0x96
    ∷ 0x38 ∷ 0x48 ∷ 0x07 ∷ 0xd5 ∷ 0x39 ∷ 0x0c ∷ 0x8b ∷ 0xef ∷ 0x94 ∷ 0x01 ∷ 0x5c ∷ 0xd3 ∷ 0x52
    ∷ 0x1f ∷ 0xf2 ∷ 0xfb ∷ 0xc7 ∷ 0xf1 ∷ 0x5f ∷ 0x5c ∷ 0xb6 ∷ 0x9b ∷ 0x68 ∷ 0x0b ∷ 0x97 ∷ 0x31
    ∷ 0x94 ∷ 0xcd ∷ 0xf5 ∷ 0x14 ∷ 0x4e ∷ 0x63 ∷ 0xec ∷ 0x45 ∷ 0x1a ∷ 0xf5 ∷ 0x99 ∷ 0xf4 ∷ 0x23
    ∷ 0x04 ∷ 0xe8 ∷ 0xcc ∷ 0x07 ∷ 0x09 ∷ 0x54 ∷ 0x7c ∷ 0x39 ∷ 0xc4 ∷ 0x46 ∷ 0x14 ∷ 0x4b ∷ 0x0f
    ∷ 0x9f ∷ 0x1d ∷ 0x2c ∷ 0x49 ∷ 0x52 ∷ 0x60 ∷ 0xad ∷ 0xa8 ∷ 0xc8 ∷ 0x76 ∷ 0xb6 ∷ 0xa2 ∷ 0x45
    ∷ 0xb0 ∷ 0xe9 ∷ 0x1e ∷ 0x12 ∷ 0xd6 ∷ 0xa8 ∷ 0x7b ∷ 0xe1 ∷ 0xd5 ∷ 0x51 ∷ 0xca ∷ 0xd6 ∷ 0x7a
    ∷ 0x16 ∷ 0xa2 ∷ 0x5d ∷ 0x2f ∷ 0x01 ∷ 0x18 ∷ 0xf2 ∷ 0xfa ∷ 0x6b ∷ 0xc7 ∷ 0xa7 ∷ 0x61 ∷ 0x2b
    ∷ 0x62 ∷ 0xba ∷ 0x92 ∷ 0xee ∷ 0x69 ∷ 0xe4 ∷ 0x08 ∷ 0x2c ∷ 0x01 ∷ 0xcc ∷ 0x50 ∷ 0xf1 ∷ 0x4b
    ∷ 0xa3 ∷ 0x84 ∷ 0xe8 ∷ 0x0f ∷ 0xba ∷ 0x1c ∷ 0x1c ∷ 0x91 ∷ 0x32 ∷ 0xc5 ∷ 0x8c ∷ 0x36 ∷ 0x3b
    ∷ 0x97 ∷ 0x6f ∷ 0xed ∷ 0x30 ∷ 0x5e ∷ 0xf9 ∷ 0xa5 ∷ 0xe7 ∷ 0x34 ∷ 0x22 ∷ 0xa2 ∷ 0x6c ∷ 0xf3
    ∷ 0x15 ∷ 0xa2 ∷ 0x5c ∷ 0x66 ∷ 0x0a ∷ 0x7a ∷ 0x9b ∷ 0x7d ∷ 0xfe ∷ 0xdb ∷ 0x46 ∷ 0xef ∷ 0x1b
    ∷ 0x4d ∷ 0xeb ∷ 0x77 ∷ 0x85 ∷ 0xc5 ∷ 0x6c ∷ 0x6c ∷ 0x8f ∷ 0x3c ∷ 0x1d ∷ 0xc6 ∷ 0xf1 ∷ 0x71
    ∷ 0xf9 ∷ 0x3b ∷ 0xb7 ∷ 0xa5 ∷ 0xe0 ∷ 0x9c ∷ 0x3a ∷ 0x3a ∷ 0x93 ∷ 0x36 ∷ 0x1e ∷ 0xc3 ∷ 0x2d
    ∷ 0x62 ∷ 0x2e ∷ 0x5b ∷ 0x25 ∷ 0xa6 ∷ 0x2b ∷ 0x36 ∷ 0x7c ∷ 0x92 ∷ 0x40 ∷ 0x03 ∷ 0x70 ∷ 0x3b
    ∷ 0x23 ∷ 0x18 ∷ 0x84 ∷ 0x01 ∷ 0x2f ∷ 0x69 ∷ 0x7a ∷ 0xcd ∷ 0xbd ∷ 0x63 ∷ 0xc3 ∷ 0x96 ∷ 0x61
    ∷ 0x3c ∷ 0xde ∷ 0x1c ∷ 0x84 ∷ 0x71 ∷ 0x68 ∷ 0x9d ∷ 0x84 ∷ 0xe5 ∷ 0x0a ∷ 0xff ∷ 0x06 ∷ 0x5c
    ∷ 0x14 ∷ 0xd1 ∷ 0x98 ∷ 0x22 ∷ 0xf1 ∷ 0xe2 ∷ 0x18 ∷ 0x90 ∷ 0x2a ∷ 0xa0 ∷ 0x41 ∷ 0xfc ∷ 0xac
    ∷ 0x7f ∷ 0x1a ∷ 0x54 ∷ 0xaf ∷ 0x1a ∷ 0x36 ∷ 0xe7 ∷ 0xea ∷ 0x1f ∷ 0xd6 ∷ 0x3b ∷ 0x59 ∷ 0xad
    ∷ 0x70 ∷ 0x85 ∷ 0x0c ∷ 0x17 ∷ 0xe0 ∷ 0x52 ∷ 0xc0 ∷ 0xe1 ∷ 0xc8 ∷ 0x21 ∷ 0x96 ∷ 0xfc ∷ 0x0b
    ∷ 0xef ∷ 0x28 ∷ 0xaf ∷ 0x46 ∷ 0xc0 ∷ 0x26 ∷ 0x6e ∷ 0xd4 ∷ 0x9e ∷ 0xc2 ∷ 0x24 ∷ 0xa9 ∷ 0x84
    ∷ 0xa0 ∷ 0x0a ∷ 0xcd ∷ 0x31 ∷ 0x3b ∷ 0xe6 ∷ 0x7b ∷ 0x32 ∷ 0xde ∷ 0x10 ∷ 0xc6 ∷ 0xbb ∷ 0x22
    ∷ 0x3f ∷ 0xcf ∷ 0x72 ∷ 0x86 ∷ 0x37 ∷ 0x42 ∷ 0x9a ∷ 0x0f ∷ 0xc9 ∷ 0x3f ∷ 0xef ∷ 0x18 ∷ 0x2f
    ∷ 0xb3 ∷ 0x2f ∷ 0x77 ∷ 0xeb ∷ 0xb1 ∷ 0x76 ∷ 0x0b ∷ 0xfa ∷ 0x89 ∷ 0x84 ∷ 0x6a ∷ 0x34 ∷ 0xb6
    ∷ 0xee ∷ 0xb8 ∷ 0x42 ∷ 0x08 ∷ 0x1d ∷ 0x62 ∷ 0x56 ∷ 0x8c ∷ 0xd2 ∷ 0x85 ∷ 0x7d ∷ 0x9d ∷ 0x8e
    ∷ 0x44 ∷ 0x9a ∷ 0xca ∷ 0x6e ∷ 0x4c ∷ 0xc3 ∷ 0x4b ∷ 0xba ∷ 0x86 ∷ 0x32 ∷ 0x73 ∷ 0x7f ∷ 0xe4
    ∷ 0xce ∷ 0xc4 ∷ 0x96 ∷ 0x71 ∷ 0x6a ∷ 0x83 ∷ 0x71 ∷ 0xa3 ∷ 0xf7 ∷ 0xc9 ∷ 0x36 ∷ 0xf5 ∷ 0x49
    ∷ 0x00 ∷ 0x44 ∷ 0x78 ∷ 0xc2 ∷ 0x53 ∷ 0xb4 ∷ 0x75 ∷ 0x1f ∷ 0x67 ∷ 0x06 ∷ 0xd1 ∷ 0x89 ∷ 0x22
    ∷ 0x26 ∷ 0x13 ∷ 0x5b ∷ 0x0d ∷ 0x64 ∷ 0x9d ∷ 0x6f ∷ 0xea ∷ 0x49 ∷ 0x24 ∷ 0x2f ∷ 0x34 ∷ 0x09
    ∷ 0xff ∷ 0xca ∷ 0x08 ∷ 0xac ∷ 0x4b ∷ 0x7d ∷ 0x23 ∷ 0xdb ∷ 0x2e ∷ 0xef ∷ 0x33 ∷ 0x98 ∷ 0x65
    ∷ 0xd4 ∷ 0x19 ∷ 0x42 ∷ 0xe2 ∷ 0x2d ∷ 0xda ∷ 0x7b ∷ 0x4f ∷ 0x13 ∷ 0x09 ∷ 0x10 ∷ 0x97 ∷ 0xd6
    ∷ 0xe9 ∷ 0x18 ∷ 0x30 ∷ 0xeb ∷ 0x3d ∷ 0x57 ∷ 0x63 ∷ 0x0b ∷ 0x31 ∷ 0x34 ∷ 0x54 ∷ 0xb1 ∷ 0x2a
    ∷ 0x75 ∷ 0xa7 ∷ 0x31 ∷ 0x46 ∷ 0xda ∷ 0x52 ∷ 0xe5 ∷ 0xa5 ∷ 0xc4 ∷ 0xc2 ∷ 0xc7 ∷ 0xd0 ∷ 0x9a
    ∷ 0x57 ∷ 0x7f ∷ 0x2f ∷ 0xbd ∷ 0x3b ∷ 0x95 ∷ 0x8b ∷ 0xf4 ∷ 0xd5 ∷ 0xcb ∷ 0x91 ∷ 0x3a ∷ 0x01
    ∷ 0xcd ∷ 0x59 ∷ 0x16 ∷ 0x80 ∷ 0xdc ∷ 0x52 ∷ 0x51 ∷ 0xf3 ∷ 0xc5 ∷ 0x6c ∷ 0x45 ∷ 0x76 ∷ 0x32
    ∷ 0x35 ∷ 0xc7 ∷ 0xb3 ∷ 0x5b ∷ 0xd5 ∷ 0x24 ∷ 0xe6 ∷ 0xdc ∷ 0x4c ∷ 0xfd ∷ 0xd9 ∷ 0xb3 ∷ 0x62
    ∷ 0xb4 ∷ 0x1f ∷ 0x4e ∷ 0x98 ∷ 0x5f ∷ 0xde ∷ 0xaf ∷ 0xad ∷ 0x18 ∷ 0xce ∷ 0x6f ∷ 0xb2 ∷ 0xb0
    ∷ 0xfd ∷ 0xbf ∷ 0x61 ∷ 0xc0 ∷ 0xa2 ∷ 0x0a ∷ 0xaf ∷ 0xcc ∷ 0x54 ∷ 0xbf ∷ 0x8f ∷ 0x29 ∷ 0xe7
    ∷ 0x94 ∷ 0xe7 ∷ 0x2a ∷ 0x6c ∷ 0xf5 ∷ 0x61 ∷ 0x95 ∷ 0x6c ∷ 0xe2 ∷ 0x42 ∷ 0x93 ∷ 0x3c ∷ 0xd1
    ∷ 0x50 ∷ 0xf9 ∷ 0x40 ∷ 0xca ∷ 0x4d ∷ 0x15 ∷ 0xf3 ∷ 0xd4 ∷ 0xcf ∷ 0x4f ∷ 0xe0 ∷ 0xe4 ∷ 0x7f
    ∷ 0x22 ∷ 0xd5 ∷ 0x84 ∷ 0x4b ∷ 0xcc ∷ 0xfc ∷ 0x43 ∷ 0x0a ∷ 0x8e ∷ 0xec ∷ 0x6a ∷ 0xf0 ∷ 0xc8
    ∷ 0x50 ∷ 0xd8 ∷ 0x0f ∷ 0xf0 ∷ 0xd0 ∷ 0x71 ∷ 0x81 ∷ 0x71 ∷ 0x09 ∷ 0x02 ∷ 0x66 ∷ 0xed ∷ 0xd9
    ∷ 0x2c ∷ 0xac ∷ 0xe6 ∷ 0x95 ∷ 0x5e ∷ 0xe6 ∷ 0x82 ∷ 0x63 ∷ 0x8e ∷ 0xb1 ∷ 0x18 ∷ 0xc0 ∷ 0xbd
    ∷ 0x42 ∷ 0x1b ∷ 0x0c ∷ 0x5e ∷ 0x21 ∷ 0xb8 ∷ 0x9b ∷ 0xc8 ∷ 0xf3 ∷ 0xa8 ∷ 0x72 ∷ 0xcf ∷ 0x25
    ∷ 0xf3 ∷ 0x9b ∷ 0x77 ∷ 0xd8 ∷ 0xf9 ∷ 0xc1 ∷ 0xed ∷ 0x14 ∷ 0xb6 ∷ 0x9c ∷ 0x38 ∷ 0x25 ∷ 0xe0
    ∷ 0x2a ∷ 0xf5 ∷ 0xe8 ∷ 0x2f ∷ 0xdb ∷ 0xeb ∷ 0x21 ∷ 0x46 ∷ 0xba ∷ 0x1d ∷ 0x17 ∷ 0x01 ∷ 0x4b
    ∷ 0x84 ∷ 0x22 ∷ 0x86 ∷ 0xad ∷ 0xa5 ∷ 0x11 ∷ 0x02 ∷ 0x24 ∷ 0xe8 ∷ 0x39 ∷ 0x20 ∷ 0x09 ∷ 0xa0
    ∷ 0xc0 ∷ 0x11 ∷ 0x9a ∷ 0xc5 ∷ 0x8f ∷ 0x54 ∷ 0x10 ∷ 0x60 ∷ 0x83 ∷ 0xe1 ∷ 0xe5 ∷ 0xbe ∷ 0x65
    ∷ 0x86 ∷ 0x71 ∷ 0xf8 ∷ 0x16 ∷ 0x6d ∷ 0x05 ∷ 0x42 ∷ 0xe6 ∷ 0xc7 ∷ 0x18 ∷ 0x63 ∷ 0x5f ∷ 0x25
    ∷ 0xe4 ∷ 0xf7 ∷ 0x1f ∷ 0xf3 ∷ 0x2d ∷ 0x13 ∷ 0x03 ∷ 0xc7 ∷ 0xf1 ∷ 0x6d ∷ 0xcb ∷ 0xc0 ∷ 0x01
    ∷ 0x05 ∷ 0xda ∷ 0x89 ∷ 0x72 ∷ 0xb0 ∷ 0xaf ∷ 0x46 ∷ 0xa0 ∷ 0x25 ∷ 0x8c ∷ 0xea ∷ 0xd8 ∷ 0x8c
    ∷ 0x97 ∷ 0x48 ∷ 0x52 ∷ 0x24 ∷ 0x43 ∷ 0x7e ∷ 0x44 ∷ 0x6a ∷ 0x3f ∷ 0xc5 ∷ 0x36 ∷ 0xc0 ∷ 0xdb
    ∷ 0x6d ∷ 0x4c ∷ 0x69 ∷ 0x8d ∷ 0xc6 ∷ 0x2b ∷ 0x31 ∷ 0x1a ∷ 0xe8 ∷ 0x66 ∷ 0x3b ∷ 0xd6 ∷ 0x3a
    ∷ 0x26 ∷ 0xe5 ∷ 0xc9 ∷ 0x16 ∷ 0x29 ∷ 0x40 ∷ 0x56 ∷ 0xdf ∷ 0xf6 ∷ 0xff ∷ 0x17 ∷ 0xff ∷ 0x9a
    ∷ 0xdf ∷ 0x5c ∷ 0x40 ∷ 0xfb ∷ 0x51 ∷ 0x82 ∷ 0xcf ∷ 0x59 ∷ 0x38 ∷ 0x05 ∷ 0x6b ∷ 0x55 ∷ 0xc6
    ∷ 0x9f ∷ 0x1f ∷ 0x6a ∷ 0x8b ∷ 0x8c ∷ 0x87 ∷ 0x43 ∷ 0xf6 ∷ 0xc3 ∷ 0xd5 ∷ 0xee ∷ 0xba ∷ 0x5d
    ∷ 0xd6 ∷ 0xbb ∷ 0xd1 ∷ 0x3d ∷ 0x91 ∷ 0xe3 ∷ 0x2f ∷ 0x72 ∷ 0xdf ∷ 0x58 ∷ 0x04 ∷ 0x84 ∷ 0x80
    ∷ 0x64 ∷ 0x57 ∷ 0x3c ∷ 0x09 ∷ 0xd3 ∷ 0x81 ∷ 0x2d ∷ 0x52 ∷ 0xf1 ∷ 0x9d ∷ 0x0a ∷ 0x3d ∷ 0x4e
    ∷ 0x0f ∷ 0x0c ∷ 0x55 ∷ 0xb4 ∷ 0xad ∷ 0x32 ∷ 0xd9 ∷ 0x98 ∷ 0x14 ∷ 0x42 ∷ 0x2d ∷ 0x7b ∷ 0x64
    ∷ 0xdc ∷ 0x06 ∷ 0xdd ∷ 0x9d ∷ 0xa2 ∷ 0xa5 ∷ 0x00 ∷ 0x42 ∷ 0x2b ∷ 0x04 ∷ 0x6a ∷ 0x76 ∷ 0xf2
    ∷ 0x77 ∷ 0xb1 ∷ 0x69 ∷ 0xdd ∷ 0x24 ∷ 0xc3 ∷ 0xe1 ∷ 0x0e ∷ 0x3b ∷ 0x7d ∷ 0xb4 ∷ 0x15 ∷ 0x17
    ∷ 0x6e ∷ 0x41 ∷ 0xf6 ∷ 0x36 ∷ 0x2a ∷ 0x53 ∷ 0x58 ∷ 0xf6 ∷ 0xd9 ∷ 0x47 ∷ 0x9a ∷ 0x8b ∷ 0x17
    ∷ 0x57 ∷ 0x01 ∷ 0x32 ∷ 0x26 ∷ 0x9c ∷ 0x15 ∷ 0x38 ∷ 0xd0 ∷ 0xe1 ∷ 0x66 ∷ 0xf9 ∷ 0x0a ∷ 0xc5
    ∷ 0x7c ∷ 0x97 ∷ 0x0c ∷ 0x26 ∷ 0xb3 ∷ 0x56 ∷ 0x4c ∷ 0xbb ∷ 0x1f ∷ 0x7d ∷ 0x92 ∷ 0xab ∷ 0xba
    ∷ 0xd1 ∷ 0x99 ∷ 0x44 ∷ 0x16 ∷ 0x97 ∷ 0x2f ∷ 0x67 ∷ 0x20 ∷ 0x94 ∷ 0x95 ∷ 0x42 ∷ 0x71 ∷ 0xca
    ∷ 0xde ∷ 0xe2 ∷ 0xa3 ∷ 0x22 ∷ 0x8b ∷ 0x74 ∷ 0x4b ∷ 0xcb ∷ 0x38 ∷ 0x79 ∷ 0xdf ∷ 0x37 ∷ 0xcc
    ∷ 0x1a ∷ 0x78 ∷ 0x68 ∷ 0x10 ∷ 0x17 ∷ 0xe1 ∷ 0xff ∷ 0xea ∷ 0xea ∷ 0x41 ∷ 0xf3 ∷ 0x50 ∷ 0x97
    ∷ 0x71 ∷ 0x7e ∷ 0x76 ∷ 0xa4 ∷ 0xe4 ∷ 0xfb ∷ 0x21 ∷ 0x03 ∷ 0x67 ∷ 0x73 ∷ 0xf6 ∷ 0x54 ∷ 0x81
    ∷ 0xd6 ∷ 0x50 ∷ 0xcf ∷ 0xe4 ∷ 0x18 ∷ 0xd0 ∷ 0x15 ∷ 0x13 ∷ 0x08 ∷ 0x76 ∷ 0x23 ∷ 0xe7 ∷ 0x4c
    ∷ 0xe4 ∷ 0x63 ∷ 0x40 ∷ 0xef ∷ 0xfb ∷ 0x9c ∷ 0x7e ∷ 0x04 ∷ 0x82 ∷ 0xd3 ∷ 0xe6 ∷ 0xcc ∷ 0x14
    ∷ 0x22 ∷ 0xd4 ∷ 0xe7 ∷ 0x98 ∷ 0x57 ∷ 0x55 ∷ 0x16 ∷ 0x04 ∷ 0xf7 ∷ 0x0a ∷ 0xce ∷ 0x1e ∷ 0x98
    ∷ 0x56 ∷ 0x32 ∷ 0x71 ∷ 0xf2 ∷ 0xf2 ∷ 0xd8 ∷ 0x45 ∷ 0x37 ∷ 0xbf ∷ 0x51 ∷ 0xbf ∷ 0x88 ∷ 0x3a
    ∷ 0xc5 ∷ 0xdf ∷ 0x08 ∷ 0x54 ∷ 0xb9 ∷ 0xa8 ∷ 0x93 ∷ 0x2b ∷ 0xdd ∷ 0xa1 ∷ 0x4e ∷ 0x03 ∷ 0xb1
    ∷ 0x42 ∷ 0x92 ∷ 0xb8 ∷ 0x7b ∷ 0xd9 ∷ 0x15 ∷ 0x05 ∷ 0x07 ∷ 0xd3 ∷ 0x0d ∷ 0xfb ∷ 0x65 ∷ 0x9f
    ∷ 0x39 ∷ 0x32 ∷ 0xba ∷ 0x3d ∷ 0x1e ∷ 0x15 ∷ 0xef ∷ 0x66 ∷ 0x97 ∷ 0x62 ∷ 0x31 ∷ 0xb6 ∷ 0xfd
    ∷ 0xfd ∷ 0x76 ∷ 0xb7 ∷ 0x13 ∷ 0x0d ∷ 0x9f ∷ 0xf5 ∷ 0xd3 ∷ 0x7e ∷ 0x11 ∷ 0xde ∷ 0xa6 ∷ 0x88
    ∷ 0x12 ∷ 0x6a ∷ 0x1c ∷ 0x6b ∷ 0xc8 ∷ 0x55 ∷ []
