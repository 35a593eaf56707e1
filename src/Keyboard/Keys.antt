-- ===== src/Keyboard/Keys.antt =====
-- The key tables of src/drivers/keyboard.c. A character stands as its code; the keys that are none
-- are the numbers of the enumeration there, from UNKNOWN = 0x100 on.
use tomato_os.Base.{ℕ, List, [], ◌∷◌, Option, none, some, get_elem?}

abbrev pub unknown : ℕ
unknown = 0x100

-- LSHFT, RSHFT and CAPS
abbrev pub left_shift : ℕ
left_shift = 259

abbrev pub right_shift : ℕ
right_shift = 260

abbrev pub caps : ℕ
caps = 285

-- The entries up to the last that is not UNKNOWN.
abbrev pub lowercase_keys : List ℕ
lowercase_keys =
    256 ∷ 257 ∷ 49 ∷ 50 ∷ 51 ∷ 52 ∷ 53 ∷ 54 ∷ 55 ∷ 56 ∷ 57 ∷ 48 ∷ 45 ∷ 61 ∷ 8 ∷ 9 ∷ 113 ∷ 119 ∷ 101
    ∷ 114 ∷ 116 ∷ 121 ∷ 117 ∷ 105 ∷ 111 ∷ 112 ∷ 91 ∷ 93 ∷ 10 ∷ 258 ∷ 97 ∷ 115 ∷ 100 ∷ 102 ∷ 103
    ∷ 104 ∷ 106 ∷ 107 ∷ 108 ∷ 59 ∷ 39 ∷ 96 ∷ 259 ∷ 92 ∷ 122 ∷ 120 ∷ 99 ∷ 118 ∷ 98 ∷ 110 ∷ 109 ∷ 44
    ∷ 46 ∷ 47 ∷ 260 ∷ 42 ∷ 261 ∷ 32 ∷ 285 ∷ 262 ∷ 263 ∷ 264 ∷ 265 ∷ 266 ∷ 267 ∷ 268 ∷ 269 ∷ 270
    ∷ 271 ∷ 288 ∷ 274 ∷ 275 ∷ 276 ∷ 280 ∷ 45 ∷ 277 ∷ 256 ∷ 278 ∷ 43 ∷ 282 ∷ 279 ∷ 281 ∷ 283 ∷ 284
    ∷ 256 ∷ 256 ∷ 256 ∷ 272 ∷ 273 ∷ 256 ∷ 256 ∷ 256 ∷ 256 ∷ 256 ∷ 256 ∷ 256 ∷ []

abbrev pub uppercase_keys : List ℕ
uppercase_keys =
    256 ∷ 257 ∷ 33 ∷ 64 ∷ 35 ∷ 36 ∷ 37 ∷ 94 ∷ 38 ∷ 42 ∷ 40 ∷ 41 ∷ 95 ∷ 43 ∷ 8 ∷ 9 ∷ 81 ∷ 87 ∷ 69
    ∷ 82 ∷ 84 ∷ 89 ∷ 85 ∷ 73 ∷ 79 ∷ 80 ∷ 123 ∷ 125 ∷ 10 ∷ 258 ∷ 65 ∷ 83 ∷ 68 ∷ 70 ∷ 71 ∷ 72 ∷ 74
    ∷ 75 ∷ 76 ∷ 58 ∷ 34 ∷ 126 ∷ 259 ∷ 124 ∷ 90 ∷ 88 ∷ 67 ∷ 86 ∷ 66 ∷ 78 ∷ 77 ∷ 60 ∷ 62 ∷ 63 ∷ 260
    ∷ 42 ∷ 261 ∷ 32 ∷ 285 ∷ 262 ∷ 263 ∷ 264 ∷ 265 ∷ 266 ∷ 267 ∷ 268 ∷ 269 ∷ 270 ∷ 271 ∷ 288 ∷ 274
    ∷ 275 ∷ 276 ∷ 280 ∷ 45 ∷ 277 ∷ 256 ∷ 278 ∷ 43 ∷ 282 ∷ 279 ∷ 281 ∷ 283 ∷ 284 ∷ 256 ∷ 256 ∷ 256
    ∷ 272 ∷ 273 ∷ 256 ∷ 256 ∷ 256 ∷ 256 ∷ 256 ∷ 256 ∷ 256 ∷ []

-- `lowercase[code]` and `uppercase[code]`, for a code below 128.
abbrev pub entry : List ℕ → (code : ℕ) → ℕ
entry keys code = or_unknown (get_elem? keys code)
  where
    or_unknown : Option ℕ → ℕ
    or_unknown none = unknown
    or_unknown (some key) = key

unfoldable pub lowercase : (code : ℕ) → ℕ
lowercase code = entry lowercase_keys code

unfoldable pub uppercase : (code : ℕ) → ℕ
uppercase code = entry uppercase_keys code
