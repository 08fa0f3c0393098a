-- ===== src/Wire/Utf8.antt =====
-- `String::from_utf8` of Rust's standard library: which byte sequences are UTF-8.
use for_mqtt_client.Base.{ℕ, Bool, true, false, ◌&&◌, ◌||◌, ltb, leb, ◌==◌, List, [], ◌∷◌}

abbrev in_range : ℕ → ℕ → ℕ → Bool
in_range lo hi x = leb lo x && leb x hi

-- The first two bytes of a character of two, three or four bytes, by the Unicode table 3-7. No
-- overlong form, no surrogate, and nothing above U+10FFFF is among them.
abbrev starts_two : ℕ → ℕ → Bool
starts_two a b = in_range 0xC2 0xDF a && in_range 0x80 0xBF b

abbrev starts_three : ℕ → ℕ → Bool
starts_three a b =
    a == 0xE0 && in_range 0xA0 0xBF b
    || in_range 0xE1 0xEC a && in_range 0x80 0xBF b
    || a == 0xED && in_range 0x80 0x9F b
    || in_range 0xEE 0xEF a && in_range 0x80 0xBF b

abbrev starts_four : ℕ → ℕ → Bool
starts_four a b =
    a == 0xF0 && in_range 0x90 0xBF b
    || in_range 0xF1 0xF3 a && in_range 0x80 0xBF b
    || a == 0xF4 && in_range 0x80 0x8F b

unfoldable pub is_utf8 : List ℕ → Bool
is_utf8 [] = true
is_utf8 (a ∷ []) = ltb a 0x80
is_utf8 (a ∷ b ∷ []) = ltb a 0x80 && ltb b 0x80 || starts_two a b
is_utf8 (a ∷ b ∷ c ∷ []) = elim (ltb a 0x80) [
  | true ↦ is_utf8 (b ∷ c ∷ [])
  | false ↦ starts_two a b && ltb c 0x80 || starts_three a b && in_range 0x80 0xBF c
]
is_utf8 (a ∷ b ∷ c ∷ d ∷ rest) = elim (ltb a 0x80) [
  | true ↦ is_utf8 (b ∷ c ∷ d ∷ rest)
  | false ↦ elim (starts_two a b) [
    | true ↦ is_utf8 (c ∷ d ∷ rest)
    | false ↦ elim (starts_three a b && in_range 0x80 0xBF c) [
      | true ↦ is_utf8 (d ∷ rest)
      | false ↦ elim (starts_four a b && in_range 0x80 0xBF c && in_range 0x80 0xBF d) [
        | true ↦ is_utf8 rest
        | false ↦ false
      ]
    ]
  ]
]
