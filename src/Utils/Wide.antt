-- ===== src/Utils/Wide.antt =====
-- src/utils.rs: `path_to_wide` and `wide_to_path`. A text is the list of its characters, and a wide text
-- that of its UTF-16 units.
use arfw.Base.{
  ℕ, ◌+◌, ◌-◌, ◌*◌, ◌/◌, ◌%◌, ◌≡◌, refl, ap, ◌∙◌, Bool, true, false, ◌&&◌, ◌||◌, List, [], ◌∷◌,
  ◌++◌, if◌then◌else◌, ◌==◌, ltb, leb, arith, Bool-cases, inl, inr,
}

-- The standard library's encoding of a character.
unfoldable pub encode_char : ℕ → List ℕ
encode_char c =
    if ltb c 0x10000
    then c ∷ []
    else (0xD800 + (c - 0x10000) / 1024) ∷ (0xDC00 + (c - 0x10000) % 1024) ∷ []

-- `encode_wide`
unfoldable pub encode_wide : List ℕ → List ℕ
unfolding encode_char
encode_wide [] = []
encode_wide (c ∷ path) = encode_char c ++ encode_wide path

abbrev is_high : ℕ → Bool
is_high u = leb 0xD800 u && ltb u 0xDC00

abbrev is_low : ℕ → Bool
is_low u = leb 0xDC00 u && ltb u 0xE000

-- A unit that stands alone: a character, or the replacement for half of one.
abbrev lone : ℕ → ℕ
lone u = if is_high u || is_low u then 0xFFFD else u

-- `OsString::from_wide` and `to_string_lossy`
unfoldable pub decode_lossy : List ℕ → List ℕ
decode_lossy [] = []
decode_lossy (u ∷ []) = lone u ∷ []
decode_lossy (u ∷ v ∷ units) = elim (is_high u && is_low v) [
  | true ↦ (0x10000 + (u - 0xD800) * 1024 + (v - 0xDC00)) ∷ decode_lossy units
  | false ↦ lone u ∷ decode_lossy (v ∷ units)
]

-- `take_while(|&&c| c != 0)`
unfoldable pub before_null : List ℕ → List ℕ
before_null [] = []
before_null (u ∷ units) = let rest = before_null units in if u == 0 then [] else u ∷ rest

unfoldable pub path_to_wide : List ℕ → List ℕ
unfolding encode_wide
path_to_wide path = encode_wide path ++ (0 ∷ [])

unfoldable pub wide_to_path : List ℕ → List ℕ
unfolding decode_lossy before_null
wide_to_path wide = decode_lossy (before_null wide)

-- A character other than the null character.
abbrev pub is_path_char : ℕ → Bool
is_path_char c = ltb 0 c && (ltb c 0xD800 || leb 0xE000 c && ltb c 0x110000)

abbrev pub is_path : List ℕ → Bool
is_path [] = true
is_path (c ∷ path) = is_path_char c && is_path path

decode_lossy-lone :
    (u : ℕ) (units : List ℕ)
    → (is_high u || is_low u) ≡ false
    → decode_lossy (u ∷ units) ≡ u ∷ decode_lossy units
unfolding decode_lossy
decode_lossy-lone u [] h = ground arith
decode_lossy-lone u (v ∷ units) h = ground arith

decode_lossy-pair :
    (c : ℕ) (units : List ℕ)
    → ltb c 0x10000 ≡ false
    → ltb c 0x110000 ≡ true
    → decode_lossy ((0xD800 + (c - 0x10000) / 1024) ∷ (0xDC00 + (c - 0x10000) % 1024) ∷ units)
      ≡ c ∷ decode_lossy units
unfolding decode_lossy
decode_lossy-pair c units big small = ground arith

pub decode_lossy-encode_wide :
    (path : List ℕ) → is_path path ≡ true → decode_lossy (encode_wide path) ≡ path
unfolding encode_wide encode_char decode_lossy
decode_lossy-encode_wide [] h = refl
decode_lossy-encode_wide (c ∷ path) h =
    let rest = decode_lossy-encode_wide path (ground arith) in
    elim (Bool-cases (ltb c 0x10000)) [
      | inl short ↦
          rw short (decode_lossy-lone c (encode_wide path) (ground arith) ∙ ap (◌∷◌ c) rest)
      | inr long ↦
          rw long (decode_lossy-pair c (encode_wide path) long (ground arith) ∙ ap (◌∷◌ c) rest)
    ]

pub before_null-encode_wide :
    (path later : List ℕ)
    → is_path path ≡ true
    → before_null (encode_wide path ++ (0 ∷ later)) ≡ encode_wide path
unfolding encode_wide encode_char before_null
before_null-encode_wide [] later h = refl
before_null-encode_wide (c ∷ path) later h =
    let rest = before_null-encode_wide path later (ground arith) in
    elim (Bool-cases (ltb c 0x10000)) [
      | inl short ↦ rw short (ground (arith, rest))
      | inr long ↦ rw long (ground (arith, rest))
    ]

-- A path of characters other than the null character that is made wide and read back is the same.
pub wide_to_path-path_to_wide :
    (path : List ℕ) → is_path path ≡ true → wide_to_path (path_to_wide path) ≡ path
unfolding wide_to_path path_to_wide
wide_to_path-path_to_wide path h =
    ap decode_lossy (before_null-encode_wide path [] h) ∙ decode_lossy-encode_wide path h
