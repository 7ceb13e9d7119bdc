-- ===== src/Prelude/Texts.antt =====
-- Texts that the program compares, tests for emptiness and clips.
use Prim.Native.Nat.{ℕ, zero, suc, ◌-◌, ◌/◌, ◌%◌}
use Prim.Native.String.{String}
use mathlib.Core.Bool.{Bool, true, false, not, ◌&&◌, ◌||◌}
use Prim.Native.Char.{Char, code, nul}
use reading_wiki.Prelude.Tests.{leb, ltb, ◌==◌, if◌then◌else◌}
use mathlib.Core.Option.{Option, none, some}
pub use text.Mathlib.Text.{◌==◌ as str_eq}
pub use text.Mathlib.TextEquality.{eq_iff}
pub use text.Mathlib.TextPositions.{eq_refl}

-- The truth value of a text: all but the empty one count as true.
abbrev pub truthy : String → Bool
truthy String.[] = false
truthy (String.◌∷◌ c s) = true

-- `s[:n]`
unfoldable pub clip : ℕ → String → String
clip zero s = String.[]
clip (suc n) String.[] = String.[]
clip (suc n) (String.◌∷◌ c s) = String.◌∷◌ c (clip n s)

-- `opt == text` on a nullable column: false where it is NULL.
abbrev pub opt_eq : Option String → String → Bool
opt_eq none t = false
opt_eq (some s) t = str_eq s t

-- `str.isspace` at one code point.
abbrev pub is_space : ℕ → Bool
is_space c =
    (leb 9 c && leb c 13)
    || ((leb 28 c && leb c 32)
        || (c == 133
            || (c == 160
                || (c == 5760
                    || ((leb 8192 c && leb c 8202)
                        || (c == 8232
                            || (c == 8233 || (c == 8239 || (c == 8287 || c == 12288)))))))))

unfoldable pub lstrip : String → String
lstrip String.[] = String.[]
lstrip (String.◌∷◌ c s) = let rest = lstrip s in if is_space (code c) then rest else String.◌∷◌ c s

unfoldable pub rstrip : String → String
rstrip String.[] = String.[]
rstrip (String.◌∷◌ c s) =
    let rest = rstrip s in
    if is_space (code c) && not (truthy rest) then String.[] else String.◌∷◌ c rest

-- `str.strip()`
unfoldable pub strip : String → String
unfolding lstrip rstrip
strip s = lstrip (rstrip s)

abbrev letter : ℕ → String → Char → Char
letter n String.[] d = d
letter zero (String.◌∷◌ c s) d = c
letter (suc n) (String.◌∷◌ c s) d = letter n s d

abbrev pub lower_char : Char → Char
lower_char c =
    if leb 65 (code c) && leb (code c) 90
    then letter (code c - 65) "abcdefghijklmnopqrstuvwxyz" c
    else c

-- `str.lower` on the Latin letters; no other character becomes one that stands in a word
-- that the program compares with.
unfoldable pub lower : String → String
lower String.[] = String.[]
lower (String.◌∷◌ c s) = String.◌∷◌ (lower_char c) (lower s)

abbrev begins : String → String → Bool
begins String.[] s = true
begins (String.◌∷◌ d word) String.[] = false
begins (String.◌∷◌ d word) (String.◌∷◌ c s) = code d == code c && begins word s

-- `word in text`
unfoldable pub contains : String → String → Bool
contains word String.[] = not (truthy word)
contains word (String.◌∷◌ c s) = begins word (String.◌∷◌ c s) || contains word s

abbrev pub text_append : String → String → String
text_append String.[] t = t
text_append (String.◌∷◌ c s) t = String.◌∷◌ c (text_append s t)

abbrev digits : ℕ → ℕ → String → String
digits zero n rest = rest
digits (suc fuel) n rest =
    let here = String.◌∷◌ (letter (n % 10) "0123456789" nul) rest in
    let before = digits fuel (n / 10) here in if ltb n 10 then here else before

-- `str(n)`; a number has at most as many digits as one more than itself.
unfoldable pub decimal : ℕ → String
decimal n = digits (suc n) n ""
