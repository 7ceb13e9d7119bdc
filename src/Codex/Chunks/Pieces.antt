-- ===== src/Codex/Chunks/Pieces.antt =====
-- Paragraphs and sentences: the pieces that chunks are made of.
use Prim.Native.Char.{Char, code}
use Prim.Native.String.{String}
use reading_wiki.Prelude.{
  ℕ, Bool, true, false, ◌&&◌, ◌||◌, ◌≡◌, List, [], ◌∷◌, ◌++◌, ◌==◌, ltb, if◌then◌else◌, truthy,
  strip, is_space, All, All-append, Bool-cases, inl, inr,
}

-- Adds a character to the first text of a list.
abbrev pub push : Char → List String → List String
push c [] = String.◌∷◌ c String.[] ∷ []
push c (w ∷ ws) = String.◌∷◌ c w ∷ ws

abbrev pub is_newline : Char → Bool
is_newline c = code c == 10

-- `text.split("\n\n")`
unfoldable pub split_breaks : String → List String
split_breaks String.[] = String.[] ∷ []
split_breaks (String.◌∷◌ c String.[]) = String.◌∷◌ c String.[] ∷ []
split_breaks (String.◌∷◌ c (String.◌∷◌ d s)) = elim (is_newline c && is_newline d) [
  | true ↦ String.[] ∷ split_breaks s
  | false ↦ push c (split_breaks (String.◌∷◌ d s))
]

-- `[s.strip() for s in texts if s.strip()]`
unfoldable pub strip_all : List String → List String
unfolding strip
strip_all [] = []
strip_all (s ∷ ss) = if truthy (strip s) then strip s ∷ strip_all ss else strip_all ss

-- Where `re.split(r'(?<=[.!?])\s+', text)` stands: in a text, right after an end of a sentence, or
-- in the white space that follows one.
pub data Place : Type 0 where
  plain after_end in_gap : Place

abbrev pub is_end : Char → Bool
is_end c = code c == 46 || (code c == 33 || code c == 63)

abbrev pub splits : Place → Bool
splits plain = false
splits _ = true

abbrev pub next_place : Place → Char → Place
next_place p c =
    if splits p && is_space (code c) then in_gap else if is_end c then after_end else plain

abbrev pub write : Place → Char → List String → List String
write plain c rest = push c rest
write after_end c rest = if is_space (code c) then String.[] ∷ rest else push c rest
write in_gap c rest = if is_space (code c) then rest else push c rest

unfoldable pub split_ends : Place → String → List String
split_ends p String.[] = String.[] ∷ []
split_ends p (String.◌∷◌ c s) = write p c (split_ends (next_place p c) s)

unfoldable pub split_by_sentences : String → List String
unfolding strip_all split_ends
split_by_sentences text = strip_all (split_ends plain text)

module _ (count_tokens : String → ℕ) (target : ℕ) where
  -- A paragraph that is too long is cut into its sentences.
  unfoldable pub refine : List String → List String
  unfolding split_by_sentences
  refine [] = []
  refine (p ∷ ps) =
      (if ltb target (count_tokens p) then split_by_sentences p else p ∷ []) ++ refine ps

  unfoldable pub pieces_of : String → List String
  unfolding strip_all split_breaks refine
  pieces_of text = refine (strip_all (split_breaks text))

-- A text that is not empty.
abbrev pub IsText : String → Type 0
IsText s = truthy s ≡ true

strip_all-IsText : (ss : List String) → All IsText (strip_all ss)
unfolding strip_all
strip_all-IsText [] = tt
strip_all-IsText (s ∷ ss) = elim (Bool-cases (truthy (strip s))) [
  | inl e ↦ rw e (e, strip_all-IsText ss)
  | inr e ↦ rw e (strip_all-IsText ss)
]

module _ (count_tokens : String → ℕ) (target : ℕ) where
  refine-IsText : (ps : List String) → All IsText ps → All IsText (refine count_tokens target ps)
  unfolding refine
  refine-IsText [] all = tt
  refine-IsText (p ∷ ps) all = elim (Bool-cases (ltb target (count_tokens p))) [
    | inl e ↦
        rw e
          (All-append IsText _ _ (strip_all-IsText (split_ends plain p)) (refine-IsText ps all.1))
    | inr e ↦ rw e (all.0, refine-IsText ps all.1)
  ]

  pub pieces_of-IsText : (text : String) → All IsText (pieces_of count_tokens target text)
  unfolding pieces_of
  pieces_of-IsText text = refine-IsText _ (strip_all-IsText (split_breaks text))

unfoldable pub append : String → String → String
append String.[] t = t
append (String.◌∷◌ c s) t = String.◌∷◌ c (append s t)

-- `"\n\n".join(texts)`
unfoldable pub join : List String → String
unfolding append
join [] = String.[]
join (s ∷ []) = s
join (s ∷ (t ∷ ss)) = append s (append "\n\n" (join (t ∷ ss)))
