-- ===== src/Grep/Meaning.antt =====
-- What a pattern of user/grep.c means, and match() against it.
use operating_systems_2_assi.Prelude.{
  ℕ, ◌≡◌, refl, ◌∙◌, ap, inl, inr, ◌↔◌, Bool, true, false, ◌||◌, ◌==◌, if◌then◌else◌, List, [], ◌∷◌,
  ◌++◌, All, Bool-cases, arith, subst,
}
use operating_systems_2_assi.Grep.{
  asterisk, caret, dollar, dot, is_end, covers, matchstar, match_one, matchhere, match_from, match,
}

-- The pieces of a pattern: a character, repetitions of a character, and the end of the text. The
-- character is `.` for any.
pub data Piece : Type 0 where
  one : ℕ → Piece
  many : ℕ → Piece
  last : Piece

-- A `$` stands for the end of the text only at the end of the pattern.
unfoldable pub pieces : List ℕ → List Piece
pieces [] = []
pieces (c ∷ []) = if c == dollar then last ∷ [] else one c ∷ []
pieces (c ∷ d ∷ re) =
    let after = pieces re in
    let next = pieces (d ∷ re) in if d == asterisk then many c ∷ after else one c ∷ next

-- A piece stands for a part of the text.
abbrev pub Stands : Piece → List ℕ → List ℕ → Type 0
Stands (one c) part rest = (t : ℕ) × (part ≡ t ∷ []) × (covers c t ≡ true)
Stands (many c) part rest = All (λ t. covers c t ≡ true) part
Stands last part rest = (part ≡ []) × (rest ≡ [])

-- The text begins with parts for which the pieces stand one after the other.
abbrev pub Fits : List Piece → List ℕ → Type 0
Fits [] text = Unit
Fits (p ∷ ps) text =
    (part : List ℕ) × (rest : List ℕ) × (text ≡ part ++ rest) × Stands p part rest × Fits ps rest

-- A part of the text fits the pieces; after `^` the part at its beginning.
abbrev pub Matches : List ℕ → List ℕ → Type 0
Matches [] text =
    (before : List ℕ) × (rest : List ℕ) × (text ≡ before ++ rest) × Fits (pieces []) rest
Matches (c ∷ re) text =
    if c == caret
    then Fits (pieces re) text
    else (before : List ℕ) × (rest : List ℕ) × (text ≡ before ++ rest) × Fits (pieces (c ∷ re)) rest

-- A part for which `Q` holds, and a rest for which `P` holds.
abbrev Splits : (List ℕ → Type 0) → (List ℕ → Type 0) → List ℕ → Type 0
Splits Q P text = (part : List ℕ) × (rest : List ℕ) × (text ≡ part ++ rest) × Q part × P rest

module _ (here : List ℕ → Bool) (P : List ℕ → Type 0) where
  matchstar-to :
      ((text : List ℕ) → here text ≡ true → P text)
      → (c : ℕ) (text : List ℕ) → matchstar here c text ≡ true
      → Splits (All (λ t. covers c t ≡ true)) P text
  unfolding matchstar
  matchstar-to f c [] e = ([], [], refl, tt, f [] e)
  matchstar-to f c (t ∷ text) e = elim (Bool-cases (here (t ∷ text))) [
    | inl h ↦ ([], t ∷ text, refl, tt, f (t ∷ text) h)
    | inr h ↦ elim (Bool-cases (t == c || c == dot)) [
      | inl d ↦
          let (part, rest, q, a, p) = matchstar-to f c text (ground (arith, e, h, d)) in
          (t ∷ part, rest, ap (λ xs. t ∷ xs) q, (ground (arith, d), a), p)
      | inr d ↦ absurd (let bad : false ≡ true = ground (arith, e, h, d) in ground (arith, bad))
    ]
  ]

  matchstar_now : (c : ℕ) (text : List ℕ) → here text ≡ true → matchstar here c text ≡ true
  unfolding matchstar
  matchstar_now c [] h = h
  matchstar_now c (t ∷ text) h = rw h refl

  matchstar-from :
      ((text : List ℕ) → P text → here text ≡ true)
      → (c : ℕ) (part rest : List ℕ) → All (λ t. covers c t ≡ true) part
      → P rest
      → matchstar here c (part ++ rest) ≡ true
  unfolding matchstar
  matchstar-from f c [] rest a p = matchstar_now c rest (f rest p)
  matchstar-from f c (t ∷ part) rest (d, a) p =
      let later = matchstar-from f c part rest a p in ground (arith, d, later)

  match_one-to :
      ((text : List ℕ) → here text ≡ true → P text)
      → (c : ℕ) (text : List ℕ) → match_one here c text ≡ true
      → Splits (λ part. (t : ℕ) × (part ≡ t ∷ []) × (covers c t ≡ true)) P text
  unfolding match_one
  match_one-to f c [] e = absurd (ground (arith, e))
  match_one-to f c (t ∷ text) e = elim (Bool-cases (covers c t)) [
    | inl d ↦ (t ∷ [], text, refl, (t, refl, d), f text (ground (arith, e, d)))
    | inr d ↦ absurd (let bad : false ≡ true = ground (arith, e, d) in ground (arith, bad))
  ]

  match_one-from :
      ((text : List ℕ) → P text → here text ≡ true)
      → (c t : ℕ) (rest : List ℕ) → covers c t ≡ true
      → P rest
      → match_one here c (t ∷ rest) ≡ true
  unfolding match_one
  match_one-from f c t rest d p = rw (d, f rest p) refl

  match_from-to :
      ((text : List ℕ) → here text ≡ true → P text)
      → (text : List ℕ) → match_from here text ≡ true
      → (before : List ℕ) × (rest : List ℕ) × (text ≡ before ++ rest) × P rest
  unfolding match_from
  match_from-to f [] e = ([], [], refl, f [] e)
  match_from-to f (t ∷ text) e = elim (Bool-cases (here (t ∷ text))) [
    | inl h ↦ ([], t ∷ text, refl, f (t ∷ text) h)
    | inr h ↦
        let (before, rest, q, p) = match_from-to f text (ground (arith, e, h)) in
        (t ∷ before, rest, ap (λ xs. t ∷ xs) q, p)
  ]

  match_from_now : (text : List ℕ) → here text ≡ true → match_from here text ≡ true
  unfolding match_from
  match_from_now [] h = h
  match_from_now (t ∷ text) h = rw h refl

  match_from-from :
      ((text : List ℕ) → P text → here text ≡ true)
      → (before rest : List ℕ) → P rest
      → match_from here (before ++ rest) ≡ true
  unfolding match_from
  match_from-from f [] rest p = match_from_now rest (f rest p)
  match_from-from f (t ∷ before) rest p =
      let later = match_from-from f before rest p in ground (arith, later)

end-to : (text : List ℕ) → is_end text ≡ true → Fits (last ∷ []) text
end-to [] e = ([], [], refl, (refl, refl), tt)
end-to (t ∷ text) e = absurd (ground (arith, e))

matchhere-to : (re text : List ℕ) → matchhere re text ≡ true → Fits (pieces re) text
unfolding matchhere pieces
matchhere-to [] text e = tt
matchhere-to (c ∷ []) text e = elim (Bool-cases (c == dollar)) [
  | inl d ↦ rw d (end-to text (ground (arith, e, d)))
  | inr d ↦ rw d (
      match_one-to (matchhere []) (Fits (pieces [])) (λ x h. matchhere-to [] x h) c text
        (ground (arith, e, d)))
]
matchhere-to (c ∷ d ∷ re) text e = elim (Bool-cases (d == asterisk)) [
  | inl s ↦ rw s (
      matchstar-to (matchhere re) (Fits (pieces re)) (λ x h. matchhere-to re x h) c text
        (ground (arith, e, s)))
  | inr s ↦ rw s (
      match_one-to (matchhere (d ∷ re)) (Fits (pieces (d ∷ re))) (λ x h. matchhere-to (d ∷ re) x h)
        c text (ground (arith, e, s)))
]

Fits-end : (text : List ℕ) → Fits (last ∷ []) text → is_end text ≡ true
Fits-end text (part, rest, q, (a, b), u) = ap is_end (q ∙ ap (λ xs. xs ++ rest) a ∙ b)

-- The other direction of match_one-to, for any text.
Fits-match_one :
    (here : List ℕ → Bool) (ps : List Piece)
    → ((text : List ℕ) → Fits ps text → here text ≡ true)
    → (c : ℕ) (text : List ℕ) → Fits (one c ∷ ps) text
    → match_one here c text ≡ true
Fits-match_one here ps f c text (part, rest, q, (t, a, d), p) =
    ap (match_one here c) (q ∙ ap (λ xs. xs ++ rest) a)
    ∙ match_one-from here (Fits ps) f c t rest d p

Fits-matchstar :
    (here : List ℕ → Bool) (ps : List Piece)
    → ((text : List ℕ) → Fits ps text → here text ≡ true)
    → (c : ℕ) (text : List ℕ) → Fits (many c ∷ ps) text
    → matchstar here c text ≡ true
Fits-matchstar here ps f c text (part, rest, q, a, p) =
    ap (matchstar here c) q ∙ matchstar-from here (Fits ps) f c part rest a p

matchhere-from : (re text : List ℕ) → Fits (pieces re) text → matchhere re text ≡ true
unfolding matchhere pieces
matchhere-from [] text e = refl
matchhere-from (c ∷ []) text e = elim (Bool-cases (c == dollar)) [
  | inl d ↦ rw d (Fits-end text (subst (λ b. Fits (if b then last ∷ [] else one c ∷ []) text) d e))
  | inr d ↦ rw d (
      Fits-match_one (matchhere []) [] (λ x h. refl) c text
        (subst (λ b. Fits (if b then last ∷ [] else one c ∷ []) text) d e))
]
matchhere-from (c ∷ d ∷ re) text e =
    let choice =
      λ (b : Bool). Fits (if b then many c ∷ pieces re else one c ∷ pieces (d ∷ re)) text in
    elim (Bool-cases (d == asterisk)) [
      | inl s ↦ rw s (
          Fits-matchstar (matchhere re) (pieces re) (λ x h. matchhere-from re x h) c text
            (subst choice s e))
      | inr s ↦ rw s (
          Fits-match_one (matchhere (d ∷ re)) (pieces (d ∷ re)) (λ x h. matchhere-from (d ∷ re) x h)
            c text (subst choice s e))
    ]

-- A search at every place of the text.
match_from-Fits :
    (re text : List ℕ)
    → (match_from (matchhere re) text ≡ true)
      ↔ ((before : List ℕ) × (rest : List ℕ) × (text ≡ before ++ rest) × Fits (pieces re) rest)
match_from-Fits re text = (
  λ e. match_from-to (matchhere re) (Fits (pieces re)) (λ x h. matchhere-to re x h) text e,
  λ (before, rest, q, p).
      ap (match_from (matchhere re)) q
      ∙ match_from-from (matchhere re) (Fits (pieces re)) (λ x h. matchhere-from re x h) before rest
          p,
)

-- match() returns true exactly when some part of the text, or after `^` a part at its beginning,
-- is a sequence of parts for which the pieces of the pattern stand one after the other: a
-- character or `.` for one character, with `*` for any number of them, and a `$` at the end of
-- the pattern for the end of the text.
pub match-Matches : (re text : List ℕ) → (match re text ≡ true) ↔ Matches re text
unfolding match
match-Matches [] text = match_from-Fits [] text
match-Matches (c ∷ re) text = elim (Bool-cases (c == caret)) [
  | inl e ↦ rw e (matchhere-to re text, matchhere-from re text)
  | inr e ↦ rw e (match_from-Fits (c ∷ re) text)
]
