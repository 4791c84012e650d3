-- ===== src/Grep.antt =====
-- The matcher of user/grep.c. A C string is the list of its characters, without the null byte at
-- its end.
use operating_systems_2_assi.Prelude.{
  ℕ, Bool, true, false, ◌||◌, ◌==◌, if◌then◌else◌, List, [], ◌∷◌,
}
pub mod Meaning
mod Tests

abbrev pub dot : ℕ
dot = 46

abbrev pub asterisk : ℕ
asterisk = 42

abbrev pub dollar : ℕ
dollar = 36

abbrev pub caret : ℕ
caret = 94

-- *text == '\0'
abbrev pub is_end : List ℕ → Bool
is_end [] = true
is_end (t ∷ text) = false

-- Whether the character `c` of a pattern stands for `t`.
abbrev pub covers : ℕ → ℕ → Bool
covers c t = c == dot || c == t

-- The loop of matchstar(); `here` is matchhere() of the rest of the pattern.
unfoldable pub matchstar : (List ℕ → Bool) → ℕ → List ℕ → Bool
matchstar here c [] = here []
matchstar here c (t ∷ text) =
    let rest = matchstar here c text in
    if here (t ∷ text) then true else if t == c || c == dot then rest else false

-- The last test of matchhere() and its call of itself.
unfoldable pub match_one : (List ℕ → Bool) → ℕ → List ℕ → Bool
match_one here c [] = false
match_one here c (t ∷ text) = if covers c t then here text else false

unfoldable pub matchhere : List ℕ → List ℕ → Bool
matchhere [] text = true
matchhere (c ∷ []) text = if c == dollar then is_end text else match_one (matchhere []) c text
matchhere (c ∷ d ∷ re) text =
    let star = matchstar (matchhere re) c text in
    let one = match_one (matchhere (d ∷ re)) c text in if d == asterisk then star else one

-- The loop of match().
unfoldable pub match_from : (List ℕ → Bool) → List ℕ → Bool
match_from here [] = here []
match_from here (t ∷ text) =
    let rest = match_from here text in if here (t ∷ text) then true else rest

-- match()
unfoldable pub match : List ℕ → List ℕ → Bool
match [] text = match_from (matchhere []) text
match (c ∷ re) text = if c == caret then matchhere re text else match_from (matchhere (c ∷ re)) text
