-- ===== src/Grep/Tests.antt =====
-- Tests and examples of the matcher of user/grep.c.
use operating_systems_2_assi.Prelude.{ℕ, ◌≡◌, refl, ◌↔◌, true, false, List, [], ◌∷◌}
use operating_systems_2_assi.Grep.{match, match_from, matchhere, matchstar, match_one}
use operating_systems_2_assi.Grep.Meaning.{Matches, match-Matches}

-- "ab*$"
abbrev pattern_text : List ℕ
pattern_text = 97 ∷ 98 ∷ 42 ∷ 36 ∷ []

-- "xabb"
abbrev line : List ℕ
line = 120 ∷ 97 ∷ 98 ∷ 98 ∷ []

line_found : match pattern_text line ≡ true
unfolding match match_from matchhere matchstar match_one
line_found = refl

-- The same pattern at the beginning of the line.
line_not_found : match (94 ∷ pattern_text) line ≡ false
unfolding match match_from matchhere matchstar match_one
line_not_found = refl

match-Matches_example : (match pattern_text line ≡ true) ↔ Matches pattern_text line
match-Matches_example = match-Matches pattern_text line
