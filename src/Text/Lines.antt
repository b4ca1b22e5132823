-- ===== src/Text/Lines.antt =====
-- `lines` of `str`.
use owl_sentry.Base.{List, [], ◌∷◌, if◌then◌else◌, ◌==◌, nat_eq, list_eq, pair_eq}
use owl_sentry.Text.{Text, split_on, is_empty}

-- `lines` of `str`: a final line feed ends the last line, and a carriage return before a line feed
-- belongs to it.
unfoldable pub drop_cr : Text → Text
drop_cr [] = []
drop_cr (c ∷ []) = if c == 13 then [] else c ∷ []
drop_cr (c ∷ d ∷ cs) = c ∷ drop_cr (d ∷ cs)

unfoldable pub ended_lines : List Text → List Text
unfolding drop_cr
ended_lines [] = []
ended_lines (l ∷ []) = if is_empty l then [] else l ∷ []
ended_lines (l ∷ k ∷ ls) = drop_cr l ∷ ended_lines (k ∷ ls)

unfoldable pub lines : Text → List Text
unfolding ended_lines
lines s = ended_lines (split_on (λ c. c == 10) s)
