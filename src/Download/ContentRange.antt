-- ===== src/Download/ContentRange.antt =====
-- parseContentRangeTotal of internal/download/engine.go.
use plex_mirror.Base.{
  Option, none, some, [], ◌∷◌, if◌then◌else◌, ◌==◌, Text, text_eq, codes, trim_space,
}
use plex_mirror.Base.Int.{ℤ}
use plex_mirror.Base.Decimal.{parse_int}

-- What follows the first "/": the second part of strings.SplitN(h, "/", 2).
unfoldable pub after_slash : Text → Option Text
after_slash [] = none
after_slash (c ∷ cs) = let rest = after_slash cs in if c == b'/' then some cs else rest

unfoldable pub parse_content_range_total : Text → Option ℤ
unfolding after_slash parse_int trim_space text_eq
parse_content_range_total h = elim (after_slash h) [
  | none ↦ none
  | some total ↦ if text_eq total (codes "*") then none else parse_int (trim_space total)
]
