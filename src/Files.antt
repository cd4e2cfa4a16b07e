-- ===== src/Files.antt =====
-- The files under the media root, by path, with their contents.
use plex_mirror.Base.{
  ◌≡◌, ℕ, Option, none, some, List, [], ◌∷◌, arith, if◌then◌else◌, Text, text_eq, text_eq_iff,
}

abbrev pub Content : Type 0
Content = List ℕ

abbrev pub Files : Type 0
Files = List (Text × Content)

-- What a file holds; `none` where no file is.
unfoldable pub content_at : Text → Files → Option Content
content_at p [] = none
content_at p (f ∷ fs) = let rest = content_at p fs in if text_eq f.0 p then some f.1 else rest

unfoldable pub erase : Text → Files → Files
erase p [] = []
erase p (f ∷ fs) = let rest = erase p fs in if text_eq f.0 p then rest else f ∷ rest

-- The file at `p` holds `c`, and nothing else.
unfoldable pub put : Text → Content → Files → Files
unfolding erase
put p c fs = (p, c) ∷ erase p fs

pub content_at-erase :
    (p q : Text) (fs : Files)
    → content_at p (erase q fs) ≡ (if text_eq q p then none else content_at p fs)
unfolding content_at erase
content_at-erase p q [] = ground arith
content_at-erase p q (f ∷ fs) =
    ground (arith, text_eq_iff f.0 q, text_eq_iff f.0 p, text_eq_iff q p, content_at-erase p q fs)

pub content_at-put :
    (p q : Text) (c : Content) (fs : Files)
    → content_at p (put q c fs) ≡ (if text_eq q p then some c else content_at p fs)
unfolding content_at put
content_at-put p q c fs = ground (arith, content_at-erase p q fs)
