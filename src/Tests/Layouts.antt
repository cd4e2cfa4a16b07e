-- ===== src/Tests/Layouts.antt =====
-- Runs of internal/download/layout.go.
use plex_mirror.Base.{
  ℕ, zero, suc, ◌≤◌, ◌≡◌, refl, inl, inr, none, some, true, arith, codes, Text, text_eq, has_prefix,
  [], ◌∷◌, All,
}
use plex_mirror.Base.Int.{pos}
use plex_mirror.Source.{Item, movie, episode}
use plex_mirror.Config.{validate_library_dir, has_separator}
use plex_mirror.Storage.Paths.{path_is_under_root}
use plex_mirror.Layout.{Layout, final, partial, ok}
use plex_mirror.Layout.Below.{IsPlaced, IsHex, final_under_root}
use plex_mirror.Layout.Sanitize.{sanitize, byte_length}
use plex_mirror.Layout.Sanitize.Safe.{IsSafe, sanitize-IsSafe}
use plex_mirror.Layout.Sanitize.Bounded.{IsRune, sanitize-bounded}

abbrev media : Layout
media = record {
  media_root = codes "/media";
  movies_dir = [];
  shows_dir = codes "tv";
  other_dir = [];
}

abbrev pilot : Item
pilot = record {
  id = codes "7";
  title = codes "Pilot: Part 1";
  kind = episode;
  year = 0;
  container = codes ".MKV";
  size_bytes = 10;
  show_title = codes "AC/DC ";
  season_number = pos 1;
  episode_number = pos 12;
  parent_id = codes "3";
}

pilot_path :
    final media pilot ≡ ok (codes "/media/tv/AC-DC/Season 01/AC-DC - s01e12 - Pilot - Part 1.mkv")
unfolding final
pilot_path = refl

movie_path :
    final media
      (record pilot { kind = movie; title = codes "Alien"; year = 1979; container = codes "mp4" })
    ≡ ok (codes "/media/movies/Alien (1979).mp4")
unfolding final
movie_path = refl

sanitize-IsSafe_example : All IsSafe (codes "AC-DC - Live - 1")
unfolding sanitize
sanitize-IsSafe_example = sanitize-IsSafe (codes " AC/DC: Live\t| 1..")

-- 130 times "é", which takes two bytes.
abbrev accents : ℕ → Text
accents zero = []
accents (suc n) = 0xE9 ∷ accents n

accents-IsRune : (n : ℕ) → All IsRune (accents n)
accents-IsRune zero = tt
accents-IsRune (suc n) = (omega arith, accents-IsRune n)

sanitize-bounded_example : byte_length (sanitize (accents 130)) ≤ 200
sanitize-bounded_example = sanitize-bounded (accents 130) (accents-IsRune 130)

accents_cut : byte_length (sanitize (accents 130)) ≡ 200
unfolding sanitize byte_length
accents_cut = refl

abbrev digest : Text → Text
digest s = codes "0a"

digest-IsHex : (s : Text) → IsHex (digest s)
digest-IsHex s = record { filled = refl; digits = (refl, (refl, tt)) }

media-IsPlaced : IsPlaced media
unfolding validate_library_dir has_separator has_prefix text_eq
media-IsPlaced = record { rooted = refl; movies = inl refl; shows = inr refl; other = inl refl }

final_under_root_example :
    (path_is_under_root none
        (codes "/media")
        (codes "/media/tv/AC-DC/Season 01/AC-DC - s01e12 - Pilot - Part 1.mkv")
      ≡ some true)
    × (path_is_under_root none (codes "/media") (partial digest media (codes "plex") (codes "7"))
        ≡ some true)
final_under_root_example =
    final_under_root none digest media (codes "plex")
      (codes "/media/tv/AC-DC/Season 01/AC-DC - s01e12 - Pilot - Part 1.mkv") pilot media-IsPlaced
      digest-IsHex (refl, (refl, (refl, (refl, tt)))) pilot_path

-- A container with separators leads out of the media root.
escapes :
    final media (record pilot { container = codes "/../../../../../etc/mkv" })
    ≡ ok (codes "/etc/mkv")
unfolding final
escapes = refl
