-- ===== src/Download/Honest.antt =====
-- What Download of internal/download/engine.go relies on: an honest server, and the states of the
-- partial file between attempts.
use plex_mirror.Base.{ℕ, ◌≤◌, ◌≡◌, none, some, List, [], ◌∷◌, ◌++◌, or_else, Text, length, drop}
use plex_mirror.Files.{Content, content_at}
use plex_mirror.Download.Fetch.{eof, Read, Response, Attempt, Outcome, done, Transfer}

-- The body sends a prefix of `w`, and all of it where it ends.
abbrev pub Sends : Content → List Read → Type 0
Sends w [] = Unit {0}
Sends w (r ∷ rs) =
    (rest : Content) × (r.chunk ++ rest ≡ w) × (r.ending ≡ eof → rest ≡ []) × Sends rest rs

-- The server has the file `file`, and was asked for what follows `start_at`: 200 sends the file,
-- 206 what was asked for, and 416 says that nothing is left.
abbrev pub IsHonest : Content → ℕ → Attempt → Type 0
IsHonest file start_at a =
    (r : Response)
    → a.response ≡ some r
    → (r.status_code ≡ 200 → Sends file r.body)
      × (r.status_code ≡ 206 → Sends (drop start_at file) r.body)
      × (r.status_code ≡ 416 → length file ≤ start_at)

abbrev pub held : Text → Transfer → Content
held path t = or_else [] (content_at path t.disk.files)

-- What is on disk is the beginning of the file.
abbrev pub IsPart : Content → Text → Transfer → Type 0
IsPart file path t = (rest : Content) × (held path t ++ rest ≡ file)

-- Between two attempts startAt is the size of what is there.
abbrev pub IsResumable : Content → Text → Transfer → Type 0
IsResumable file path t = IsPart file path t × (t.start_at ≡ length (held path t))

-- After an attempt, before the re-stat.
abbrev pub IsSound : Content → Text → Transfer × Outcome → Type 0
IsSound file path (t, outcome) =
    IsPart file path t
    × (content_at path t.disk.files ≡ none → t.start_at ≡ 0)
    × (outcome ≡ done → content_at path t.disk.files ≡ some file)
