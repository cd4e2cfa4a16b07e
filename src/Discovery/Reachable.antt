-- ===== src/Discovery/Reachable.antt =====
-- What a full probe by Discover of internal/source/plex/discover.go connects to.
use plex_mirror.Base.{
  ◌≡◌, sym, ap, ◌∙◌, inl, inr, Bool, true, false, Option, none, some, List, [], ◌∷◌, or_else,
  is_empty, trim_space, Text, Bool-cases,
}
use mathlib.Core.Bool.{false≢true}
use plex_mirror.Discovery.{
  Connection, Resource, Discovered, Result, ok, err, rank_connections, trim_slashes, candidate,
  probe_loop, connect_ranked, connect, discover, select_server, any_reachable,
}
use plex_mirror.Discovery.Choice.{probe_loop_keeps, Result-cases, of_ok, err-ne-ok}

module _ (probe : Text → Bool) where
  -- A full probe chooses a connection that responded, if any did.
  probe_loop_reachable :
      (cs : List Connection)
      → any_reachable (probe_loop probe true cs none).0 ≡ true
      → (c : Connection) × ((probe_loop probe true cs none).1 ≡ some c) × (probe c.uri ≡ true)
  unfolding probe_loop any_reachable candidate
  probe_loop_reachable [] h = absurd (false≢true h)
  probe_loop_reachable (c ∷ cs) h = elim (Bool-cases (probe c.uri)) [
    | inl e ↦ rw e (c, probe_loop_keeps probe true cs c, e)
    | inr e ↦ rw e (probe_loop_reachable cs (rw e at h))
  ]

  -- The connection that Discover returns responded.
  abbrev pub IsResponding : Discovered → Type 0
  IsResponding d =
      (c : Connection) × (d.base_url ≡ trim_slashes c.uri)
      × (probe c.uri ≡ true)
      × (is_empty d.access_token ≡ false)

  connect_ranked-IsResponding :
      (r : Resource) (cs : List Connection) (d : Discovered)
      → is_empty r.access_token ≡ false
      → connect_ranked probe true r cs ≡ ok d
      → any_reachable d.candidates ≡ true
      → IsResponding d
  unfolding connect_ranked
  connect_ranked-IsResponding r [] d t e h = absurd (err-ne-ok e)
  connect_ranked-IsResponding r (best ∷ others) d t e h =
      let same = sym (of_ok e) in
      let (c, chosen, responds) =
        probe_loop_reachable (best ∷ others)
          (sym (ap (λ (x : Discovered). any_reachable x.candidates) same) ∙ h) in
      (
        c,
        ap (λ (x : Discovered). x.base_url) same
            ∙ ap (λ (x : Option Connection). trim_slashes (or_else best x).uri) chosen,
        responds,
        ap (λ (x : Discovered). is_empty x.access_token) same ∙ t,
      )

  connect-IsResponding :
      (r : Resource) (d : Discovered)
      → connect probe true r ≡ ok d
      → any_reachable d.candidates ≡ true
      → IsResponding d
  unfolding connect
  connect-IsResponding r d e h = elim (Bool-cases (is_empty r.access_token)) [
    | inl p ↦ absurd (err-ne-ok (rw p at e))
    | inr p ↦ connect_ranked-IsResponding r (rank_connections r.connections) d p (rw p at e) h
  ]

  pub discover-IsResponding :
      (token server : Text) (fetched : Result (List Resource)) (d : Discovered)
      → discover probe true token server fetched ≡ ok d
      → any_reachable d.candidates ≡ true
      → IsResponding d
  unfolding discover
  discover-IsResponding token server fetched d e h =
      elim (Bool-cases (is_empty (trim_space token))) [
        | inl p ↦ absurd (err-ne-ok (rw p at e))
        | inr p ↦ elim (Bool-cases (is_empty (trim_space server))) [
          | inl q ↦ absurd (err-ne-ok (rw (p, q) at e))
          | inr q ↦ selected fetched (rw (p, q) at e)
        ]
      ]
    where
      selected :
          (f : Result (List Resource))
          → (elim f as (λ _. Result Discovered) [
            | err x ↦ err x
            | ok resources ↦ elim (select_server resources server) [
              | err x ↦ err x
              | ok r ↦ connect probe true r
            ]
          ])
            ≡ ok d
          → IsResponding d
      selected (err x) e = absurd (err-ne-ok e)
      selected (ok resources) e = elim (Result-cases (select_server resources server)) [
        | inr (x, u) ↦ absurd (err-ne-ok (rw u at e))
        | inl (r, u) ↦ connect-IsResponding r d (rw u at e) h
      ]
