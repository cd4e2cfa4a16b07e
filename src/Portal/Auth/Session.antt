-- ===== src/Portal/Auth/Session.antt =====
-- Which requests internal/server/portal.go serves, before and after a login.
use mathlib.Core.Bool.{false≢true}
use mathlib.Core.Path.{subst}
use plex_mirror.Base.{
  ◌≡◌, refl, sym, ap, ◌∙◌, ◌↔◌, ◌⊎◌, inl, inr, Bool, true, false, Option, none, some, [], ◌∷◌, ◌++◌,
  All, keep, Text, text_eq, text_eq_iff, is_empty, has_prefix, trim_prefix, drop_length, of_some,
  ==_iff, ◌==◌, Bool-cases, if◌then◌else◌,
}
use plex_mirror.Portal.Auth.{
  Request, served, unauthorized, see_login, incorrect_token, bearer_prefix, bears, require_auth,
  holds, authed, portal_auth, is_cookie_byte, cookie_value, login_post, logout,
}

has_prefix-append : (p s : Text) → has_prefix p (p ++ s) ≡ true
unfolding has_prefix
has_prefix-append [] s = refl
has_prefix-append (c ∷ cs) s = rw ((==_iff c c).1 refl) (has_prefix-append cs s)

drop_length-append : (p s : Text) → drop_length p (p ++ s) ≡ s
drop_length-append [] s = refl
drop_length-append (c ∷ cs) s = drop_length-append cs s

has_prefix_split : (p h : Text) → has_prefix p h ≡ true → h ≡ p ++ drop_length p h
unfolding has_prefix
has_prefix_split [] h e = refl
has_prefix_split (c ∷ cs) [] e = absurd (false≢true e)
has_prefix_split (c ∷ cs) (d ∷ ds) e = elim (Bool-cases (c == d)) [
  | inl k ↦
      rw (sym ((==_iff c d).0 k)) (ap (λ (t : Text). c ∷ t) (has_prefix_split cs ds (rw k at e)))
  | inr k ↦ absurd (false≢true (rw k at e))
]

not_served : ¬ (see_login ≡ served)
not_served e = cc

not_authorized : ¬ (unauthorized ≡ served)
not_authorized e = cc

module _ (token : Text) where
  bears_iff : (h : Text) → (bears token h ≡ true) ↔ (h ≡ bearer_prefix ++ token)
  unfolding bears trim_prefix
  bears_iff h = (read, written)
    where
      read : bears token h ≡ true → h ≡ bearer_prefix ++ token
      read e = elim (Bool-cases (has_prefix bearer_prefix h)) [
        | inr p ↦ absurd (false≢true (rw p at e))
        | inl p ↦
            has_prefix_split bearer_prefix h p
            ∙ ap (λ (t : Text). bearer_prefix ++ t)
                ((text_eq_iff (drop_length bearer_prefix h) token).0 (rw p at e))
      ]

      written : h ≡ bearer_prefix ++ token → bears token h ≡ true
      written e = rw (e, has_prefix-append bearer_prefix token) ((text_eq_iff token token).1 refl)

  holds_iff : (cookie : Option Text) → (holds token cookie ≡ true) ↔ (cookie ≡ some token)
  holds_iff none = (λ e. absurd (false≢true e), λ e. cc)
  holds_iff (some v) =
      (λ e. ap some ((text_eq_iff v token).0 e), λ e. (text_eq_iff v token).1 (of_some e))

  -- The request carries the token, in its cookie or in its header.
  abbrev pub HasToken : Request → Type 0
  HasToken r = (r.cookie ≡ some token) ⊎ (r.authorization ≡ bearer_prefix ++ token)

  module _ (set : is_empty token ≡ false) where
    authed_iff : (r : Request) → (authed token r ≡ true) ↔ HasToken r
    unfolding authed
    authed_iff r = elim (Bool-cases (holds token r.cookie)) [
      | inl h ↦ rw (set, h) ((λ e. inl ((holds_iff r.cookie).0 h)), λ k. refl)
      | inr h ↦ elim (Bool-cases (bears token r.authorization)) [
        | inl b ↦ rw (set, h, b) ((λ e. inr ((bears_iff r.authorization).0 b)), λ k. refl)
        | inr b ↦
            rw (set, h, b)
              (
                (λ e. absurd (false≢true e)),
                λ k. elim k [
                  | inl c ↦ sym h ∙ (holds_iff r.cookie).1 c
                  | inr c ↦ sym b ∙ (bears_iff r.authorization).1 c
                ],
              )
      ]
    ]

    portal_iff : (r : Request) → (portal_auth token r ≡ served) ↔ HasToken r
    unfolding portal_auth
    portal_iff r = elim (Bool-cases (authed token r)) [
      | inl a ↦ rw a ((λ e. (authed_iff r).0 a), λ k. refl)
      | inr a ↦
          rw a ((λ e. absurd (not_served e)), λ k. absurd (false≢true (sym a ∙ (authed_iff r).1 k)))
    ]

    mcp_iff :
        (r : Request) → (require_auth token r ≡ served) ↔ (r.authorization ≡ bearer_prefix ++ token)
    unfolding require_auth
    mcp_iff r = elim (Bool-cases (bears token r.authorization)) [
      | inl b ↦ rw (set, b) ((λ e. (bears_iff r.authorization).0 b), λ k. refl)
      | inr b ↦
          rw (set, b)
            (
              (λ e. absurd (not_authorized e)),
              λ k. absurd (false≢true (sym b ∙ (bears_iff r.authorization).1 k)),
            )
    ]

    -- The cookie that a browser holds once it has posted a token.
    login_cookie :
        (posted : Text) (cookie : Option Text)
        → (login_post token posted cookie).1
          ≡ (if text_eq posted token then some (cookie_value token) else cookie)
    unfolding login_post
    login_cookie posted cookie = elim (Bool-cases (text_eq posted token)) [
      | inl e ↦ rw (set, e) refl
      | inr e ↦ rw (set, e) refl
    ]

keep-All : (s : Text) → All (λ c. is_cookie_byte c ≡ true) s → keep is_cookie_byte s ≡ s
unfolding keep
keep-All [] h = refl
keep-All (c ∷ cs) h = rw h.0 (ap (λ (t : Text). c ∷ t) (keep-All cs h.1))

kept_bytes : (s : Text) → All (λ c. is_cookie_byte c ≡ true) (keep is_cookie_byte s)
unfolding keep
kept_bytes [] = tt
kept_bytes (c ∷ cs) = elim (Bool-cases (is_cookie_byte c)) [
  | inl e ↦ rw e (e, kept_bytes cs)
  | inr e ↦ rw e (kept_bytes cs)
]

cookie_value_iff :
    (token : Text) → (cookie_value token ≡ token) ↔ All (λ c. is_cookie_byte c ≡ true) token
unfolding cookie_value
cookie_value_iff token =
    ((λ e. subst (All (λ c. is_cookie_byte c ≡ true)) e (kept_bytes token)), keep-All token)

abbrev pub without_header : Option Text → Request
without_header cookie = record { cookie = cookie; authorization = [] }

no_cookie : {token : Text} → ¬ (none ≡ some token)
no_cookie e = cc

no_header : (token : Text) → ¬ ([] ≡ bearer_prefix ++ token)
no_header token e = cc

logged_in :
    (token : Text) (cookie : Option Text)
    → is_empty token ≡ false
    → (portal_auth token (without_header (login_post token token cookie).1) ≡ served)
      ↔ All (λ c. is_cookie_byte c ≡ true) token
logged_in token cookie set =
    let held : (login_post token token cookie).1 ≡ some (cookie_value token) =
      login_cookie token set token cookie
      ∙ ap (λ (b : Bool). if b then some (cookie_value token) else cookie)
          ((text_eq_iff token token).1 refl) in
    (
      (λ e. elim ((portal_iff token set (without_header (login_post token token cookie).1)).0 e) [
        | inl c ↦ (cookie_value_iff token).0 (of_some (sym held ∙ c))
        | inr c ↦ absurd (no_header token c)
      ]),
      (λ h.
          (portal_iff token set (without_header (login_post token token cookie).1)).1
            (inl (held ∙ ap some ((cookie_value_iff token).1 h)))),
    )

refused :
    (token posted : Text) (cookie : Option Text)
    → is_empty token ≡ false
    → ¬ (posted ≡ token)
    → login_post token posted cookie ≡ (incorrect_token, cookie)
unfolding login_post
refused token posted cookie set other = elim (Bool-cases (text_eq posted token)) [
  | inl e ↦ absurd (other ((text_eq_iff posted token).0 e))
  | inr e ↦ rw (set, e) refl
]

-- Where a token is configured: the portal serves exactly the requests with the token in the cookie or
-- in the header, and /mcp exactly those with it in the header. A wrong token is refused and leaves
-- the browser as it was. After a login with the right token the browser is served exactly where the
-- token has only characters that a cookie keeps, so that with any other token each login leads back
-- to the login page; and after a logout it is not served.
pub session_serves :
    (token posted : Text) (r : Request)
    → is_empty token ≡ false
    → ((portal_auth token r ≡ served) ↔ HasToken token r)
      × ((require_auth token r ≡ served) ↔ (r.authorization ≡ bearer_prefix ++ token))
      × (¬ (posted ≡ token) → login_post token posted r.cookie ≡ (incorrect_token, r.cookie))
      × ((portal_auth token (without_header (login_post token token r.cookie).1) ≡ served)
          ↔ All (λ c. is_cookie_byte c ≡ true) token)
      × ¬ (portal_auth token (without_header (logout r.cookie).1) ≡ served)
session_serves token posted r set = (
  portal_iff token set r,
  mcp_iff token set r,
  refused token posted r.cookie set,
  logged_in token r.cookie set,
  λ e. elim ((portal_iff token set (without_header none)).0 e) [
    | inl c ↦ no_cookie c
    | inr c ↦ no_header token c
  ],
)
