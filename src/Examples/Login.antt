-- ===== src/Examples/Login.antt =====
-- The login of the front end of examples/consumer/goconsumer at the service of examples/mux/provider.
use pact_go.Common.{
  ℕ, Text, bytes, has_prefix, text_eq, text_eq_iff, Result, ok, err, returns, Bool-cases, true,
  false, ◌==◌, none, some, [], ◌++◌, ◌≡◌, refl, ap, ◌∙◌, ◌⊎◌, inl, inr,
}
use pact_go.Http.{HttpRequest}
use pact_go.Examples.Users.{User, LoginRequest, UserRepository, by_username}
use pact_go.Examples.Provider.{
  ResponseWriter, Library, HandlerFunc, serve, user_login, behind_body, behind_decode, behind_user,
  with_headers, set_header, write_header, first_status, write,
}
use pact_go.Examples.Consumer.{
  Client, Response, Web, received, has_error, decoded, login_request, user_of, logged_in, login,
  login_handler,
}

-- The user stands in the repository under the username, has it, and has the password.
pub record IsAccount (repository : UserRepository) (username password : Text) (user : User)
    : Type 0 where
  pub found : by_username repository username ≡ ok user
  pub named : user.username ≡ username
  pub allowed : user.password ≡ password

abbrev pub no_response : ResponseWriter
no_response = record { header = []; status_code = none; body = [] }

-- What a client has of a response: a handler that writes no status gives 200.
abbrev pub answered : ResponseWriter → Response
answered w = record { status_code = first_status w.status_code 200; body = ok w.body }

module _ (library : Library) (repository : UserRepository) where
  -- What the service does with a login behind the search for its user: it refuses it, or writes the user.
  behind_user-cases :
      (today : Text) (request : LoginRequest) (found : Result User)
      → by_username repository request.username ≡ found
      → ((user : User) × IsAccount repository request.username request.password user
          × (answered
                (behind_user library repository today request found (with_headers no_response))
              ≡ record {
                status_code = 200;
                body = ok (library.marshal_login (record { user = user }));
              }))
        ⊎ (((user : User) → IsAccount repository request.username request.password user → ⊥)
            × ((code : ℕ) × ((code == 200) ≡ false)
                × (answered (
                      behind_user library repository today request found (with_headers no_response))
                    ≡ record { status_code = code; body = ok [] })))
  unfolding behind_user with_headers set_header write_header first_status write
  behind_user-cases today request (err e) found =
      inr (λ user a. absurd (cc (found, a.found)), (404, refl, refl))
  behind_user-cases today request (ok user) found =
      elim (Bool-cases (text_eq user.username request.username)) [
        | inl named ↦ elim (Bool-cases (text_eq user.password request.password)) [
          | inl allowed ↦
              rw (named, allowed)
                (inl (
                  user,
                  record {
                    found = found;
                    named = (text_eq_iff user.username request.username).0 named;
                    allowed = (text_eq_iff user.password request.password).0 allowed;
                  },
                  refl,
                ))
          | inr other ↦
              rw (named, other)
                (inr (
                  λ u a. absurd (
                      cc (
                        found,
                        a.found,
                        other,
                        (text_eq_iff u.password request.password).1 a.allowed,
                      )),
                  (401, refl, refl),
                ))
        ]
        | inr other ↦ rw other (
            inr (
              λ u a.
                  absurd (
                    cc
                      (found, a.found, other, (text_eq_iff u.username request.username).1 a.named)),
              (401, refl, refl),
            ))
      ]

  -- What a login of the front end needs of the world: the service gets its request, which can be read and
  -- decoded, and its answer comes back. The rest of the web is open.
  pub record IsServed {W : Type 0} (web : Web W) (c : Client) (username password : Text) (w w' : W)
      : Type 0 where
    pub today : Text
    pub otherwise : HandlerFunc
    pub request : HttpRequest
    pub sent : request.url.path ≡ bytes "/login/10"
    pub read : library.read_all request ≡ ok (login_request username password)
    pub decodes :
        library.unmarshal_login (login_request username password)
        ≡ ok (record { username = username; password = password })
    pub delivered :
        web.post
          (c.host ++ bytes "/login/10?foo=anything")
          (bytes "application/json; charset=utf-8")
          (login_request username password)
          w
        ≡ (w', some (answered (serve library repository today otherwise request no_response)), none)

  serve-login :
      (today : Text) (otherwise : HandlerFunc) (r : HttpRequest) (w : ResponseWriter)
      → has_prefix r.url.path (bytes "/login/") ≡ true
      → serve library repository today otherwise r w ≡ user_login library repository today r w
  unfolding serve
  serve-login today otherwise r w h = rw h refl

  answered_login :
      (today username password text : Text) (r : HttpRequest)
      → library.read_all r ≡ ok text
      → library.unmarshal_login text ≡ ok (record { username = username; password = password })
      → user_login library repository today r no_response
        ≡ behind_user library repository today
            (record { username = username; password = password })
            (by_username repository username)
            (with_headers no_response)
  unfolding user_login behind_body behind_decode
  answered_login today username password text r read decodes = rw (read, decodes) refl

  login_path : has_prefix (bytes "/login/10") (bytes "/login/") ≡ true
  unfolding has_prefix bytes
  login_path = refl

  -- The response that the front end has for its login.
  login-delivered :
      {W : Type 0} (web : Web W) (c : Client) (username password : Text) (w w' : W) (res : Response)
      (s : IsServed web c username password w w')
      → answered (
          behind_user library repository s.today
            (record { username = username; password = password })
            (by_username repository username)
            (with_headers no_response))
        ≡ res
      → web.post
          (c.host ++ bytes "/login/10?foo=anything")
          (bytes "application/json; charset=utf-8")
          (login_request username password)
          w
        ≡ (w', some res, none)
  login-delivered web c username password w w' res s answer =
      let path = ap (λ p. has_prefix p (bytes "/login/")) s.sent ∙ login_path in
      let behind =
        serve-login s.today s.otherwise s.request no_response path
        ∙ answered_login s.today username password (login_request username password) s.request
            s.read s.decodes in
      s.delivered
      ∙ ap (λ (v : ResponseWriter). (w', some (answered v), none)) behind
      ∙ ap (λ v. (w', some v, none)) answer

  -- A login that reaches the service logs the user of the name in exactly if there is one and the password
  -- is that user's; otherwise it is an error, and who was logged in before still is.
  pub login_handler-LogsIn :
      {W : Type 0} (web : Web W) (c : Client) (username password : Text) (w w' : W)
      → IsServed web c username password w w'
      → ((user : User)
          → by_username repository username ≡ ok user
          → web.unmarshal_login (library.marshal_login (record { user = user }))
            ≡ ok (record { user = user }))
      → ((user : User) × IsAccount repository username password user
          × (login_handler web c username password w
              ≡ returns
                  (record c { user = some user; err = none }, web.redirect (bytes "/") 302 w')))
        ⊎ (((user : User) → IsAccount repository username password user → ⊥)
            × (login_handler web c username password w
                ≡ returns (
                  record c { err = some (bytes "Invalid username/password") },
                  web.redirect (bytes "/") 302 w',
                )))
  unfolding login_handler login received decoded has_error user_of logged_in
  login_handler-LogsIn web c username password w w' s back =
      elim (behind_user-cases s.today (record { username = username; password = password })
        (by_username repository username) refl) [
          | inl (user, account, welcome) ↦
              let got = login-delivered web c username password w w' _ s welcome in
              inl (user, account, rw (got, back user account.found) refl)
          | inr (none_is, (code, bad, refusal)) ↦
              let got = login-delivered web c username password w w' _ s refusal in
              inr (none_is, rw (got, bad) refl)
        ]
