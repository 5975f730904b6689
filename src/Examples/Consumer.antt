-- ===== src/Examples/Consumer.antt =====
-- examples/consumer/goconsumer/client.go: the web front end of the user service.
use pact_go.Common.{
  ℕ, Text, bytes, Error, Result, ok, err, Outcome, returns, panics, ◌>>=◌, Bool, true, false, not,
  ◌==◌, ◌||◌, Option, none, some, List, [], ◌∷◌, ◌++◌, if◌then◌else◌,
}
use pact_go.Examples.Users.{User, LoginResponse}

pub record Client : Type 0 where
  pub user : Option User
  pub host : Text
  pub err : Option Error
  pub token : Text

pub record TemplateData : Type 0 where
  pub user : Option User
  pub error : Option Error

pub record Response : Type 0 where
  pub status_code : ℕ
  pub body : Result Text

-- What the client calls of `net/http`, `encoding/json` and `html/template`. A response may come with an
-- error, and there may be none.
pub record Web (W : Type 0) : Type 0 where
  pub new_request : Text → Text → Option Error
  pub do_request : Text → Text → List (Text × Text) → W → W × Option Response × Option Error
  pub post : Text → Text → Text → W → W × Option Response × Option Error
  pub unmarshal_user : Text → Result User
  pub unmarshal_login : Text → Result LoginResponse
  pub redirect : Text → ℕ → W → W
  pub execute_template : Text → TemplateData → W → W × Option Error
  pub http_error : Text → ℕ → W → W

unfoldable pub has_error : Option Error → Bool
has_error none = false
has_error (some e) = true

unfoldable pub decoded : {A : Type 0} → (Text → Result A) → Result Text → Result A
decoded decode (err e) = err e
decoded decode (ok text) = decode text

-- Behind the call: with no response, the test on its status panics.
unfoldable pub received :
    {W A : Type 0}
    → Text
    → (Text → Result A)
    → W × Option Response × Option Error
    → Outcome (W × Result A)
received failed decode (w, none, e) = panics
received failed decode (w, some res, e) =
    returns (
      w,
      if not (res.status_code == 200) || has_error e then err failed else decoded decode res.body,
    )

unfoldable pub login_request : Text → Text → Text
login_request username password =
    bytes "\n    {\n      \"username\":\""
    ++ username
    ++ bytes "\",\n      \"password\": \""
    ++ password
    ++ bytes "\"\n    }"

unfoldable pub user_of : Result LoginResponse → Result User
user_of (err e) = err e
user_of (ok response) = ok response.user

-- The branches of `loginHandler`.
unfoldable pub logged_in : Client → Result User → Client
logged_in c (ok user) = record c { user = some user; err = none }
logged_in c (err e) = record c { err = some (bytes "Invalid username/password") }

module _ {W : Type 0} (web : Web W) where
  -- `getUser`; a request that is not made is nil, and the setting of its header panics.
  unfoldable pub behind_request : Client → Text → Option Error → W → Outcome (W × Result User)
  behind_request c url (some e) w = panics
  behind_request c url none w = received (bytes "get user failed") web.unmarshal_user (
      web.do_request (bytes "GET") url
        ((bytes "Content-Type", bytes "application/json") ∷ (bytes "Authorization", c.token) ∷ [])
        w)

  unfoldable pub fetch_user : Client → Text → W → Outcome (W × Result User)
  fetch_user c id w =
      let url = c.host ++ bytes "/users/" ++ id in
      behind_request c url (web.new_request (bytes "GET") url) w

  unfoldable pub login : Client → Text → Text → W → Outcome (W × Result User)
  login c username password w =
      received (bytes "login failed") web.unmarshal_login (
        web.post (c.host ++ bytes "/login/10?foo=anything")
          (bytes "application/json; charset=utf-8") (login_request username password) w)
      >>= λ (w', response). returns (w', user_of response)

  -- `loginHandler`, with the two values of the form.
  unfoldable pub login_handler : Client → Text → Text → W → Outcome (Client × W)
  login_handler c username password w = login c username password w >>= λ (w', user).
      returns (logged_in c user, web.redirect (bytes "/") 302 w')

  unfoldable pub logout_handler : Client → W → Client × W
  logout_handler c w = (record c { user = none; err = none }, web.redirect (bytes "/") 302 w)

  unfoldable pub rendered : W × Option Error → W
  rendered (w, none) = w
  rendered (w, some e) = web.http_error e 500 w

  unfoldable pub render_template : Text → TemplateData → W → W
  render_template tmpl u w = rendered (web.execute_template (tmpl ++ bytes ".html") u w)

  unfoldable pub view_handler : Client → W → W
  view_handler c = render_template (bytes "login") (record { user = c.user; error = c.err })
