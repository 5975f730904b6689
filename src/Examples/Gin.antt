-- ===== src/Examples/Gin.antt =====
-- examples/gin/provider: the user service over gin.
use pact_go.Common.{ℕ, ℤ, Text, bytes, text_eq, Result, ok, err, not, ◌||◌, ◌++◌, if◌then◌else◌}
use pact_go.Examples.Users.{User, LoginResponse, UserRepository, by_username, by_id}

pub record Login : Type 0 where
  pub user : Text
  pub password : Text

-- What a handler gives to `c.JSON`.
pub data Payload : Type 0 where
  status : Text → Payload
  login_response : LoginResponse → Payload
  user_payload : User → Payload

-- What the service calls of gin, on a context `C`, and `strconv.Atoi`, with an error or without.
pub record Gin (C : Type 0) : Type 0 where
  pub get_header : Text → C → Text
  pub param : Text → C → Text
  pub header : Text → Text → C → C
  pub json : ℕ → Payload → C → C
  pub bind_json : C → C × Result Login
  pub next : C → C
  pub atoi : Text → ℤ

-- Here and below `today` is the date, as `time.Now().Format` gives it.
module _ {C : Type 0} (gin : Gin C) (repository : UserRepository) (today : Text) where
  unfoldable pub is_authenticated : C → C
  is_authenticated c =
      if text_eq (gin.get_header (bytes "Authorization") c) (bytes "Bearer " ++ today)
      then gin.next c
      else gin.json 401 (status (bytes "unauthorized")) c

  unfoldable pub login_found : Login → Result User → C → C
  login_found login (err e) c = gin.json 404 (status (bytes "file not found")) c
  login_found login (ok user) c =
      if not (text_eq user.username login.user) || not (text_eq user.password login.password)
      then gin.json 401 (status (bytes "unauthorized")) c
      else gin.json 200 (login_response (record { user = user }))
          (gin.header (bytes "X-Auth-Token") today c)

  unfoldable pub login_bound : C × Result Login → C
  login_bound (c, err e) = c
  login_bound (c, ok login) = login_found login (by_username repository login.user) c

  -- `UserLogin`
  unfoldable pub user_login : C → C
  user_login c =
      login_bound (gin.bind_json (gin.header (bytes "X-Api-Correlation-Id") (bytes "1234") c))

  unfoldable pub user_found : Result User → C → C
  user_found (err e) c = gin.json 404 (status (bytes "file not found")) c
  user_found (ok user) c = gin.json 200 (user_payload user) c

  -- `GetUser`
  unfoldable pub get_user : C → C
  get_user c =
      let c' = gin.header (bytes "X-Api-Correlation-Id") (bytes "1234") c in
      user_found (by_id repository (gin.atoi (gin.param (bytes "id") c'))) c'
