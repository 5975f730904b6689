-- ===== src/Examples/Mains.antt =====
-- examples/consumer/goconsumer/client.go `Run` and the programs under cmd/ of examples/consumer,
-- examples/gin and examples/mux: which handler answers a request.
use pact_go.Common.{
  Text, bytes, text_eq, Outcome, returns, panics, Result, ok, err, ◌&&◌, none, List, [], ◌∷◌,
  if◌then◌else◌, ◌≡◌, refl,
}
use pact_go.Examples.Users.{UserRepository, user_repository, get_auth_token}
use pact_go.Examples.Provider.{Library, HandlerFunc, serve}
use pact_go.Examples.Consumer.{Client, Web, login_handler, logout_handler, view_handler}
use pact_go.Examples.Gin.{Gin, user_login, get_user, is_authenticated}

-- The client of the front end's `main`.
unfoldable pub front_end : Client
front_end = record { user = none; host = bytes "http://localhost:8080"; err = none; token = [] }

-- The patterns of `Run`, for a path that `http.ServeMux` leaves as it is, and the two values of the
-- form that comes with the request.
unfoldable pub run : {W : Type 0} → Web W → Text → Text → Text → Client → W → Outcome (Client × W)
run web path username password c w =
    if text_eq path (bytes "/login")
    then login_handler web c username password w
    else if text_eq path (bytes "/logout")
    then returns (logout_handler web c w)
    else returns (c, view_handler web c w)

-- The chain of handlers that the `main` of gin registers for a method and a pattern, if it does.
unfoldable pub gin_routes :
    {C : Type 0} → Gin C → UserRepository → Text → Text → Text → List (C → C)
gin_routes gin repository today method pattern =
    if text_eq method (bytes "POST") && text_eq pattern (bytes "/login/:id")
    then user_login gin repository today ∷ []
    else if text_eq method (bytes "POST") && text_eq pattern (bytes "/users/:id")
    then is_authenticated gin repository today ∷ get_user gin repository today ∷ []
    else []

-- The front end asks for a user by GET, which this service does not answer.
gin_routes_get :
    {C : Type 0} (gin : Gin C) (repository : UserRepository) (today : Text)
    → gin_routes gin repository today (bytes "GET") (bytes "/users/:id") ≡ []
unfolding gin_routes text_eq bytes
gin_routes_get gin repository today = refl

-- The `main` of mux: it ends if its port cannot be listened on, and else serves on it, each request
-- with the token of its time.
unfoldable pub mux_main :
    {Listener : Type 0}
    → Library
    → (Text → Text → Result Listener)
    → HandlerFunc
    → Outcome (Listener × ((Text → Text) → HandlerFunc))
mux_main library listen otherwise = elim (listen (bytes "tcp") (bytes ":8080")) [
  | err e ↦ panics
  | ok ln ↦ returns (ln, λ now. serve library user_repository (get_auth_token now) otherwise)
]
