-- ===== src/Examples/Provider.antt =====
-- examples/mux/provider: the user service, over `net/http`.
use pact_go.Common.{
  ℕ, ℤ, Text, bytes, text_eq, Result, ok, err, not, ◌||◌, Option, none, some, List, [], ◌∷◌, ◌++◌,
  if◌then◌else◌, split, has_prefix,
}
use pact_go.Http.{HttpRequest}
use pact_go.Install.{last}
use pact_go.Examples.Users.{User, LoginRequest, LoginResponse, UserRepository, by_username, by_id}

-- An `http.ResponseWriter`: the header, the status once it is written, and the body.
pub record ResponseWriter : Type 0 where
  pub header : List (Text × Text)
  pub status_code : Option ℕ
  pub body : Text

-- `r.Header.Get`
unfoldable pub get_header : Text → List (Text × Text) → Text
get_header key [] = []
get_header key ((k, v) ∷ header) =
    let rest = get_header key header in if text_eq k key then v else rest

unfoldable pub drop_header : Text → List (Text × Text) → List (Text × Text)
drop_header key [] = []
drop_header key ((k, v) ∷ header) =
    let rest = drop_header key header in if text_eq k key then rest else (k, v) ∷ rest

-- `w.Header().Set`, before the status is written.
unfoldable pub set_header : Text → Text → ResponseWriter → ResponseWriter
set_header key value w = record w { header = (key, value) ∷ drop_header key w.header }

-- The first call counts.
unfoldable pub first_status : Option ℕ → ℕ → ℕ
first_status none code = code
first_status (some first) code = first

unfoldable pub write_header : ℕ → ResponseWriter → ResponseWriter
write_header code w = record w { status_code = some (first_status w.status_code code) }

-- `w.Write`
unfoldable pub write : Text → ResponseWriter → ResponseWriter
write text w = let v = write_header 200 w in record v { body = v.body ++ text }

-- What the service calls of `io/ioutil`, `encoding/json` and `strconv`; `atoi` is the number that
-- `strconv.Atoi` gives, with an error or without. The result structs have a JSON text.
pub record Library : Type 0 where
  pub read_all : HttpRequest → Result Text
  pub unmarshal_login : Text → Result LoginRequest
  pub marshal_login : LoginResponse → Text
  pub marshal_user : User → Text
  pub atoi : Text → ℤ

abbrev pub HandlerFunc : Type 0
HandlerFunc = HttpRequest → ResponseWriter → ResponseWriter

-- Here and below `today` is the date when the request is answered, as `time.Now().Format` gives it.
unfoldable pub is_authenticated : Text → HandlerFunc → HandlerFunc
is_authenticated today h r w =
    if text_eq (get_header (bytes "Authorization") r.header) (bytes "Bearer " ++ today)
    then h r w
    else write_header 401
        (set_header (bytes "Content-Type") (bytes "application/json; charset=utf-8") w)

unfoldable pub with_headers : ResponseWriter → ResponseWriter
with_headers w =
    set_header (bytes "X-Api-Correlation-Id") (bytes "1234")
      (set_header (bytes "Content-Type") (bytes "application/json; charset=utf-8") w)

module _ (library : Library) (repository : UserRepository) where
  -- Behind the search for the user.
  unfoldable pub behind_user : Text → LoginRequest → Result User → ResponseWriter → ResponseWriter
  behind_user today login (err e) w = write_header 404 w
  behind_user today login (ok user) w =
      if not (text_eq user.username login.username) || not (text_eq user.password login.password)
      then write_header 401 w
      else write (library.marshal_login (record { user = user }))
          (write_header 200 (set_header (bytes "X-Auth-Token") today w))

  unfoldable pub behind_decode : Text → Result LoginRequest → ResponseWriter → ResponseWriter
  behind_decode today (err e) w = write_header 503 w
  behind_decode today (ok login) w =
      behind_user today login (by_username repository login.username) w

  unfoldable pub behind_body : Text → Result Text → ResponseWriter → ResponseWriter
  behind_body today (err e) w = write_header 503 w
  behind_body today (ok body) w = behind_decode today (library.unmarshal_login body) w

  -- `UserLogin`
  unfoldable pub user_login : Text → HandlerFunc
  user_login today r w = behind_body today (library.read_all r) (with_headers w)

  unfoldable pub write_user : Result User → ResponseWriter → ResponseWriter
  write_user (err e) w = write_header 404 w
  write_user (ok user) w = write (library.marshal_user user) (write_header 200 w)

  -- `GetUser`
  unfoldable pub get_user : HandlerFunc
  get_user r w =
      write_user (by_id repository (library.atoi (last (split r.url.path b'/')))) (with_headers w)

  -- The patterns of `main`, for a path that `http.ServeMux` leaves as it is; what it does with any other
  -- request is a parameter.
  unfoldable pub serve : Text → HandlerFunc → HandlerFunc
  serve today otherwise r w =
      if has_prefix r.url.path (bytes "/login/")
      then user_login today r w
      else if has_prefix r.url.path (bytes "/users/")
      then is_authenticated today get_user r w
      else otherwise r w
