-- ===== src/Tests/Examples.antt =====
-- The user service of examples/ and its front end, with the user of the sources.
use pact_go.Common.{
  ℕ, suc, pos, Text, bytes, text_eq, has_prefix, split, ok, err, returns, none, some, List, [], ◌≡◌,
  refl, ◌⊎◌, if◌then◌else◌, sym, ◌∙◌,
}
use pact_go.Http.{HttpRequest}
use pact_go.Examples.Users.{
  User, jmarie, user_repository, get_auth_token, by_username, find_username, by_id, find_id, int_eq,
}
use pact_go.Examples.Provider.{
  Library, ResponseWriter, HandlerFunc, serve, user_login, behind_body, behind_decode, behind_user,
  with_headers, set_header, drop_header, get_header, write_header, first_status, write,
  is_authenticated, get_user, write_user,
}
use pact_go.Examples.Consumer.{
  Client, Web, login_request, login_handler, login, received, decoded, has_error, user_of,
  logged_in, fetch_user, behind_request,
}
use pact_go.Examples.Mains.{mux_main}
use pact_go.Examples.Login.{IsAccount, IsServed, answered, no_response, login_handler-LogsIn}

abbrev today : Text
today = bytes "2024-02-29"

abbrev good_login : Text
good_login = login_request (bytes "jmarie") (bytes "issilly")

abbrev library : Library
library = record {
  read_all = λ r. ok r.body;
  unmarshal_login = λ text.
      if text_eq text good_login
      then ok (record { username = bytes "jmarie"; password = bytes "issilly" })
      else err (bytes "no login");
  marshal_login = λ r. r.user.username;
  marshal_user = λ u. u.username;
  atoi = λ text. pos 10;
}

abbrev not_found : HandlerFunc
not_found r w = write_header 404 w

abbrev request : Text → List (Text × Text) → Text → HttpRequest
request path header body = record {
  url = record {
    scheme = bytes "http";
    host = bytes "localhost:8080";
    path = path;
    raw_query = [];
  };
  host = bytes "localhost:8080";
  header = header;
  body = body;
}

abbrev serves : HttpRequest → ResponseWriter
serves r = serve library user_repository today not_found r no_response

-- The world counts the calls and the redirects.
abbrev web : Web ℕ
web = record {
  new_request = λ method url. none;
  do_request = λ method url header w.
      (suc w, some (answered (serves (request (bytes "/users/10") header []))), none);
  post = λ url content_type body w.
      (suc w, some (answered (serves (request (bytes "/login/10") [] body))), none);
  unmarshal_user = λ text. ok jmarie;
  unmarshal_login =
      λ text. if text_eq text (bytes "jmarie") then ok (record { user = jmarie }) else err text;
  redirect = λ url code w. suc w;
  execute_template = λ name u w. (w, none);
  http_error = λ text code w. w;
}

abbrev visitor : Client
visitor = record { user = none; host = bytes "http://localhost:8080"; err = none; token = [] }

decodes_login :
    library.unmarshal_login good_login
    ≡ ok (record { username = bytes "jmarie"; password = bytes "issilly" })
unfolding login_request text_eq bytes
decodes_login = refl

abbrev served : IsServed library user_repository web visitor (bytes "jmarie") (bytes "issilly") 0 1
served = record {
  today = today;
  otherwise = not_found;
  request = request (bytes "/login/10") [] good_login;
  sent = refl;
  read = refl;
  decodes = decodes_login;
  delivered = refl;
}

found_jmarie : by_username user_repository (bytes "jmarie") ≡ ok jmarie
unfolding by_username find_username text_eq bytes
found_jmarie = refl

reads_jmarie : web.unmarshal_login (bytes "jmarie") ≡ ok (record { user = jmarie })
unfolding text_eq bytes
reads_jmarie = refl

same_user : (u v : User) → ok u ≡ ok v → u ≡ v
same_user u v h = cc

reads_users :
    (user : User)
    → by_username user_repository (bytes "jmarie") ≡ ok user
    → web.unmarshal_login (library.marshal_login (record { user = user }))
      ≡ ok (record { user = user })
reads_users user h =
    let e : jmarie ≡ user = same_user jmarie user (sym found_jmarie ∙ h) in rw (← e) reads_jmarie

login_handler-LogsIn_example :
    ((user : User) × IsAccount user_repository (bytes "jmarie") (bytes "issilly") user
      × (login_handler web visitor (bytes "jmarie") (bytes "issilly") 0
          ≡ returns (record visitor { user = some user; err = none }, 2)))
    ⊎ (((user : User) → IsAccount user_repository (bytes "jmarie") (bytes "issilly") user → ⊥)
        × (login_handler web visitor (bytes "jmarie") (bytes "issilly") 0
            ≡ returns (record visitor { err = some (bytes "Invalid username/password") }, 2)))
login_handler-LogsIn_example =
    login_handler-LogsIn library user_repository web visitor (bytes "jmarie") (bytes "issilly") 0 1
      served reads_users

wrong_password :
    login_handler web visitor (bytes "jmarie") (bytes "issilly2") 0
    ≡ returns (record visitor { err = some (bytes "Invalid username/password") }, 2)
unfolding login_handler login received decoded has_error user_of logged_in login_request text_eq
    bytes serve user_login behind_body behind_decode behind_user with_headers set_header drop_header
    write_header first_status write has_prefix by_username find_username
wrong_password = refl

-- The front end does not keep the token of a login.
no_token :
    fetch_user web (record visitor { user = some jmarie }) (bytes "10") 0
    ≡ returns (1, err (bytes "get user failed"))
unfolding fetch_user behind_request received decoded has_error text_eq bytes serve is_authenticated
    get_header with_headers set_header drop_header write_header first_status write has_prefix
no_token = refl

with_token :
    fetch_user web (record visitor { token = bytes "Bearer 2024-02-29" }) (bytes "10") 0
    ≡ returns (1, ok jmarie)
unfolding fetch_user behind_request received decoded has_error text_eq bytes split serve
    is_authenticated get_user write_user get_header with_headers set_header drop_header write_header
    first_status write has_prefix by_id find_id int_eq
with_token = refl

-- The program of the service, on a day, answers the request for the user with the token of the day.
main_serves :
    mux_main library (λ network address. ok address) not_found
    ≡ returns
        (bytes ":8080", λ now r w. serve library user_repository (get_auth_token now) not_found r w)
unfolding mux_main
main_serves = refl
