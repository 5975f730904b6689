-- ===== src/Examples/Users.antt =====
-- examples/types: the users of the sample service and their repository.
use pact_go.Common.{
  ℤ, pos, negsuc, Text, bytes, text_eq, Error, Result, ok, err, Bool, false, ◌==◌, List, [], ◌∷◌,
  ◌++◌, if◌then◌else◌,
}

pub record User : Type 0 where
  pub name : Text
  pub username : Text
  pub password : Text
  pub user_type : Text
  pub id : ℤ

pub record LoginRequest : Type 0 where
  pub username : Text
  pub password : Text

pub record LoginResponse : Type 0 where
  pub user : User

abbrev pub err_not_found : Error
err_not_found = bytes "not found"

-- The entries of the map of a repository, of which no pointer is nil, in the order in which a loop goes
-- through them.
pub record UserRepository : Type 0 where
  pub users : List (Text × User)

unfoldable pub find_username : List (Text × User) → Text → Result User
find_username [] username = err err_not_found
find_username ((key, user) ∷ users) username =
    let rest = find_username users username in if text_eq key username then ok user else rest

-- `ByUsername`
unfoldable pub by_username : UserRepository → Text → Result User
by_username u username = find_username u.users username

-- `==` on ints
unfoldable pub int_eq : ℤ → ℤ → Bool
int_eq (pos m) (pos n) = m == n
int_eq (negsuc m) (negsuc n) = m == n
int_eq (pos m) (negsuc n) = false
int_eq (negsuc m) (pos n) = false

-- The loop of `ByID`.
unfoldable pub find_id : List (Text × User) → ℤ → Result User
find_id [] id = err err_not_found
find_id ((key, user) ∷ users) id =
    let rest = find_id users id in if int_eq user.id id then ok user else rest

-- `ByID`
unfoldable pub by_id : UserRepository → ℤ → Result User
by_id u id = find_id u.users id

-- The users of the two services. The name is in UTF-8.
abbrev pub jmarie : User
jmarie = record {
  name =
      bytes "Jean-Marie de La Beaujardi"
      ++ 195 ∷ 168 ∷ bytes "re"
      ++ 240 ∷ 159 ∷ 152 ∷ 128 ∷ 240 ∷ 159 ∷ 152 ∷ 141 ∷ [];
  username = bytes "jmarie";
  password = bytes "issilly";
  user_type = bytes "admin";
  id = pos 10;
}

abbrev pub user_repository : UserRepository
user_repository = record { users = (bytes "jmarie", jmarie) ∷ [] }

-- `getAuthToken` of both, where `now` is `Format` of the present time.
unfoldable pub get_auth_token : (Text → Text) → Text
get_auth_token now = now (bytes "2006-01-02")
