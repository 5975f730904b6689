-- ===== src/Tests/Ports.antt =====
-- The search for a port on concrete texts; the ports from 7000 on are usable.
use pact_go.Common.{
  ◌<◌, ◌⊎◌, ℤ, pos, negsuc, some, ℕ, leb, bytes, Text, ok, Bool, true, false, [], ◌∷◌, ◌≡◌, ◌↔◌,
  refl, contains_byte, split, trim_space, arith,
}
use pact_go.Utils.{find_port_in_range, find_listed}
use pact_go.Utils.Listen.{Net, usable_on, check_port}
use pact_go.Utils.Decimal.{atoi, itoa, digits, in_int, atoi-itoa, max_int}
use pact_go.Utils.Range.{Searched, find_port_in_range-Searched}
use pact_go.Utils.Wrapping.{Ends, SomeUsable, search_between, next_int, search_between_ends_iff}

abbrev usable : ℕ → Bool
usable port = leb 7000 port

atoi-itoa_example : atoi (itoa 8080) ≡ ok 8080
atoi-itoa_example = atoi-itoa 8080 (omega arith)

parts_of : split (trim_space (bytes "6998-7002")) b'-' ≡ bytes "6998" ∷ bytes "7002" ∷ []
unfolding split trim_space bytes
parts_of = refl

lower_of : atoi (bytes "6998") ≡ ok 6998
unfolding atoi digits in_int bytes
lower_of = refl

upper_of : atoi (bytes "7002") ≡ ok 7002
unfolding atoi digits in_int bytes
upper_of = refl

dash_of : contains_byte (bytes "6998-7002") b'-' ≡ true
unfolding contains_byte bytes
dash_of = refl

find_port_in_range-Searched_example :
    Searched usable 6998 7002 (find_port_in_range usable (bytes "6998-7002"))
find_port_in_range-Searched_example =
    find_port_in_range-Searched usable (bytes "6998-7002") (bytes "6998") (bytes "7002") 6998 7002
      dash_of parts_of lower_of upper_of (omega arith) (omega arith)

-- An address is known by its port's text, and every one is free.
abbrev net : Net Text
net = record { resolve = λ address. ok address; listen = λ address. ok 7002 }

found : find_port_in_range (usable_on net) (bytes "6998,7002") ≡ ok 6998
unfolding find_port_in_range find_listed usable_on check_port atoi digits in_int bytes split
    trim_space contains_byte
found = refl

abbrev usable_int : ℤ → Bool
usable_int (pos port) = leb 7000 port
usable_int (negsuc n) = false

search_between_ends_iff_example :
    Ends usable_int (pos 6998) 7002 ↔ ((7002 < max_int) ⊎ SomeUsable usable_int)
search_between_ends_iff_example =
    search_between_ends_iff usable_int 6998 7002 (omega arith) (omega arith)

-- The index behind the largest int is the least one.
wrapped : next_int (pos max_int) ≡ negsuc max_int
unfolding next_int
wrapped = refl

searched : search_between usable_int 5 (pos 6998) 7002 ≡ some (ok (pos 7000))
unfolding search_between next_int
searched = refl
