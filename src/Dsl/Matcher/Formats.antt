-- ===== src/Dsl/Matcher/Formats.antt =====
-- dsl/matcher.go: the matchers of the common formats.
use pact_go.Common.{pos, Text, bytes}
use pact_go.Dsl.Matcher.{Matcher, like, term, int, float}

abbrev pub hexadecimal : Text
hexadecimal = bytes "[0-9a-fA-F]+"

abbrev pub ip_address_regex : Text
ip_address_regex = bytes "(\\d{1,3}\\.)+\\d{1,3}"

abbrev pub uuid_regex : Text
uuid_regex = bytes "[0-9a-f]{8}-[0-9a-f]{4}-[0-9a-f]{4}-[0-9a-f]{4}-[0-9a-f]{12}"

abbrev pub timestamp_regex : Text
timestamp_regex =
    bytes
      "^([\\+-]?\\d{4}(?!\\d{2}\\b))((-?)((0[1-9]|1[0-2])(\\3([12]\\d|0[1-9]|3[01]))?|W([0-4]\\d|5[0-2])(-?[1-7])?|(00[1-9]|0[1-9]\\d|[12]\\d{2}|3([0-5]\\d|6[1-6])))([T\\s]((([01]\\d|2[0-3])((:?)[0-5]\\d)?|24\\:?00)([\\.,]\\d+(?!:))?)?(\\17[0-5]\\d([\\.,]\\d+)?)?([zZ]|([\\+-])([01]\\d|2[0-3]):?([0-5]\\d)?)?)?)?$"

abbrev pub date_regex : Text
date_regex =
    bytes
      "^([\\+-]?\\d{4}(?!\\d{2}\\b))((-?)((0[1-9]|1[0-2])(\\3([12]\\d|0[1-9]|3[01]))?|W([0-4]\\d|5[0-2])(-?[1-7])?|(00[1-9]|0[1-9]\\d|[12]\\d{2}|3([0-5]\\d|6[1-6])))?)"

abbrev pub time_regex : Text
time_regex = bytes "^(T\\d\\d:\\d\\d(:\\d\\d)?(\\.\\d+)?(([+-]\\d\\d:\\d\\d)|Z)?)?$"

module _ {Float : Type 0} where
  abbrev pub hex_value : Matcher Float
  hex_value = term (bytes "3F") hexadecimal

  -- `Integer` is the same.
  abbrev pub identifier : Matcher Float
  identifier = like (int (pos 42))

  -- `IPv4Address` is the same.
  abbrev pub ip_address : Matcher Float
  ip_address = term (bytes "127.0.0.1") ip_address_regex

  abbrev pub ipv6_address : Matcher Float
  ipv6_address = term (bytes "::ffff:192.0.2.128") ip_address_regex

  -- The number is the `float64` 42.
  abbrev pub decimal : Float → Matcher Float
  decimal number = like (float number)

  abbrev pub uuid : Matcher Float
  uuid = term (bytes "fc763eba-0905-41c5-a27f-3934ab26786c") uuid_regex

  -- `format` is `Format` of the time of the examples, half past twelve on 1 February 2000.
  module _ (format : Text → Text) where
    abbrev pub timestamp : Matcher Float
    timestamp = term (format (bytes "2006-01-02T15:04:05Z07:00")) timestamp_regex

    abbrev pub date : Matcher Float
    date = term (format (bytes "2006-01-02")) date_regex

    abbrev pub time : Matcher Float
    time = term (format (bytes "T15:04:05")) time_regex
