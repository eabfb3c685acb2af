-- ===== src/Tests/Json.antt =====
-- String tokens and elements of JSON objects.
use http_web_server_c.Base.{◌≡◌, refl, some, ◌++◌, ok}
use http_web_server_c.Json.Escape.{escape, is_hex_digit, escape_char}
use http_web_server_c.Json.StringToken.{next_char, decode, scan_close, parse_string_token}
use http_web_server_c.CString.Search.{Lacks-lacks}
use http_web_server_c.Json.Element.{json_number, json_string, JsonElement}
use http_web_server_c.Json.Element.RoundTrip.{IsPlain, IsElement}
use http_web_server_c.Json.StringToken.RoundTrip.{parse_string_token-quoted, quoted}
use http_web_server_c.CString.{codes, Bytes}
use http_web_server_c.Json.Insertion.{element}
use http_web_server_c.Utility.{is_non_space}

-- A text with a quotation mark and a line feed.
abbrev say : Bytes
say = codes "a\"b\nc"

parse_string_token_unicode : parse_string_token (codes "\"\\u0041\"") ≡ ok (some (8, codes " "))
unfolding parse_string_token scan_close decode next_char is_hex_digit
parse_string_token_unicode = refl

parse_string_token-quoted_example :
    parse_string_token (quoted say ++ codes ", 1") ≡ ok (some (9, say))
unfolding escape escape_char
parse_string_token-quoted_example = parse_string_token-quoted say (codes ", 1") refl

abbrev pub name_element : JsonElement
name_element = element (codes "name") (codes "a,\"b") json_string

abbrev pub line_element : JsonElement
line_element = element (codes "line") (codes "42") json_number

pub name-IsElement : IsElement name_element
name-IsElement = record { key_closes = refl; value_valid = refl }

number-IsPlain : IsPlain (codes "42")
unfolding is_non_space
number-IsPlain = record {
  starts = refl;
  ends = refl;
  unquoted = refl;
  no_comma = Lacks-lacks b',' (codes "42") refl;
  no_brace = Lacks-lacks b'}' (codes "42") refl;
}

pub line-IsElement : IsElement line_element
line-IsElement = record { key_closes = refl; value_valid = number-IsPlain }
