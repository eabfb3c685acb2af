-- ===== src/Tests/Headers.antt =====
-- Header tables, header lines and blocks of header lines.
use http_web_server_c.Http.HeaderBlock.RoundTrip.{parse_http_headers-stringify}
use http_web_server_c.Http.Headers.{http_headers_stringify, key_is_like, insert_header, Header}
use http_web_server_c.CString.{Bytes, codes}
use http_web_server_c.Base.{◌≡◌, refl, true, some, [], ◌∷◌, ◌++◌, arith, ok, fault}
use http_web_server_c.Http.HeaderLine.Quoted.{
  parse_http_header-quoted_line, IsQuotable, quoted_line,
}
use http_web_server_c.Http.Headers.Laws.{insert_header-updates, value_of, inserted}
use http_web_server_c.Table.Laws.{find?, IsValid}
use http_web_server_c.Http.HeaderLine.Defects.{empty_value_faults}
use http_web_server_c.Http.HeaderLine.RoundTrip.{IsText, IsHeader}
use http_web_server_c.Table.{plenty, Table}
use http_web_server_c.CString.Search.{Lacks-lacks}
use http_web_server_c.Http.HeaderBlock.{parse_http_headers}
use http_web_server_c.Http.HeaderLine.{parse_http_header}
use http_web_server_c.Utility.{is_non_space}

abbrev pub host : Header
host = record { key = codes "Host"; value = codes "a.org" }

abbrev pub accept : Header
accept = record { key = codes "Accept"; value = codes "x y" }

pub host_name-IsText : IsText (codes "Host")
unfolding is_non_space
host_name-IsText = record {
  starts = refl;
  ends = refl;
  unquoted = refl;
  one_line = Lacks-lacks 13 (codes "Host") refl;
}

host_value-IsText : IsText (codes "a.org")
unfolding is_non_space
host_value-IsText = record {
  starts = refl;
  ends = refl;
  unquoted = refl;
  one_line = Lacks-lacks 13 (codes "a.org") refl;
}

accept_name-IsText : IsText (codes "Accept")
unfolding is_non_space
accept_name-IsText = record {
  starts = refl;
  ends = refl;
  unquoted = refl;
  one_line = Lacks-lacks 13 (codes "Accept") refl;
}

accept_value-IsText : IsText (codes "x y")
unfolding is_non_space
accept_value-IsText = record {
  starts = refl;
  ends = refl;
  unquoted = refl;
  one_line = Lacks-lacks 13 (codes "x y") refl;
}

pub host-IsHeader : IsHeader host
host-IsHeader = record {
  key_text = host_name-IsText;
  value_text = host_value-IsText;
  key_plain = Lacks-lacks b':' (codes "Host") refl;
}

pub accept-IsHeader : IsHeader accept
accept-IsHeader = record {
  key_text = accept_name-IsText;
  value_text = accept_value-IsText;
  key_plain = Lacks-lacks b':' (codes "Accept") refl;
}

abbrev pub hosts : Table Header
hosts = record { size = 1; capacity = 1; slots = 1; items = host ∷ [] }

pub hosts-IsValid : IsValid hosts
hosts-IsValid = record { counted = refl; fits = omega arith; room = refl; nonempty = omega arith }

insert_header-updates_example :
    (t' : Table Header) × (insert_header plenty hosts (codes "HOST") (codes "b") ≡ ok (t', true))
    × IsValid t'
    × (t'.items
        ≡ inserted hosts.items
            (codes "HOST")
            (codes "b")
            (find? (key_is_like (codes "HOST")) hosts.items))
    × (value_of (find? (key_is_like (codes "HOST")) t'.items) ≡ some (codes "b"))
insert_header-updates_example = insert_header-updates hosts (codes "HOST") (codes "b") hosts-IsValid

empty_value_faults_example :
    parse_http_header (codes "Host:" ++ 13 ∷ 10 ∷ codes "Accept: x") ≡ fault
empty_value_faults_example =
    empty_value_faults (codes "Host") (codes "Accept: x") host_name-IsText
      (Lacks-lacks b':' (codes "Host") refl)

-- A key with a colon, and a value with quotation marks and a space at its end.
abbrev colons : Header
colons = record { key = codes "a:b"; value = codes "x: \"y\" " }

colons-IsQuotable : IsQuotable colons
unfolding is_non_space
colons-IsQuotable = record {
  key_starts = refl;
  value_starts = refl;
  key_plain = Lacks-lacks b'"' (codes "a:b") refl;
  key_line = Lacks-lacks 13 (codes "a:b") refl;
  value_line = Lacks-lacks 13 (codes "x: \"y\" ") refl;
}

parse_http_header-quoted_line_example :
    parse_http_header (quoted_line (codes "a:b") (codes "x: \"y\" ") []) ≡ ok (some colons)
parse_http_header-quoted_line_example = parse_http_header-quoted_line colons [] colons-IsQuotable

parse_http_headers-stringify_example :
    (text : Bytes) × (http_headers_stringify hosts ≡ ok (some text))
    × ((u : Table Header) × (parse_http_headers text ≡ ok u) × IsValid u × (u.items ≡ host ∷ []))
parse_http_headers-stringify_example =
    parse_http_headers-stringify hosts hosts-IsValid (omega arith) (host-IsHeader, tt)
