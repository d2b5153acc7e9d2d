-- ===== src/Client/Headers.antt =====
-- client_prepare_headers of src/gvar/geostreamd/client.c: the status line and the header lines go
-- into the client's buffer, by the two formats of the source. The text of a URI is the answer of
-- the uri library, an argument.
use qjhart_geostreams.Prelude.{
  ℕ, zero, suc, ◌+◌, ◌-◌, ◌*◌, ◌/◌, ◌%◌, ◌^◌, Bool, true, false, Option, none, some, List, [], ◌∷◌,
  ◌++◌, ltb, ◌==◌, if◌then◌else◌, codes,
}
use qjhart_geostreams.Buffer
use qjhart_geostreams.Buffer.{Buffer, Run, ok, fault, printf}
use qjhart_geostreams.Client.Reason.{reason}
use qjhart_geostreams.Client.Handlers.{Conn}

-- The digits of a number below `10 ^ rounds`, before those of `behind`.
unfoldable pub decimal_from : ℕ → ℕ → List ℕ → List ℕ
decimal_from zero n behind = behind
decimal_from (suc rounds) n behind =
    let more = decimal_from rounds (n / 10) ((48 + n % 10) ∷ behind) in
    if ltb n 10 then (48 + n) ∷ behind else more

-- What `%d` prints: the argument is read as an `int` of 32 bits, of at most ten digits.
unfoldable pub int_text : ℕ → List ℕ
unfolding decimal_from
int_text n =
    let m = n % 2 ^ 32 in
    if ltb m (2 ^ 31) then decimal_from 10 m [] else b'-' ∷ decimal_from 10 (2 ^ 32 - m) []

-- An argument of a format, for `%s` or for `%d`.
pub data Arg : Type 0 where
  text_arg : List ℕ → Arg
  int_arg : ℕ → Arg

abbrev arg_text : ℕ → Arg → List ℕ
arg_text letter (text_arg t) = if letter == b's' then t else []
arg_text letter (int_arg n) = if letter == b'd' then int_text n else []

-- What `vsnprintf` makes of a format: `percent` says that the last byte was a `%`. The letter behind
-- it is that of its argument, in the formats of the source; another one prints nothing here.
unfoldable pub expand : Bool → List ℕ → List Arg → List ℕ
expand percent [] args = []
expand true (x ∷ format) [] = expand false format []
expand true (x ∷ format) (a ∷ args) = arg_text x a ++ expand false format args
expand false (x ∷ format) args =
    let is_percent = x == b'%' in
    let rest = expand is_percent format args in if is_percent then rest else x ∷ rest

-- The time of the client, what `uri_uri` of the uri library answers to the request's URI as it is by
-- then, and the tests of buffer_printf on its scratch block.
pub record Printing : Type 0 where
  pub time_str : List ℕ
  pub uri_uri : List ℕ
  pub stale : Bool
  pub block : Bool

-- The two calls' formats with their arguments.
unfoldable pub status_text : Conn → List ℕ → List ℕ
unfolding expand
status_text c text =
    expand false (codes "HTTP/1.1 %d %s\r\n") (int_arg c.response ∷ text_arg text ∷ [])

unfoldable pub header_text : Printing → Conn → List ℕ
unfolding expand
header_text f c =
    expand false
      (codes
        "Server: geostreamd liburi/2.13\r\nDate: %s\r\nLocation: %s\r\nContent-Length: %d\r\nContent-Type: %s\r\nConnection: %s\r\n\r\n")
      (text_arg f.time_str
        ∷ text_arg f.uri_uri
        ∷ int_arg c.content_length
        ∷ text_arg (codes "text/html")
        ∷ text_arg (if c.keep_alive then codes "Keep-Alive" else codes "closed")
        ∷ [])

-- Behind the second buffer_printf, whose count is not looked at.
unfoldable pub headers_printed : Conn → Run (Option ℕ × Buffer) → Run Conn
headers_printed c fault = fault
headers_printed c (ok (n, b)) = ok (record c { buffer = b })

-- Behind the first buffer_printf.
unfoldable pub status_printed : Printing → Conn → Run (Option ℕ × Buffer) → Run Conn
status_printed f c fault = fault
status_printed f c (ok (n, b)) =
    headers_printed c (printf b (some (header_text f c)) f.stale f.block)

-- Behind the choice of the reason.
unfoldable pub with_reason : Printing → Conn → Option (List ℕ) → Run Conn
with_reason f c none = fault
with_reason f c (some text) =
    status_printed f c (printf (Buffer.reset c.buffer) (some (status_text c text)) f.stale f.block)

unfoldable pub client_prepare_headers : Printing → Conn → Run Conn
client_prepare_headers f c = with_reason f c (reason c.response)

-- The number that decimal digits stand for, behind those of `n`.
abbrev pub number : ℕ → List ℕ → ℕ
number n [] = n
number n (d ∷ ds) = number (10 * n + (d - 48)) ds

abbrev ten_to : ℕ → ℕ
ten_to zero = 1
ten_to (suc rounds) = 10 * ten_to rounds

-- A response, line by line, each ended by a carriage return and a line feed.
abbrev pub crlf : List ℕ → List ℕ
crlf behind = 13 ∷ 10 ∷ behind

abbrev pub header_line : List ℕ → List ℕ → List ℕ → List ℕ
header_line name value behind = name ++ b':' ∷ b' ' ∷ (value ++ crlf behind)

abbrev pub response_lines :
    (digits text time uri length_digits : List ℕ) (keep_alive : Bool) → List ℕ
response_lines digits text time uri length_digits keep_alive =
    codes "HTTP/1.1 "
    ++ (digits
        ++ b' '
          ∷ (text
              ++ crlf (
                  header_line (codes "Server") (codes "geostreamd liburi/2.13") (
                    header_line (codes "Date") time (
                      header_line (codes "Location") uri (
                        header_line (codes "Content-Length") length_digits (
                          header_line (codes "Content-Type") (codes "text/html") (
                            header_line (codes "Connection")
                              (if keep_alive then codes "Keep-Alive" else codes "closed")
                              (crlf [])))))))))
