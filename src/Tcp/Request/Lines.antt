-- ===== src/Tcp/Request/Lines.antt =====
-- The request of send_handshake (src/zerobus/bridge_tcp_client.cpp) as a first line and fields.
use zerobus.Prelude.{arith, ◌≡◌, refl, sym, ap, ◌∙◌, List, [], ◌∷◌, ◌++◌, append_assoc, All}
use zerobus.Wire.Uint.{Bytes}
use zerobus.Http.{split, trim, crlf}
use zerobus.Http.Header.{Without, Without-append, Field, write_lines}
use zerobus.Http.EmptyLine.{empty_line, split_header}
use zerobus.Tcp.Handshake.Accepted.{
  Visible, Visible-Without, trim-Visible, others-Without, line_ok, upgrade_key, upgrade_value,
  connection_key,
}
use zerobus.Tcp.Request.{text_get, text_host, text_key, request}

-- " HTTP/1.1"
abbrev pub protocol : Bytes
protocol = 32 ∷ 72 ∷ 84 ∷ 84 ∷ 80 ∷ 47 ∷ 49 ∷ 46 ∷ 49 ∷ []

abbrev pub request_line : Bytes → Bytes
request_line path = text_get ++ (path ++ protocol)

-- "Host"
abbrev host_key : Bytes
host_key = 72 ∷ 111 ∷ 115 ∷ 116 ∷ []

-- "Sec-WebSocket-Key"
abbrev ws_key : Bytes
ws_key =
    83 ∷ 101 ∷ 99 ∷ 45 ∷ 87 ∷ 101 ∷ 98 ∷ 83 ∷ 111 ∷ 99 ∷ 107 ∷ 101 ∷ 116 ∷ 45 ∷ 75 ∷ 101 ∷ 121 ∷ []

-- "Sec-WebSocket-Version"
abbrev version_key : Bytes
version_key =
    83 ∷ 101 ∷ 99 ∷ 45 ∷ 87 ∷ 101 ∷ 98 ∷ 83 ∷ 111 ∷ 99 ∷ 107 ∷ 101 ∷ 116 ∷ 45 ∷ 86 ∷ 101 ∷ 114 ∷ 115
    ∷ 105 ∷ 111 ∷ 110 ∷ []

abbrev thirteen : Bytes
thirteen = 49 ∷ 51 ∷ []

abbrev pub more_fields : Bytes → List (Bytes × Bytes)
more_fields key =
    (upgrade_key, upgrade_value)
    ∷ (connection_key, upgrade_key)
    ∷ (ws_key, key)
    ∷ (version_key, thirteen)
    ∷ []

abbrev pub host_field : Bytes → Bytes × Bytes
host_field host = (host_key, host)

abbrev version_line : Bytes
version_line = crlf ++ (version_key ++ (58 ∷ 32 ∷ thirteen))

request_lines :
    (path host key : Bytes)
    → request path host key
      ≡ request_line path
        ++ (crlf ++ (write_lines (host_field host ∷ more_fields key) ++ (empty_line ++ [])))
unfolding request
request_lines path host key =
    ap (λ x. text_get ++ (path ++ (text_host ++ (host ++ (text_key ++ x)))))
      (sym (append_assoc key version_line empty_line))
    ∙ ap (λ x. text_get ++ (path ++ (text_host ++ x)))
        (sym (append_assoc host (text_key ++ (key ++ version_line)) empty_line))
    ∙ ap (λ x. text_get ++ x)
        (sym (
          append_assoc path protocol
            (crlf ++ (write_lines (host_field host ∷ more_fields key) ++ empty_line))))

pub fields-Field :
    (host key : Bytes)
    → Without 13 host
    → trim host ≡ host
    → All Visible key
    → All (λ f. Field f.0 f.1) (host_field host ∷ more_fields key)
unfolding trim
fields-Field host key h t v = (
  line_ok host_key host refl refl refl h t,
  (
    line_ok upgrade_key upgrade_value refl refl refl (others-Without 13 upgrade_value refl) refl,
    (
      line_ok connection_key upgrade_key refl refl refl (others-Without 13 upgrade_key refl) refl,
      (
        line_ok ws_key key refl refl refl (Visible-Without 13 key (omega arith) v)
            (trim-Visible key v),
        (line_ok version_key thirteen refl refl refl (others-Without 13 thirteen refl) refl, tt),
      ),
    ),
  ),
)

pub line-Without : (path : Bytes) → Without 13 path → Without 13 (request_line path)
line-Without path h =
    Without-append 13 text_get (path ++ protocol) (others-Without 13 text_get refl)
      (Without-append 13 path protocol h (others-Without 13 protocol refl))

-- The request ends at its empty line.
pub split-request :
    (path host key : Bytes)
    → Without 13 path
    → Without 13 host
    → trim host ≡ host
    → All Visible key
    → split (request path host key) empty_line
      ≡ (request_line path ++ (crlf ++ write_lines (host_field host ∷ more_fields key)), [])
split-request path host key p h t v =
    ap (λ x. split x empty_line) (request_lines path host key)
    ∙ split_header (request_line path) (host_field host) (more_fields key) [] (line-Without path p)
        (fields-Field host key h t v)
