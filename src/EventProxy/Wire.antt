-- ===== src/EventProxy/Wire.antt =====
-- How `clread` of proxylab-handout/proxy.c builds the request for the server, `reqWire`.
pub mod Text
use Prim.Native.Char.{code}
use Prim.Native.String.{String}
use multiplexing_proxy.Prelude.{
  ℕ, ◌≡◌, refl, Bool, true, false, not, List, [], ◌∷◌, ◌++◌, length, Result, done, fault, ◌>>=◌,
  if◌then◌else◌,
}
use multiplexing_proxy.Memory.{Bytes, c_str, strcat, calloc, contains, terminated}
use multiplexing_proxy.EventProxy.Request.{Request, wirelen}

-- The bytes of a string literal.
abbrev pub codes : String → Bytes
codes String.[] = []
codes (String.◌∷◌ c s) = code c ∷ codes s

-- The three header constants of the file.
pub record Constants : Type 0 where
  pub user_agent : Bytes
  pub connection : Bytes
  pub proxy_connection : Bytes

abbrev pub event_constants : Constants
event_constants = record {
  user_agent =
      codes
        "\r\nUser-Agent: Mozilla/5.0 (X11; Linux x86_64; rv:10.0.3) Gecko/20120305 Firefox/10.0.3";
  connection = codes "\r\nConnection: close";
  proxy_connection = codes "\r\nProxy-Connection: close";
}

abbrev pub crlf : Bytes
crlf = codes "\r\n"

-- `strcat(reqWire, "…")` with a literal.
unfoldable pub append_literal : Bytes → Bytes → Result Bytes
append_literal wire text = strcat wire (terminated text)

-- `if (!strstr(passThroughHeaders, name)) strcat(reqWire, text);`
unfoldable pub append_unless : Bytes → Bytes → Bytes → Bytes → Result Bytes
unfolding append_literal
append_unless headers name text wire =
    let longer = append_literal wire text in if contains headers name then done wire else longer

-- `hostHeader[200]`, with "Host: " and the host.
unfoldable pub host_header : Bytes → Result Bytes
unfolding append_literal
host_header base_url = do
  label ← append_literal (calloc 200) (codes "Host: ")
  strcat label base_url

unfoldable pub append_host : Bytes → Bytes → Bytes → Result Bytes
unfolding host_header
append_host headers base_url wire =
    let longer = host_header base_url >>= strcat wire in
    if contains headers (codes "Host:") then done wire else longer

-- `reqWire[wirelen * 2]`: `stack` is its second half, which `memset` leaves alone.
unfoldable pub assemble : Constants → Bytes → Request → Result Bytes
unfolding append_host append_unless append_literal
assemble k stack r = do
  headers ← c_str r.headers
  w₀ ← append_literal (calloc wirelen ++ stack) (codes "GET /")
  w₁ ← strcat w₀ r.uri
  w₂ ← append_literal w₁ crlf
  w₃ ← append_host headers r.base_url w₂
  w₄ ← append_unless headers (codes "Connection:") k.connection w₃
  w₅ ← append_unless headers (codes "Proxy-Connection:") k.proxy_connection w₄
  w₆ ← append_unless headers (codes "User-Agent:") k.user_agent w₅
  w₇ ← strcat w₆ r.headers
  append_literal w₇ (codes "\r\n\r\n")
