-- ===== src/EventProxy/Clread/Ends.antt =====
-- Acting on a request ends: taking it apart, building the one for the server, and searching the
-- cache.
use multiplexing_proxy.Prelude.{
  ℕ, zero, suc, ◌+◌, ◌||◌, List, [], ◌∷◌, ◌++◌, drop, Option, none, some, ◌==◌, ltb, ℤ, is_negative,
  Ends, returns, faults, Ends->>=, if-Ends,
}
use multiplexing_proxy.Memory.{
  Bytes, calloc, equal, terminated, contains, c_str-Ends, put-Ends, slice-Ends, strlen-Ends,
  strcpy-Ends, strcat-Ends,
}
use multiplexing_proxy.Platform.{Platform}
use multiplexing_proxy.EventProxy.Action.{Pointer, null, wild, block, EventAction, Call, object}
use multiplexing_proxy.EventProxy.Read.{ReadEnd, Leaving, ended, paused, broken}
use multiplexing_proxy.EventProxy.Request.{
  Request, slash, space, wirelen, after_scheme, scan_authority, split_authority, after_authority,
  scan_uri, uri_text, locate, choose_port,
}
use multiplexing_proxy.EventProxy.Wire.{
  Constants, codes, crlf, append_literal, append_unless, host_header, append_host, assemble,
}
use multiplexing_proxy.EventProxy.Cache.{Cache, Found, search_cache}
use multiplexing_proxy.EventProxy.Clread.{
  Address, ClientAnswers, Stack, connect_first, serve_cached, start_server, use_connection,
  use_addresses, contact_server, act_on_search, act_on_request, after_reading,
}

pub object-Ends : (p : Pointer) → Ends (object p)
unfolding object
object-Ends null = returns
object-Ends wild = faults
object-Ends (block b) = returns

-- The request.
scan_authority-Ends : (at : ℕ) (cs : Bytes) (n spot : ℕ) → Ends (scan_authority at cs n spot)
unfolding scan_authority
scan_authority-Ends at [] n spot = faults
scan_authority-Ends at (c ∷ cs) n spot =
    if-Ends (c == slash || c == space) returns (scan_authority-Ends at cs (n + 1) _)

split_authority-Ends : (buf : Bytes) (at n spot : ℕ) → Ends (split_authority buf at n spot)
unfolding split_authority
split_authority-Ends buf at n zero = Ends->>= (slice-Ends buf at n) λ host. returns
split_authority-Ends buf at n (suc spot) = Ends->>= (slice-Ends buf _ _) λ digits.
    Ends->>= (put-Ends (calloc 8) digits)
      λ port. Ends->>= (slice-Ends buf at _) λ host. if-Ends (ltb _ 8) returns faults

after_authority-Ends : (buf : Bytes) (at : ℕ) → Ends (after_authority buf at)
unfolding after_authority
after_authority-Ends buf at = Ends->>= (slice-Ends buf at 1) λ c. returns

scan_uri-Ends : (cs : Bytes) (n : ℕ) → Ends (scan_uri cs n)
unfolding scan_uri
scan_uri-Ends [] n = faults
scan_uri-Ends (c ∷ []) n = if-Ends (c == b'\r') returns faults
scan_uri-Ends (c ∷ d ∷ cs) n =
    if-Ends (c == b'\r' || d == b'\n') returns (scan_uri-Ends (d ∷ cs) (n + 1))

pub locate-Ends : (buf : Bytes) → Ends (locate buf)
unfolding locate after_scheme uri_text
locate-Ends buf =
    Ends->>=
      (Ends->>= (slice-Ends buf 4 5)
        λ bytes. Ends->>= (c_str-Ends (terminated bytes)) λ scheme. returns)
      λ at. Ends->>= (scan_authority-Ends at (drop at buf) 0 0) λ (n, spot).
        Ends->>= (split_authority-Ends buf at n spot) λ parts.
          Ends->>= (after_authority-Ends buf (at + n)) λ start.
            Ends->>= (scan_uri-Ends (drop start buf) 0) λ uri_length.
              Ends->>= (Ends->>= (slice-Ends buf start (uri_length + 1)) λ bytes. returns)
                λ uri. Ends->>= (strcpy-Ends _ _) λ headers. returns

pub choose_port-Ends : (r : Request) → Ends (choose_port r)
unfolding choose_port
choose_port-Ends r = if-Ends (r.port_spot == 0) (strcat-Ends r.port_number _) returns

-- The request for the server.
append_literal-Ends : (wire text : Bytes) → Ends (append_literal wire text)
unfolding append_literal
append_literal-Ends wire text = strcat-Ends wire (terminated text)

append_unless-Ends : (headers name text wire : Bytes) → Ends (append_unless headers name text wire)
unfolding append_unless
append_unless-Ends headers name text wire =
    if-Ends (contains headers name) returns (append_literal-Ends wire text)

append_host-Ends : (headers base wire : Bytes) → Ends (append_host headers base wire)
unfolding append_host host_header
append_host-Ends headers base wire = if-Ends (contains headers (codes "Host:")) returns (
    Ends->>=
      (Ends->>= (append_literal-Ends (calloc 200) (codes "Host: ")) λ label. strcat-Ends label base)
      (strcat-Ends wire))

pub assemble-Ends : (k : Constants) (stack : Bytes) (r : Request) → Ends (assemble k stack r)
unfolding assemble
assemble-Ends k stack r = Ends->>= (c_str-Ends r.headers) λ headers.
    Ends->>= (append_literal-Ends (calloc wirelen ++ stack) (codes "GET /")) λ w₀.
      Ends->>= (strcat-Ends w₀ r.uri) λ w₁. Ends->>= (append_literal-Ends w₁ crlf) λ w₂.
        Ends->>= (append_host-Ends headers r.base_url w₂) λ w₃.
          Ends->>= (append_unless-Ends headers (codes "Connection:") k.connection w₃) λ w₄.
            Ends->>= (append_unless-Ends headers (codes "Proxy-Connection:") k.proxy_connection w₄)
              λ w₅.
                Ends->>= (append_unless-Ends headers (codes "User-Agent:") k.user_agent w₅) λ w₆.
                  Ends->>= (strcat-Ends w₆ r.headers)
                    λ w₇. append_literal-Ends w₇ (codes "\r\n\r\n")

-- The cache.
search_cache-Ends :
    (wanted buf2 : Bytes) (now : ℕ) (cache : Cache) → Ends (search_cache wanted buf2 now cache)
unfolding search_cache
search_cache-Ends wanted buf2 now [] = returns
search_cache-Ends wanted buf2 now (none ∷ cache) =
    Ends->>= (search_cache-Ends wanted buf2 now cache) λ r. returns
search_cache-Ends wanted buf2 now (some e ∷ cache) = Ends->>= (c_str-Ends e.request) λ key.
    if-Ends (equal key wanted)
      (Ends->>= (object-Ends e.content)
        λ content. Ends->>= (strcpy-Ends buf2 content) λ copy. returns)
      (Ends->>= (search_cache-Ends wanted buf2 now cache) λ r. returns)

-- The server.
module _ (os : Platform) (env : ClientAnswers) where
  use_connection-Ends :
      (a : EventAction) (wire : Bytes) (c : Option ℤ × List Call)
      → Ends (use_connection os env a wire c)
  unfolding use_connection start_server
  use_connection-Ends a wire (none, calls) = returns
  use_connection-Ends a wire (some fd, calls) = if-Ends (is_negative env.nonblocking) returns (
      Ends->>= (strlen-Ends wire)
        λ size. Ends->>= (strcpy-Ends (os.malloc size) wire) λ copy. returns)

  act_on_search-Ends :
      (a : EventAction) (url wire : Bytes) (request : Request) (found : Option Found)
      → Ends (act_on_search os env a url request wire found)
  unfolding act_on_search contact_server serve_cached
  act_on_search-Ends a url wire request none = Ends->>= (choose_port-Ends request) λ port_number.
      Ends->>= (c_str-Ends request.base_url) λ host.
        Ends->>= (c_str-Ends port_number)
          λ port. connecting env.addresses (Call.resolve host port ∷ [])
    where
      connecting :
          (found : Option (List Address)) (asked : List Call)
          → Ends (use_addresses os env a wire asked found)
      connecting none asked = unfold use_addresses in returns
      connecting (some list) asked =
          unfold use_addresses in use_connection-Ends a wire (connect_first list asked)
  act_on_search-Ends a url wire request (some f) =
      Ends->>= (strcpy-Ends (os.malloc f.size) f.copy) λ copy. returns

  pub after_reading-Ends :
      (stack : Stack) (cache : Cache) (a : EventAction) (r : ReadEnd) (l : Leaving)
      → Ends (after_reading os env stack cache a r l)
  unfolding after_reading act_on_request
  after_reading-Ends stack cache a r ended = Ends->>= (strcpy-Ends _ r.text) λ buf.
      Ends->>= (c_str-Ends r.text) λ entry. Ends->>= (locate-Ends buf) λ request.
        Ends->>= (assemble-Ends _ stack.wire request) λ wire. Ends->>= (c_str-Ends wire) λ wanted.
          Ends->>= (search_cache-Ends wanted stack.buf2 env.now cache)
            λ s. Ends->>= (act_on_search-Ends _ r.text wire request s.0) λ h. returns
  after_reading-Ends stack cache a r paused = returns
  after_reading-Ends stack cache a r broken = returns
