-- ===== src/EventProxy/Request.antt =====
-- How `clread` of proxylab-handout/proxy.c takes a request apart. `httpProxy-master` has the same
-- text in its `thread`. Positions are `unsigned int`; they stay below the buffer's size.
pub mod Locate
pub mod Whole
pub mod Port
pub mod Authority
pub mod Url
use multiplexing_proxy.Prelude.{
  ℕ, zero, suc, ◌+◌, ◌-◌, Bool, true, false, ◌||◌, List, [], ◌∷◌, ◌++◌, length, take, drop, set,
  Result, done, fault, ◌>>=◌, ◌==◌, ltb, if◌then◌else◌,
}
use multiplexing_proxy.Memory.{
  Bytes, c_str, slice, strcpy, strcat, calloc, put, equal, terminated, contains,
}

-- `wirelen`
abbrev pub wirelen : ℕ
wirelen = 2000

abbrev pub slash : ℕ
slash = b'/'

abbrev pub space : ℕ
space = b' '

-- "https"
abbrev pub https : Bytes
https = b'h' ∷ b't' ∷ b't' ∷ b'p' ∷ b's' ∷ []

-- The scheme: five bytes from offset 4, as a string, and the offset behind `http://` or `https://`.
unfoldable pub after_scheme : Bytes → Result ℕ
after_scheme buf = do
  bytes ← slice buf 4 5
  scheme ← c_str (terminated bytes)
  done (if equal scheme https then 12 else 11)

-- The loop over the authority, on the bytes from `reqBufPos` on: `baseURLlength`, and `portSpot`
-- (0 for none). `at` is `reqBufPos`.
unfoldable pub scan_authority : ℕ → Bytes → ℕ → ℕ → Result (ℕ × ℕ)
scan_authority at [] n spot = fault
scan_authority at (c ∷ cs) n spot =
    let rest = scan_authority at cs (n + 1) (if c == b':' then at + n else spot) in
    if c == slash || c == space then done (n, spot) else rest

-- The host and the port. `portNumber[8]` is cleared before; "80" is put there later, where no port
-- is given.
unfoldable pub split_authority : Bytes → ℕ → ℕ → ℕ → Result (Bytes × Bytes)
split_authority buf at n zero = do host ← slice buf at n; done (terminated host, calloc 8)
split_authority buf at n (suc spot) = do
  let port_length = at + n - (suc spot + 1)
  digits ← slice buf (suc spot + 1) port_length
  port ← put (calloc 8) digits
  host ← slice buf at (n - (port_length + 1))
  if ltb port_length 8 then done (terminated host, set port port_length 0) else fault

-- `buf[reqBufPos] == '/'` behind the authority is skipped.
unfoldable pub after_authority : Bytes → ℕ → Result ℕ
after_authority buf at = do c ← slice buf at 1; done (if equal c (slash ∷ []) then at + 1 else at)

-- The loop over the URI and the version: it stops at a '\r', or one byte before a '\n'.
unfoldable pub scan_uri : Bytes → ℕ → Result ℕ
scan_uri [] n = fault
scan_uri (c ∷ []) n = if c == b'\r' then done n else fault
scan_uri (c ∷ d ∷ cs) n =
    let rest = scan_uri (d ∷ cs) (n + 1) in if c == b'\r' || d == b'\n' then done n else rest

-- `URI[URIlength + 1]`: the bytes up to and with the one where the loop stopped, which '0'
-- replaces, and a NUL. `uri_length` is `URIlength` before the loop's result is incremented.
unfoldable pub uri_text : Bytes → ℕ → ℕ → Result Bytes
uri_text buf at uri_length = do
  bytes ← slice buf at (uri_length + 1)
  done (set (terminated bytes) uri_length b'0')

-- What the parts of the request are, each as the object that holds it.
pub record Request : Type 0 where
  pub base_url : Bytes
  pub port_number : Bytes
  pub port_spot : ℕ
  pub uri : Bytes
  pub headers : Bytes

-- From the complete request in `buf` to its parts. The three bytes of the method are only printed.
unfoldable pub locate : Bytes → Result Request
unfolding after_scheme scan_authority split_authority after_authority scan_uri uri_text
locate buf = do
  at ← after_scheme buf
  (n, spot) ← scan_authority at (drop at buf) 0 0
  (base, port) ← split_authority buf at n spot
  start ← after_authority buf (at + n)
  uri_length ← scan_uri (drop start buf) 0
  uri ← uri_text buf start uri_length
  headers ← strcpy (calloc wirelen) (drop (start + (uri_length + 1) + 2) buf)
  done (record {
    base_url = base;
    port_number = port;
    port_spot = spot;
    uri = uri;
    headers = headers;
  })

-- `if (!portSpot) strcat(portNumber, "80");`
unfoldable pub choose_port : Request → Result Bytes
choose_port r =
    let default = strcat r.port_number (terminated (b'8' ∷ b'0' ∷ [])) in
    if r.port_spot == 0 then default else done r.port_number
