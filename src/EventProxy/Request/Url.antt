-- ===== src/EventProxy/Request/Url.antt =====
-- What `locate` and the choice of the port make of a URL.
use multiplexing_proxy.Prelude.{
  ℕ, ◌-◌, ◌<◌, ◌≤◌, ◌≡◌, refl, Bool, Option, none, some, [], ◌∷◌, ◌++◌, length, done, fault, arith,
}
use multiplexing_proxy.Memory.{Bytes, c_str, calloc, terminated, Holds, IsText, c_str-append}
use multiplexing_proxy.EventProxy.Request.{Request, locate, choose_port, slash, wirelen}
use multiplexing_proxy.EventProxy.Request.Locate.{IsHost, IsTarget}
use multiplexing_proxy.EventProxy.Request.Port.{port_80}
use multiplexing_proxy.EventProxy.Request.Whole.{
  line_rest, request_buffer, whole_host, locate_found, locate_stops,
}
use multiplexing_proxy.EventProxy.Request.Authority.{
  first_bytes, host_start, authority, IsPort, port_or_80, host_start-length, scheme_passed, later,
  host_scanned, choose_given, port_scanned, port_split, port_overflow,
}

-- For a request line with an http or an https URL with a path, and with no port or with one of
-- fewer than eight bytes, ended by "\r\n", where the headers without their first byte are shorter
-- than 2000 bytes: `clread` finds the host without its port; it connects to the port that the URL
-- names, and to 80 where it names none, for https too; the URI that it takes is the path and the
-- version with a '0' behind the version's last byte; and the headers that it passes on are the
-- client's without their first byte.
pub locate_lem :
    (secure : Bool) (a b c d x : ℕ) (host : Bytes) (port : Option Bytes)
    (target headers rest : Bytes)
    → IsHost host
    → IsPort port
    → IsTarget target
    → IsText headers
    → length headers < wirelen
    → (r : Request) × (locate
          (request_buffer (first_bytes secure a b c d) (authority host port) target x headers rest)
        ≡ done r)
      × (r.base_url ≡ terminated host)
      × (r.uri ≡ terminated (target ++ b'0' ∷ []))
      × Holds r.headers wirelen headers
      × ((p : Bytes) × (choose_port r ≡ done p) × (c_str p ≡ done (port_or_80 port)))
locate_lem secure a b c d x host none target headers rest okh okp okt oks short =
    let first : Bytes = first_bytes secure a b c d in
    let placed : host_start secure ≡ length first = host_start-length secure a b c d in
    let back : Bytes = line_rest target x headers rest in
    let (h, ran, held) =
      locate_found first host target headers rest x (host_start secure) placed
        (scheme_passed secure a b c d (host ++ back))
        (host_scanned first host (target ++ b'\r' ∷ b'\n' ∷ x ∷ (headers ++ 0 ∷ rest))
          (host_start secure) placed okh)
        (whole_host first host back (host_start secure) placed) okt oks short in
    (_, ran, refl, refl, held, port_80 (terminated host) (terminated (target ++ b'0' ∷ [])) h)
locate_lem secure a b c d x host (some digits) target headers rest okh okp okt oks short =
    let first : Bytes = first_bytes secure a b c d in
    let placed : host_start secure ≡ length first = host_start-length secure a b c d in
    let back : Bytes = target ++ b'\r' ∷ b'\n' ∷ x ∷ (headers ++ 0 ∷ rest) in
    let (h, ran, held) =
      locate_found first (host ++ b':' ∷ digits) target headers rest x (host_start secure) placed
        (scheme_passed secure a b c d ((host ++ b':' ∷ digits) ++ slash ∷ back))
        (port_scanned first host digits back (host_start secure) placed okh okp.0)
        (port_split first host digits back (host_start secure) placed (later secure) okp.2) okt oks
        short in
    (
      _,
      ran,
      refl,
      refl,
      held,
      (
        digits ++ 0 ∷ calloc (8 - length digits - 1),
        choose_given _ (omega (arith, later secure)),
        c_str-append digits (calloc (8 - length digits - 1)) okp.1,
      ),
    )

-- A port of eight bytes or more is stored behind the end of `portNumber[8]`.
pub locate_long_port :
    (secure : Bool) (a b c d x : ℕ) (host digits target headers rest : Bytes)
    → IsHost host
    → IsHost digits
    → 8 ≤ length digits
    → locate (
        request_buffer
          (first_bytes secure a b c d)
          (authority host (some digits))
          target
          x
          headers
          rest)
      ≡ fault
locate_long_port secure a b c d x host digits target headers rest okh okp long =
    let first : Bytes = first_bytes secure a b c d in
    let placed : host_start secure ≡ length first = host_start-length secure a b c d in
    let back : Bytes = target ++ b'\r' ∷ b'\n' ∷ x ∷ (headers ++ 0 ∷ rest) in
    locate_stops first (host ++ b':' ∷ digits) target headers rest x (host_start secure) placed
      (scheme_passed secure a b c d ((host ++ b':' ∷ digits) ++ slash ∷ back))
      (port_scanned first host digits back (host_start secure) placed okh okp)
      (port_overflow first host digits back (host_start secure) placed (later secure) long)
