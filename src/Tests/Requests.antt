-- ===== src/Tests/Requests.antt =====
-- The request on its way through `clread`, at concrete inputs.
use multiplexing_proxy.Prelude.{
  ◌+◌, ◌≡◌, refl, true, false, List, [], ◌∷◌, ◌++◌, length, done, fault, pos, arith, some,
}
use multiplexing_proxy.Memory.{Bytes, calloc, length-calloc, Holds, terminated, c_str}
use multiplexing_proxy.Platform.{Platform}
use multiplexing_proxy.EventProxy.Request.{Request, locate, choose_port, wirelen}
use multiplexing_proxy.EventProxy.Request.Authority.{first_bytes}
use multiplexing_proxy.EventProxy.Request.Url.{locate_lem, locate_long_port}
use multiplexing_proxy.EventProxy.Request.Whole.{request_buffer}
use multiplexing_proxy.EventProxy.Wire.{codes, event_constants, assemble}
use multiplexing_proxy.EventProxy.Wire.Text.{wire_text, assemble_lem}
use multiplexing_proxy.EventProxy.Clread.{ClientAnswers, Address, no_socket, connected, refused}

abbrev parsed : Request
parsed = record {
  base_url = terminated (codes "a.b");
  port_number = calloc 8;
  port_spot = 0;
  uri = terminated (codes "x HTTP/1.0");
  headers = terminated (codes "Host: c");
}

assemble_lem_example :
    (wire : Bytes) × (assemble event_constants (calloc wirelen) parsed ≡ done wire)
    × Holds wire
        (wirelen + length (calloc wirelen))
        (wire_text event_constants (codes "x HTTP/1.0") (codes "a.b") (codes "Host: c"))
assemble_lem_example =
    assemble_lem event_constants (calloc wirelen) parsed {uri = codes "x HTTP/1.0"}
      {host = codes "a.b"} {headers = codes "Host: c"}
      (record {
        user_agent_text = omega arith;
        connection_text = omega arith;
        proxy_connection_text = omega arith;
      })
      (unfold c_str in refl) (unfold c_str in refl) (unfold c_str in refl) (omega arith)
      (omega (arith, length-calloc wirelen))

abbrev two_failures : List Address
two_failures = no_socket ∷ refused (pos 7) true ∷ []

abbrev answers : ClientAnswers
answers = record {
  reads = [];
  now = 0;
  addresses = some (connected (pos 8) ∷ []);
  nonblocking = pos 0;
  epoll_first = pos 0;
  epoll_second = pos 0;
}

abbrev wire : Bytes
wire = terminated (codes "GET /x") ++ calloc 9

wire-Holds : Holds wire 16 (codes "GET /x")
wire-Holds = record { size = unfold calloc in refl; text = unfold c_str in refl }

-- An allocator that gives just what is asked for.
abbrev exact : Platform
exact = record { eintr = 4; eagain = 11; ewouldblock = 11; malloc = calloc }

-- `GET https://a.b:8080/x HTTP/1.1`.
locate_lem_example :
    (r : Request) × (locate (
        request_buffer
          (first_bytes true b'G' b'E' b'T' b' ')
          (codes "a.b:8080")
          (codes "x HTTP/1.1")
          b'A'
          (codes "ccept: */*")
          [])
      ≡ done r)
    × (r.base_url ≡ terminated (codes "a.b"))
    × (r.uri ≡ terminated (codes "x HTTP/1.10"))
    × Holds r.headers wirelen (codes "ccept: */*")
    × ((p : Bytes) × (choose_port r ≡ done p) × (c_str p ≡ done (codes "8080")))
locate_lem_example =
    locate_lem true b'G' b'E' b'T' b' ' b'A' (codes "a.b") (some (codes "8080"))
      (codes "x HTTP/1.1") (codes "ccept: */*") [] (omega arith) (omega arith) (omega arith)
      (omega arith) (omega arith)

locate_long_port_example :
    locate (
      request_buffer
        (first_bytes false b'G' b'E' b'T' b' ')
        (codes "a.b:00000080")
        (codes "x HTTP/1.1")
        b'A'
        (codes "ccept: */*")
        [])
    ≡ fault
locate_long_port_example =
    locate_long_port false b'G' b'E' b'T' b' ' b'A' (codes "a.b") (codes "00000080")
      (codes "x HTTP/1.1") (codes "ccept: */*") [] (omega arith) (omega arith) (omega arith)
