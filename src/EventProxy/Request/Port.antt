-- ===== src/EventProxy/Request/Port.antt =====
-- The port where the request names none.
use multiplexing_proxy.Prelude.{◌≡◌, [], done, arith}
use multiplexing_proxy.Memory.{
  Bytes, c_str, calloc, terminated, Holds, strcat, strcat-Holds, calloc-Holds, c_str-append,
}
use multiplexing_proxy.EventProxy.Request.{Request, choose_port}
use multiplexing_proxy.EventProxy.Wire.{codes}

port_text :
    (p : Bytes) × (strcat (calloc 8) (terminated (codes "80")) ≡ done p) × Holds p 8 (codes "80")
port_text =
    strcat-Holds (calloc 8) (terminated (codes "80")) (calloc-Holds 8 (omega arith))
      (c_str-append (codes "80") [] (omega arith)) (omega arith)

abbrev pub no_port : Bytes → Bytes → Bytes → Request
no_port base uri headers = record {
  base_url = base;
  port_number = calloc 8;
  port_spot = 0;
  uri = uri;
  headers = headers;
}

pub port_80 :
    (base uri headers : Bytes)
    → (p : Bytes) × (choose_port (no_port base uri headers) ≡ done p)
      × (c_str p ≡ done (codes "80"))
unfolding choose_port
port_80 base uri headers = let (p, ran, held) = port_text in (p, ran, held.text)
