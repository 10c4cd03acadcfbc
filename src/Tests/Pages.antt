-- ===== src/Tests/Pages.antt =====
-- Rounds of the threaded proxy, and its log, at concrete inputs.
use multiplexing_proxy.Prelude.{ℕ, ◌≡◌, refl, true, List, [], ◌∷◌, ◌++◌, done, arith, none, some}
use multiplexing_proxy.Memory.{Bytes, calloc, length-calloc, equal, put-Holds}
use multiplexing_proxy.EventProxy.Wire.{codes}
use multiplexing_proxy.ThreadProxy.Store.{Store, max_object_size, wirelen}
use multiplexing_proxy.ThreadProxy.Relay.{Line, line, nothing}
use multiplexing_proxy.ThreadProxy.Worker.{Round, serve, bufmax}
use multiplexing_proxy.ThreadProxy.Worker.Page.{IsPage, page_line, page_wire}
use multiplexing_proxy.ThreadProxy.Worker.Twice.{serve_twice}
use multiplexing_proxy.ThreadProxy.Log.{Logging, logs, steps, clears}
use multiplexing_proxy.ThreadProxy.Log.Lines.{IsLogging, request, LogsNext, log_refines}
use multiplexing_proxy.ThreadProxy.Log.Stale.{log_stale}

abbrev pub page_lines : List Line
page_lines = line b'H' (codes "TTP/1.0 200 OK\r\n") ∷ line b'\r' (codes "\n") ∷ line b'x' [] ∷ []

-- A client's request with this first letter of the method.
abbrev pub round : ℕ → ℕ → ℕ → Round
round a b c = record {
  request_line = page_line a b c b' ' (codes "a.b") (codes "x HTTP/1.0");
  now = 7;
  server_opens = true;
  server_takes = true;
  lines = page_lines ++ nothing ∷ [];
  wire_stack = calloc wirelen;
  buf2 = calloc 8192;
  blank = record {
    object_size = 0;
    time_last_accessed = 0;
    request = calloc wirelen;
    content = calloc max_object_size;
  };
}

abbrev pub no_entries : Store
no_entries = record { entries = none ∷ none ∷ []; current = 0 }

pub upper : IsPage (round b'G' b'E' b'T') b'G' b'E' b'T' b' ' (codes "a.b") (codes "x HTTP/1.0")
unfolding equal
upper = record {
  line = refl;
  short = omega arith;
  method = omega arith;
  taken = refl;
  host_text = omega arith;
  host_ok = omega arith;
  host_fits = omega arith;
  target_text = omega arith;
  target_ok = omega arith;
  wire_fits = omega arith;
}

pub lower : IsPage (round b'g' b'e' b't') b'g' b'e' b't' b' ' (codes "a.b") (codes "x HTTP/1.0")
unfolding equal
lower = record {
  line = refl;
  short = omega arith;
  method = omega arith;
  taken = refl;
  host_text = omega arith;
  host_ok = omega arith;
  host_fits = omega arith;
  target_text = omega arith;
  target_ok = omega arith;
  wire_fits = omega arith;
}

serve_twice_example :
    (kept again : Store) × (serve (round b'G' b'E' b'T') no_entries
      ≡ done (record {
        sent = codes "HTTP/1.0 200 OK\r\n\r\nx";
        server = some (codes "a.b", codes "80", page_wire (codes "a.b") (codes "x HTTP/1.0"));
        cache = kept;
      }))
    × (serve (round b'g' b'e' b't') kept
        ≡ done (record { sent = codes "HTTP/1.0 200 OK\r\n\r\nx"; server = none; cache = again }))
    × (kept.current ≡ 20)
    × (again.current ≡ kept.current)
serve_twice_example =
    serve_twice no_entries page_lines [] upper lower
      (record {
        opens = refl;
        takes = refl;
        given = refl;
        small = omega (arith, length-calloc 8192);
        text = omega (arith, length-calloc 8192);
      })
      (record {
        room = omega arith;
        free = tt;
        absent = tt;
        content_size = length-calloc max_object_size;
        request_size = length-calloc wirelen;
      })
      (omega arith) (omega (arith, length-calloc 8192))

-- Two threads; the second has entered "GET b", and nothing is in the file.
abbrev buffer_b : Bytes
buffer_b =
    (put-Holds (calloc bufmax) (codes "GET b") (length-calloc bufmax) (omega arith) (omega arith)).0

abbrev one_waits : Logging
one_waits = record {
  buffers = calloc bufmax ∷ buffer_b ∷ [];
  entries = record {
    buf = 0 ∷ 1 ∷ 0 ∷ 0 ∷ [];
    n = 4;
    front = 0;
    rear = 1;
    mutex = 1;
    slots = 15;
    items = 1;
  };
  file = [];
}

one_waits-IsLogging : IsLogging one_waits ((1, codes "GET b") ∷ [])
one_waits-IsLogging = record {
  ring = record {
    some_room = omega arith;
    whole = refl;
    unlocked = refl;
    counted = refl;
    ahead = refl;
    held = (refl, tt);
  };
  hold = (
    (
      buffer_b,
      refl,
      (put-Holds (calloc bufmax) (codes "GET b") (length-calloc bufmax) (omega arith)
          (omega arith)).2,
    ),
    tt,
  );
  small = omega arith;
}

log_refines_example :
    ((t : Logging) × (steps one_waits (request 0 (codes "GET a")) ≡ done t)
      × IsLogging t ((1, codes "GET b") ∷ (0, codes "GET a") ∷ [])
      × (t.file ≡ []))
    × LogsNext one_waits ((1, codes "GET b") ∷ [])
log_refines_example =
    log_refines one_waits ((1, codes "GET b") ∷ []) 0 (codes "GET a") one_waits-IsLogging
      (omega arith) (omega arith) (omega arith) (omega arith) (omega arith) (omega arith)
      (omega arith)

abbrev none_waits : Logging
none_waits = record {
  buffers = calloc bufmax ∷ calloc bufmax ∷ [];
  entries = record {
    buf = 0 ∷ 0 ∷ 0 ∷ 0 ∷ [];
    n = 4;
    front = 0;
    rear = 0;
    mutex = 1;
    slots = 16;
    items = 0;
  };
  file = codes "-";
}

none_waits-IsLogging : IsLogging none_waits []
none_waits-IsLogging = record {
  ring = record {
    some_room = omega arith;
    whole = refl;
    unlocked = refl;
    counted = refl;
    ahead = refl;
    held = tt;
  };
  hold = tt;
  small = omega arith;
}

log_stale_example :
    ((t : Logging) × (steps none_waits (request 0 (codes "GET a") ++ clears 0 ∷ logs ∷ []) ≡ done t)
      × (t.file ≡ codes "-"))
    × ((t : Logging) × (steps none_waits
            (request 0 (codes "GET a") ++ request 0 (codes "GET b") ++ logs ∷ logs ∷ [])
          ≡ done t)
        × (t.file ≡ codes "-GET bGET b"))
log_stale_example =
    log_stale none_waits 0 (codes "GET a") (codes "GET b") none_waits-IsLogging (omega arith)
      (omega arith) (omega arith) (omega arith) (omega arith) (omega arith) (omega arith)
      (omega arith)
