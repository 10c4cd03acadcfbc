-- ===== src/Tests/Exchange.antt =====
-- One exchange of the event-driven proxy at a concrete input.
use multiplexing_proxy.Prelude.{
  ◌≡◌, refl, true, false, [], ◌∷◌, ◌++◌, done, pos, minus_one, arith, none, some,
}
use multiplexing_proxy.Memory.{
  Bytes, calloc, length-calloc, contains, starts_with, c_str-drop-calloc,
}
use multiplexing_proxy.EventProxy.Action.{reading, writing, Call, client_action, listen_action}
use multiplexing_proxy.EventProxy.Wire.{codes}
use multiplexing_proxy.EventProxy.Read.{got}
use multiplexing_proxy.EventProxy.Write.{wrote}
use multiplexing_proxy.EventProxy.Clread.{no_socket, connected, refused}
use multiplexing_proxy.EventProxy.Clread.Whole.{
  request_text, server_text, IsRequest, turns_to_server,
}
use multiplexing_proxy.EventProxy.MainLoop.{World, Slot, Answers, run}
use multiplexing_proxy.EventProxy.MainLoop.Exchange.{run_exchange}
use multiplexing_proxy.Tests.Sending.{linux}

abbrev asks : Bytes
asks =
    request_text b'G' b'E' b'T' b' ' (codes "a.b") (codes "x HTTP/1.0") b'H'
      (codes "ost: a.b\r\n\r\n")

asks-IsRequest :
    IsRequest b'G' b'E' b'T' b' ' (codes "a.b") (codes "x HTTP/1.0") b'H' (codes "ost: a.b\r\n\r\n")
asks-IsRequest = record {
  whole_text = omega arith;
  fits = omega arith;
  whole = unfold contains starts_with in refl;
  host_text = omega arith;
  host_ok = omega arith;
  host_fits = omega arith;
  target_text = omega arith;
  target_ok = omega arith;
  headers_text = omega arith;
  wire_fits = omega arith;
}

abbrev response : Bytes
response = codes "HTTP/1.0 200 OK\r\n\r\nHi"

abbrev answers : Answers
answers = record {
  accepts = [];
  client = record {
    reads = got asks ∷ [];
    now = 0;
    addresses = some (no_socket ∷ refused (pos 8) true ∷ connected (pos 9) ∷ []);
    nonblocking = pos 0;
    epoll_first = pos 0;
    epoll_second = pos 0;
  };
  stack = record { temp = calloc 8192; wire = []; buf2 = [] };
  server = record { errno = 0; writes = wrote 173 ∷ wrote 0 ∷ []; deleted = pos 0; added = pos 0 };
  temp = calloc 8192;
  reads = got response ∷ [];
  added = pos 0;
  errno = 11;
  writes = wrote 21 ∷ wrote 0 ∷ [];
}

abbrev event : Slot
event = record { error = false; target = some 1; answers = answers }

abbrev connected_world : World
connected_world = record {
  heap = some (listen_action (pos 3)) ∷ some (client_action (pos 7)) ∷ [];
  cache = none ∷ none ∷ [];
  calls = [];
  sent = [];
}

run_exchange_example :
    (url copy buffer : Bytes) × (run linux connected_world
        ((pos 1, event ∷ []) ∷ (pos 1, event ∷ []) ∷ (pos 1, event ∷ []) ∷ (pos 1, event ∷ []) ∷ [])
      ≡ done (record {
        heap = some (listen_action (pos 3)) ∷ none ∷ [];
        cache = none ∷ none ∷ [];
        calls =
            turns_to_server asks
              (codes "a.b")
              (no_socket ∷ refused (pos 8) true ∷ [])
              (pos 9)
              (pos 7)
            ++ (Call.free copy ∷ Call.epoll_del (pos 9) ∷ Call.epoll_add (pos 9) reading ∷ [])
            ++ (Call.close (pos 9) ∷ Call.epoll_add (pos 7) writing ∷ [])
            ++ (Call.close (pos 7)
                ∷ Call.close minus_one
                ∷ Call.free buffer
                ∷ Call.free url
                ∷ Call.free_action
                ∷ []);
        sent =
            []
            ∷ server_text (codes "a.b") (codes "x HTTP/1.0") (codes "ost: a.b\r\n\r\n")
            ∷ []
            ∷ response
            ∷ [];
      }))
unfolding contains starts_with
run_exchange_example =
    run_exchange asks-IsRequest linux connected_world 1 (client_action (pos 7)) event event event
      event {tried = no_socket ∷ refused (pos 8) true ∷ []} {later = []} {fd = pos 9} [] b'H'
      (codes "TTP/1.0 200 OK\r\n\r\nHi") [] refl refl refl refl tt
      (omega (arith, length-calloc 181)) (omega (arith, length-calloc 181))
      ((refl, refl), (refl, refl), (refl, refl), (refl, refl))
      (record {
        reads = refl;
        room = omega (arith, length-calloc 8192);
        nul = c_str-drop-calloc 40 8192 (omega arith);
      })
      (record { found = refl; refuse = tt; nonblocking = refl; first = refl; second = refl })
      (record { stops = tt; all = refl; deleted = refl; added = refl })
      (record {
        reads = refl;
        text = omega arith;
        room = omega (arith, length-calloc 8192);
        nul = c_str-drop-calloc 21 8192 (omega arith);
        fits = omega arith;
        whole = refl;
        registered = refl;
      })
      (record { drains = tt; all = refl })
