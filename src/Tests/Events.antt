-- ===== src/Tests/Events.antt =====
-- Reading, accepting and the event loop at concrete inputs.
use multiplexing_proxy.Prelude.{
  ◌≡◌, refl, true, false, [], ◌∷◌, done, fault, pos, minus_one, arith, none, some,
}
use multiplexing_proxy.Memory.{Bytes, calloc, length-calloc, Holds, c_str, contains}
use multiplexing_proxy.EventProxy.Action.{
  Callback, block, reading, writing, Call, client_action, listen_action,
}
use multiplexing_proxy.EventProxy.Wire.{codes}
use multiplexing_proxy.EventProxy.Read.{got, bufmax, maxbuf}
use multiplexing_proxy.EventProxy.Srvread.{srvread, srvread_first_read, srvread_overflow}
use multiplexing_proxy.EventProxy.Accept.{accepted, none_left, accept_loop, handle_new_client}
use multiplexing_proxy.EventProxy.Accept.Admit.{fresh, not_registered, handle_new_client_lem}
use multiplexing_proxy.EventProxy.Cache.{IsEmpty}
use multiplexing_proxy.EventProxy.MainLoop.{World, Slot, Answers, start, run, fetch, call_back}
use multiplexing_proxy.EventProxy.MainLoop.Uncached.{run-IsEmpty}
use multiplexing_proxy.EventProxy.MainLoop.Heap.{AllReady, run-AllReady}
use multiplexing_proxy.Tests.Sending.{linux}

abbrev response : Bytes
response = codes "HTTP/1.0 200 OK\r\n\r\n"

srvread_first_read_example :
    (r : Bytes) × (srvread linux
        (calloc 64)
        (got response ∷ got (codes "body") ∷ [])
        (pos 0)
        (client_action (pos 5))
      ≡ done (record {
        action = record (client_action (pos 5)) {
          serverfd = minus_one;
          total_data_size = 19;
          total_bytes_passed = 0;
          data_buf = block r;
          callback = Callback.clwrite;
        };
        ends = false;
        calls = Call.close minus_one ∷ Call.epoll_add (pos 5) writing ∷ [];
        spawned = [];
        sent = [];
      }))
    × Holds r bufmax response
srvread_first_read_example =
    srvread_first_read linux (calloc 64) b'H' (codes "TTP/1.0 200 OK\r\n\r\n")
      (got (codes "body") ∷ []) (pos 0) (client_action (pos 5)) refl refl (omega arith)
      (omega (arith, length-calloc 64)) (omega arith) (unfold calloc c_str in refl)
      (unfold contains in refl)

srvread_overflow_example :
    srvread linux (calloc maxbuf) (got (calloc 8193) ∷ []) (pos 0) (client_action (pos 5)) ≡ fault
srvread_overflow_example =
    srvread_overflow linux (calloc maxbuf) (calloc 8193) [] (pos 0) (client_action (pos 5)) refl
      (length-calloc maxbuf) (omega (arith, length-calloc 8193)) (omega (arith, length-calloc 8193))

handle_new_client_lem_example :
    handle_new_client
      (accepted 7 false false ∷ accepted 8 false false ∷ accepted 9 false true ∷ [])
      (listen_action (pos 3))
    ≡ done (record {
      action = listen_action (pos 3);
      ends = false;
      calls =
          Call.set_nonblocking (pos 7)
          ∷ Call.epoll_add (pos 7) reading
          ∷ Call.set_nonblocking (pos 8)
          ∷ Call.epoll_add (pos 8) reading
          ∷ Call.set_nonblocking (pos 9)
          ∷ Call.epoll_add (pos 9) reading
          ∷ Call.close (pos 9)
          ∷ Call.close minus_one
          ∷ Call.free_action
          ∷ [];
      spawned = fresh 7 ∷ fresh 8 ∷ [];
      sent = [];
    })
handle_new_client_lem_example =
    handle_new_client_lem (7 ∷ 8 ∷ []) (accepted 9 false true)
      (Call.set_nonblocking (pos 9)
        ∷ Call.epoll_add (pos 9) reading
        ∷ Call.close (pos 9)
        ∷ Call.close minus_one
        ∷ Call.free_action
        ∷ [])
      [] (listen_action (pos 3)) (omega arith, (omega arith, tt)) (not_registered 8)

abbrev pub answers : Answers
answers = record {
  accepts = accepted 7 false false ∷ none_left ∷ [];
  client = record {
    reads = [];
    now = 0;
    addresses = none;
    nonblocking = pos 0;
    epoll_first = pos 0;
    epoll_second = pos 0;
  };
  stack = record { temp = []; wire = []; buf2 = [] };
  server = record { errno = 0; writes = []; deleted = pos 0; added = pos 0 };
  temp = [];
  reads = [];
  added = pos 0;
  errno = 0;
  writes = [];
}

abbrev arrival : Slot
arrival = record { error = false; target = some 0; answers = answers }

-- One turn: a client connects.
abbrev after_arrival : World
after_arrival = record {
  heap = some (listen_action (pos 3)) ∷ some (client_action (pos 7)) ∷ [];
  cache = none ∷ none ∷ [];
  calls = Call.set_nonblocking (pos 7) ∷ Call.epoll_add (pos 7) reading ∷ [];
  sent = [] ∷ [];
}

runs : run linux (start 2 (pos 3)) ((pos 1, arrival ∷ []) ∷ []) ≡ done after_arrival
unfolding run start handle_new_client fetch call_back accept_loop
runs = refl

run-IsEmpty_example : IsEmpty (none ∷ none ∷ [])
run-IsEmpty_example =
    run-IsEmpty linux 2 (pos 3) ((pos 1, arrival ∷ []) ∷ []) {w = after_arrival} runs

run-AllReady_example : AllReady (some (listen_action (pos 3)) ∷ some (client_action (pos 7)) ∷ [])
run-AllReady_example =
    run-AllReady linux 2 (pos 3) ((pos 1, arrival ∷ []) ∷ []) {w = after_arrival} runs
