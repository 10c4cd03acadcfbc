-- ===== src/Tests/Orders.antt =====
-- Two connections in one turn of the event loop.
use multiplexing_proxy.Prelude.{
  ◌≡◌, refl, ap, false, List, [], ◌∷◌, ◌++◌, pos_part, done, pos, some, none, arith, inr, ◌≢◌,
  minus_one, Ends,
}
use multiplexing_proxy.Memory.{slice}
use multiplexing_proxy.EventProxy.Action.{
  Callback, handle_new_client, clread, srvwrite, srvread, clwrite, null, block, EventAction,
  client_action, listen_action, reading, writing, Call, free_event_action,
}
use multiplexing_proxy.EventProxy.Wire.{codes}
use multiplexing_proxy.EventProxy.Read.{got, failed}
use multiplexing_proxy.EventProxy.Write.{
  wrote, client_loop, client_outcome, server_loop, server_outcome,
}
use multiplexing_proxy.EventProxy.Accept.{accept_loop}
use multiplexing_proxy.EventProxy.Accept
use multiplexing_proxy.EventProxy.Write
use multiplexing_proxy.EventProxy.MainLoop.{World, Slot, Answers, turn, run, fetch, call_back}
use multiplexing_proxy.EventProxy.MainLoop.Ends.{EventStops, run-Ends}
use multiplexing_proxy.EventProxy.MainLoop.Watch.{after_calls}
use multiplexing_proxy.EventProxy.MainLoop.Connection.{RegisteredAs, run-Registered}
use multiplexing_proxy.EventProxy.MainLoop.Commute.{SameButOrder, turn_commutes}
use multiplexing_proxy.Tests.Events.{answers}
use multiplexing_proxy.Tests.Sending.{linux}

-- A connection that has the response "ok" to send.
abbrev sending : EventAction
sending = record (client_action (pos 7)) {
  callback = Callback.clwrite;
  data_buf = block (codes "ok");
  total_data_size = 2;
}

abbrev listener_and_one : World
listener_and_one = record {
  heap = some (listen_action (pos 3)) ∷ some sending ∷ [];
  cache = none ∷ [];
  calls = [];
  sent = [];
}

abbrev arrives : Slot
arrives = record { error = false; target = some 0; answers = answers }

abbrev writable : Slot
writable = record {
  error = false;
  target = some 1;
  answers = record answers { writes = wrote 2 ∷ wrote 0 ∷ [] };
}

abbrev both : World
both = record {
  heap = some (listen_action (pos 3)) ∷ none ∷ some (client_action (pos 7)) ∷ [];
  cache = none ∷ [];
  calls =
      Call.set_nonblocking (pos 7)
      ∷ Call.epoll_add (pos 7) reading
      ∷ Call.close (pos 7)
      ∷ Call.close minus_one
      ∷ Call.free (codes "ok")
      ∷ Call.free_action
      ∷ [];
  sent = [] ∷ codes "ok" ∷ [];
}

turn_commutes_example :
    (v : World) × (turn linux listener_and_one (pos 2) (writable ∷ arrives ∷ []) ≡ done v)
    × SameButOrder listener_and_one both v
turn_commutes_example =
    turn_commutes linux listener_and_one arrives writable (record { target = refl; there = refl })
      (record { target = refl; there = refl }) (omega arith) (inr other) tt
      (unfold turn Accept.handle_new_client fetch call_back accept_loop Write.clwrite client_loop
          client_outcome slice free_event_action in
        refl)
  where
    other : Callback.clwrite ≢ Callback.handle_new_client
    other e = cc

-- Answers that stop every loop.
abbrev stopping : Answers
stopping = record answers {
  client = record answers.client { reads = failed 11 ∷ [] };
  server = record answers.server { writes = wrote 2 ∷ wrote 0 ∷ [] };
  reads = failed 4 ∷ got [] ∷ [];
  writes = wrote 2 ∷ wrote 0 ∷ [];
}

abbrev stops : Slot
stops = record { error = false; target = some 1; answers = stopping }

stops-EventStops : EventStops linux stops
stops-EventStops handle_new_client = tt
stops-EventStops clread = tt
stops-EventStops srvwrite = tt
stops-EventStops srvread = tt
stops-EventStops clwrite = tt

run-Ends_example : Ends (run linux listener_and_one ((pos 1, stops ∷ []) ∷ []))
run-Ends_example =
    run-Ends linux listener_and_one ((pos 1, stops ∷ []) ∷ []) ((stops-EventStops, tt), tt)

-- A connection that has a request to send, and the event in which it goes out.
abbrev asking : EventAction
asking = record sending { callback = Callback.srvwrite; serverfd = pos 9 }

abbrev asks : World
asks = record {
  heap = some (listen_action (pos 3)) ∷ some asking ∷ [];
  cache = none ∷ [];
  calls = [];
  sent = [];
}

abbrev server_writable : Slot
server_writable = record {
  error = false;
  target = some 1;
  answers = record answers { server = record answers.server { writes = wrote 2 ∷ wrote 0 ∷ [] } };
}

abbrev awaits : EventAction
awaits = record asking { callback = Callback.srvread; data_buf = null; total_data_size = 0 }

abbrev asked : World
asked = record {
  heap = some (listen_action (pos 3)) ∷ some awaits ∷ [];
  cache = none ∷ [];
  calls = Call.free (codes "ok") ∷ Call.epoll_del (pos 9) ∷ Call.epoll_add (pos 9) reading ∷ [];
  sent = codes "ok" ∷ [];
}

run-Registered_example :
    (calls : List Call) × (asked.calls ≡ [] ++ calls)
    × RegisteredAs (pos 7) (after_calls ((pos 9, writing) ∷ []) calls) (some (some awaits))
run-Registered_example =
    run-Registered linux asks 1 asking ((pos 1, server_writable ∷ []) ∷ []) {w' = asked} refl
      (other, refl) (((refl, tt), tt), tt)
      (unfold run turn fetch call_back Write.srvwrite server_loop server_outcome slice in refl)
  where
    other : pos 9 ≢ pos 7
    other e = omega (arith, ap pos_part e)
