-- ===== src/Tests/Sending.antt =====
-- `srvwrite` and `clwrite` at concrete inputs.
use multiplexing_proxy.Prelude.{
  ◌+◌, ◌≡◌, refl, true, false, [], ◌∷◌, ◌++◌, List, map, done, pos, arith,
}
use multiplexing_proxy.Memory.{Bytes, calloc, length-calloc}
use multiplexing_proxy.Platform.{Platform, IsLinux}
use multiplexing_proxy.EventProxy.Action.{
  Callback, Pointer, block, EventAction, reading, Call, Handled,
}
use multiplexing_proxy.EventProxy.Wire.{codes}
use multiplexing_proxy.EventProxy.Echo.{
  Received, Message, handle_client, arrives, handle_client_lem,
}
use multiplexing_proxy.EventProxy.Write.{wrote, failed, ServerAnswers, srvwrite, clwrite}
use multiplexing_proxy.EventProxy.Write.Server.{IsSending, srvwrite_complete}
use multiplexing_proxy.EventProxy.Write.Client.{clwrite_resends}

-- The error numbers of Linux, and an allocator whose blocks have eight bytes to spare.
abbrev pub linux : Platform
linux = record { eintr = 4; eagain = 11; ewouldblock = 11; malloc = λ n. calloc (n + 8) }

pub linux-IsLinux : IsLinux linux
linux-IsLinux = record {
  one_number = refl;
  interrupted = omega arith;
  grants = λ n. omega (arith, length-calloc (n + 8));
}

abbrev request : Bytes
request = codes "GET / HTTP/1.0"

abbrev sending : EventAction
sending = record {
  callback = Callback.srvwrite;
  clientfd = pos 5;
  serverfd = pos 6;
  total_bytes_passed = 0;
  total_data_size = 14;
  data_buf = block request;
  url = Pointer.null;
}

sending-IsSending : IsSending sending request
sending-IsSending = record {
  holds = refl;
  started = omega arith;
  inside = omega arith;
  small = omega arith;
}

abbrev first_event : ServerAnswers
first_event = record {
  errno = 0;
  writes = wrote 3 ∷ wrote 2 ∷ failed 11 ∷ [];
  deleted = pos 0;
  added = pos 0;
}

abbrev last_event : ServerAnswers
last_event = record { errno = 11; writes = wrote 9 ∷ wrote 0 ∷ []; deleted = pos 0; added = pos 0 }

abbrev whole_event : ServerAnswers
whole_event = record { errno = 0; writes = wrote 14 ∷ wrote 0 ∷ []; deleted = pos 0; added = pos 0 }

srvwrite_complete_example :
    (h : Handled) × (srvwrite linux whole_event sending ≡ done h)
    × (h.sent ≡ request)
    × (h.action ≡ record sending {
      data_buf = Pointer.null;
      total_data_size = 0;
      total_bytes_passed = 0;
      callback = Callback.srvread;
    })
    × (h.ends ≡ false)
    × (h.calls ≡ Call.free request ∷ Call.epoll_del (pos 6) ∷ Call.epoll_add (pos 6) reading ∷ [])
srvwrite_complete_example =
    srvwrite_complete linux whole_event sending sending-IsSending
      (record { stops = tt; fits = omega arith }) refl

clwrite_resends_example :
    (h : Handled) × (clwrite linux 0 (wrote 5 ∷ failed 11 ∷ wrote 10 ∷ wrote 0 ∷ []) sending
      ≡ done h)
    × (h.sent ≡ codes "GET // HTTP/1.0")
    × (h.action.total_bytes_passed ≡ 14)
    × (h.ends ≡ true)
clwrite_resends_example = clwrite_resends linux 0 11 4 9 sending sending-IsSending refl refl

abbrev hello : List Message
hello =
    record { first = b'h'; others = codes "ello"; taken = 5 }
    ∷ record { first = b'y'; others = codes "ou"; taken = 2 }
    ∷ []

echoes :
    handle_client linux [] (map arrives hello ++ Received.failed 11 ∷ [])
    ≡ done (1, codes "helloyo")
echoes = handle_client_lem linux hello (Received.failed 11) [] tt
