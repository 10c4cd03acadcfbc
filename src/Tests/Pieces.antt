-- ===== src/Tests/Pieces.antt =====
-- Requests in pieces, at concrete inputs.
use multiplexing_proxy.Prelude.{[], pos, none}
use multiplexing_proxy.Memory.{calloc}
use multiplexing_proxy.EventProxy.Clread.{ClientAnswers, Stack}

abbrev env : ClientAnswers
env = record {
  reads = [];
  now = 0;
  addresses = none;
  nonblocking = pos 0;
  epoll_first = pos 0;
  epoll_second = pos 0;
}

abbrev stack : Stack
stack = record { temp = calloc 64; wire = []; buf2 = [] }
