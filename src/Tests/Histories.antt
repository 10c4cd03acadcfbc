-- ===== src/Tests/Histories.antt =====
-- A history of the cache of the threaded proxy, and two rounds on one cache, at concrete inputs.
use multiplexing_proxy.Prelude.{ℕ, ◌≡◌, refl, List, [], ◌∷◌, ◌++◌, done, none, some, arith, Ends}
use multiplexing_proxy.Memory.{Bytes, equal, c_str, strcpy, strlen, put, length-calloc}
use multiplexing_proxy.EventProxy.Wire.{codes}
use multiplexing_proxy.ThreadProxy.Store.{
  Entry, Store, search, store, place, fill, max_object_size, wirelen,
}
use multiplexing_proxy.ThreadProxy.Store.History.{
  Op, looks, keeps, operate, operate_all, empty_store, Stored,
}
use multiplexing_proxy.ThreadProxy.Worker.Genuine.{deliver_genuine}
use multiplexing_proxy.ThreadProxy.Worker.{Round, Reply, serve, deliver}
use multiplexing_proxy.ThreadProxy.Worker.Page.{page_wire}
use multiplexing_proxy.ThreadProxy.Worker.Twice.{serve_twice}
use multiplexing_proxy.ThreadProxy.Worker.Origins.{IsPlain}
use multiplexing_proxy.ThreadProxy.Worker.Session.{serve_all, AllOrigins, serve_all_genuine}
use multiplexing_proxy.ThreadProxy.Worker.Ends.{serve_all-Ends}
use multiplexing_proxy.Tests.Pages.{round, page_lines, no_entries, upper, lower}

-- A store of "GET a", and a search for it.
abbrev small_entry : Entry
small_entry = record {
  object_size = 0;
  time_last_accessed = 0;
  request = 9 ∷ 9 ∷ 9 ∷ 9 ∷ 9 ∷ 9 ∷ [];
  content = 9 ∷ 9 ∷ 9 ∷ 9 ∷ [];
}

abbrev history : List Op
history =
    looks (codes "GET a") (9 ∷ 9 ∷ []) 3
    ∷ keeps small_entry (codes "hi" ++ 0 ∷ []) (codes "GET a" ++ 0 ∷ []) 4
    ∷ []

abbrev asking : Round
asking = record (round b'G' b'E' b'T') { buf2 = 9 ∷ 9 ∷ 9 ∷ []; now = 5 }

abbrev one_kept : ℕ → Store
one_kept now = record {
  entries =
      some (record {
        object_size = 2;
        time_last_accessed = now;
        request = codes "GET a" ++ 0 ∷ [];
        content = codes "hi" ++ 0 ∷ 9 ∷ [];
      })
      ∷ none
      ∷ [];
  current = 2;
}

deliver_genuine_example :
    (text : Bytes) × Stored history (codes "GET a") text
    × (deliver asking
          (record (one_kept 4) { entries = (one_kept 5).entries })
          (codes "a", codes "80", codes "c")
          (codes "GET a")
          (some (2, codes "hi" ++ 0 ∷ []))
        ≡ done (record {
          sent = text;
          server = none;
          cache = record (one_kept 4) { entries = (one_kept 5).entries };
        }))
unfolding operate_all operate search store place fill strcpy c_str strlen equal put
deliver_genuine_example =
    deliver_genuine 2 history asking (codes "a", codes "80", codes "c") (codes "GET a")
      (codes "GET a") {st = one_kept 4} {size = 2} {copy = codes "hi" ++ 0 ∷ []}
      {entries = (one_kept 5).entries} refl refl

-- The page is asked for twice.
page_twice :
    (kept again : Store) × (serve (round b'G' b'E' b'T') no_entries
      ≡ done (record {
        sent = codes "HTTP/1.0 200 OK\r\n\r\nx";
        server = some (codes "a.b", codes "80", page_wire (codes "a.b") (codes "x HTTP/1.0"));
        cache = kept;
      }))
    × (serve (round b'g' b'e' b't') kept
        ≡ done (record { sent = codes "HTTP/1.0 200 OK\r\n\r\nx"; server = none; cache = again }))
    × (kept.current ≡ 20)
    × (again.current ≡ kept.current)
page_twice =
    serve_twice no_entries page_lines [] upper lower
      (record {
        opens = refl;
        takes = refl;
        given = refl;
        small = omega (arith, length-calloc 8192);
        text = omega (arith, length-calloc 8192);
      })
      (record {
        room = omega arith;
        free = tt;
        absent = tt;
        content_size = length-calloc max_object_size;
        request_size = length-calloc wirelen;
      })
      (omega arith) (omega (arith, length-calloc 8192))

plain : (a b c : ℕ) → IsPlain (round a b c)
plain a b c = record {
  lines = page_lines;
  later = [];
  given = refl;
  small = omega (arith, length-calloc 8192);
  text = omega (arith, length-calloc 8192);
}

abbrev first_reply : Reply
first_reply = record {
  sent = codes "HTTP/1.0 200 OK\r\n\r\nx";
  server = some (codes "a.b", codes "80", page_wire (codes "a.b") (codes "x HTTP/1.0"));
  cache = page_twice.0;
}

abbrev second_reply : Reply
second_reply = record {
  sent = codes "HTTP/1.0 200 OK\r\n\r\nx";
  server = none;
  cache = page_twice.1;
}

both_served :
    serve_all (empty_store 2) (round b'G' b'E' b'T' ∷ round b'g' b'e' b't' ∷ [])
    ≡ done (first_reply ∷ second_reply ∷ [])
unfolding serve_all
both_served = rw page_twice.2 (rw page_twice.3 refl)

serve_all_genuine_example :
    AllOrigins []
      (round b'G' b'E' b'T' ∷ round b'g' b'e' b't' ∷ [])
      (first_reply ∷ second_reply ∷ [])
serve_all_genuine_example =
    serve_all_genuine 2 (round b'G' b'E' b'T' ∷ round b'g' b'e' b't' ∷ [])
      (plain b'G' b'E' b'T', (plain b'g' b'e' b't', tt)) both_served

serve_all-Ends_example :
    Ends (serve_all no_entries (round b'G' b'E' b'T' ∷ round b'P' b'U' b'T' ∷ []))
serve_all-Ends_example =
    serve_all-Ends no_entries (round b'G' b'E' b'T' ∷ round b'P' b'U' b'T' ∷ []) (tt, (tt, tt))
