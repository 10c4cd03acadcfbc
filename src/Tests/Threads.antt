-- ===== src/Tests/Threads.antt =====
-- The threaded proxy at concrete inputs.
use multiplexing_proxy.Prelude.{
  Option, ◌⊎◌, ℕ, ◌≤◌, ◌<◌, ◌≡◌, refl, true, false, List, [], ◌∷◌, ◌++◌, done, ◌>>=◌, arith, none,
  some, get_elem?,
}
use multiplexing_proxy.Memory.{
  c_str, equal, calloc, length-calloc, Holds, terminated, calloc-Holds, strlen, strcpy,
}
use multiplexing_proxy.EventProxy.Wire.{codes}
use multiplexing_proxy.ThreadProxy.Sbuf.{Sbuf, insert, take_log, log_entries}
use multiplexing_proxy.ThreadProxy.Sbuf.Ring.{IsRing}
use multiplexing_proxy.ThreadProxy.Sbuf.Fifo.{
  IsQueue, Inserts, Removes, sbuf_refines, log_entry_lost,
}
use multiplexing_proxy.ThreadProxy.Store.{Entry, Store, place, store, max_object_size}
use multiplexing_proxy.ThreadProxy.Store.Oldest.{NoneBefore}
use multiplexing_proxy.ThreadProxy.Store.Account.{IsAccounted, store-IsAccounted}
use multiplexing_proxy.ThreadProxy.Lock.{
  outside, wants_w, reading, writing, locks, lock_in, count_in, take_w, unlock_in, lock_store,
  unlock_store, Threads, pick, Reach, start, later,
}
use multiplexing_proxy.ThreadProxy.Lock.Progress.{AllOutside, Advances, lock_progress}
use multiplexing_proxy.ThreadProxy.Lock.Exclusion.{tally, stores, searches, leaves, cache_exclusion}
use multiplexing_proxy.ThreadProxy.Store.Evict.{Evicts, store-Evicts}
use multiplexing_proxy.ThreadProxy.Store.Found.{Finds, store-search}
use multiplexing_proxy.ThreadProxy.Worker.{Round, serve, status_405}
use multiplexing_proxy.ThreadProxy.Worker.Replies.{serve_refuses}
use multiplexing_proxy.ThreadProxy.Relay.{Line, line, nothing, Relayed, relay}
use multiplexing_proxy.ThreadProxy.Relay.Copies.{relay_copies}

abbrev two_lines : List Line
two_lines = line b'H' (codes "i\r\n") ∷ line b'x' [] ∷ []

relay_copies_example :
    (t : Relayed) × (relay
        (calloc 100)
        (record { sent = []; cache_data = calloc max_object_size; offset = 0; too_big = false })
        (two_lines ++ nothing ∷ [])
      ≡ done t)
    × (t.sent ≡ codes "Hi\r\nx")
    × (((5 < max_object_size)
          × (t.too_big ≡ false)
          × Holds t.cache_data max_object_size (codes "Hi\r\nx"))
        ⊎ ((max_object_size ≤ 5) × (t.too_big ≡ true)))
relay_copies_example =
    relay_copies (calloc 100) two_lines [] (calloc max_object_size)
      (omega (arith, length-calloc 100)) (omega (arith, length-calloc 100))
      (calloc-Holds max_object_size (omega arith))

abbrev one_item : Sbuf ℕ
one_item = record { buf = 0 ∷ 9 ∷ []; n = 2; front = 0; rear = 1; mutex = 1; slots = 1; items = 1 }

one_item-IsQueue : IsQueue one_item (9 ∷ [])
one_item-IsQueue = record {
  some_room = omega arith;
  whole = refl;
  unlocked = refl;
  counted = refl;
  free = refl;
  ahead = refl;
  held = (refl, tt);
}

sbuf_refines_example : Inserts one_item 7 (9 ∷ []) × Removes one_item (9 ∷ [])
sbuf_refines_example = sbuf_refines one_item 7 (9 ∷ []) one_item-IsQueue (omega arith)

-- The log buffer of `main` with the entries 1, 2, 3 and 4 in it: none is taken yet.
abbrev four_entries : Sbuf ℕ
four_entries = record {
  buf = 4 ∷ 1 ∷ 2 ∷ 3 ∷ [];
  n = 4;
  front = 0;
  rear = 4;
  mutex = 1;
  slots = 12;
  items = 4;
}

four_entered :
    (insert (log_entries (0 ∷ 0 ∷ 0 ∷ 0 ∷ [])) 1 >>= λ s.
    insert s 2 >>= λ s. insert s 3 >>= λ s. insert s 4)
    ≡ done four_entries
unfolding insert log_entries
four_entered = refl

log_entry_lost_example :
    (t u : Sbuf ℕ) × (insert four_entries 5 ≡ done t)
    × (take_log t ≡ done (5, u))
    × IsRing u (2 ∷ 3 ∷ 4 ∷ 5 ∷ [])
log_entry_lost_example =
    log_entry_lost four_entries 5 1 (2 ∷ 3 ∷ 4 ∷ [])
      (record {
        some_room = omega arith;
        whole = refl;
        unlocked = refl;
        counted = refl;
        ahead = refl;
        held = (refl, (refl, (refl, (refl, tt))));
      })
      refl (omega arith) (omega arith)

abbrev entry_at : ℕ → Entry
entry_at t = record {
  object_size = 2;
  time_last_accessed = t;
  request = terminated (codes "GET");
  content = terminated (codes "hi");
}

abbrev two_ages : List (Option Entry)
two_ages = some (entry_at 9) ∷ none ∷ some (entry_at 4) ∷ []

abbrev before : Store
before = record { entries = some (entry_at 9) ∷ none ∷ []; current = 2 }

abbrev after : Store
after = record { entries = some (entry_at 9) ∷ some (entry_at 12) ∷ []; current = 4 }

abbrev blank : Entry
blank = record { object_size = 0; time_last_accessed = 0; request = calloc 4; content = calloc 3 }

stored : store before blank (terminated (codes "hi")) (terminated (codes "GET")) 12 ≡ done after
unfolding store place calloc strlen strcpy
stored = refl

store-IsAccounted_example : IsAccounted after
store-IsAccounted_example =
    store-IsAccounted before blank (terminated (codes "hi")) (terminated (codes "GET")) 12
      (record { sum = refl; within = omega arith }) stored

store-search_example :
    (t : Store) × (store before blank (terminated (codes "hi")) (terminated (codes "PUT")) 12
      ≡ done t)
    × (t.current ≡ 4)
    × Finds (codes "PUT") (calloc 64) 20 (codes "hi") t.entries
store-search_example =
    store-search blank (terminated (codes "hi")) (terminated (codes "PUT")) (calloc 64) 12 20
      {text = codes "hi"} {wire = codes "PUT"} (unfold c_str in refl) (unfold c_str in refl)
      (omega (arith, length-calloc 3)) (omega (arith, length-calloc 4))
      (omega (arith, length-calloc 64)) before (omega arith) tt
      ((codes "GET", (unfold c_str in refl), (unfold equal in refl)), tt)

abbrev round : Round
round = record {
  request_line = codes "PUT http://a.b/ HTTP/1.0\r\n";
  now = 0;
  server_opens = true;
  server_takes = true;
  lines = two_lines ++ nothing ∷ [];
  wire_stack = [];
  buf2 = calloc 100;
  blank = blank;
}

serve_refuses_example :
    serve round before ≡ done (record { sent = status_405; server = none; cache = before })
unfolding equal
serve_refuses_example = serve_refuses round before (omega arith) refl

-- Of two threads, one stores; the other waits for `w` and then searches.
abbrev one_reads : Threads
one_reads = record { shared = locks 1 0 1; phases = outside ∷ reading ∷ [] }

both : Reach 2 one_reads
both =
    later
      (later
        (later
          (later
            (later (later start (pick [] (outside ∷ []) lock_store))
              (pick (writing ∷ []) [] lock_in))
            (pick (writing ∷ []) [] count_in))
          (pick [] (wants_w ∷ []) unlock_store))
        (pick (outside ∷ []) [] take_w))
      (pick (outside ∷ []) [] unlock_in)

cache_exclusion_example :
    (tally stores one_reads.phases ≤ 1)
    × ((tally stores one_reads.phases ≡ 0) ⊎ (tally searches one_reads.phases ≡ 0))
    × (tally leaves one_reads.phases ≤ 1)
cache_exclusion_example = cache_exclusion both

abbrev full_store : Store
full_store = record {
  entries = none ∷ some (record (entry_at 9) { object_size = 1048999 }) ∷ [];
  current = 1048999;
}

store-Evicts_example :
    (i : ℕ) × (old : Entry) × (get_elem? full_store.entries i ≡ some (some old))
    × NoneBefore old.time_last_accessed full_store.entries
    × (old.object_size ≤ full_store.current)
    × Evicts full_store
        (store full_store blank (terminated (codes "hi")) (terminated (codes "PUT")) 12)
        (codes "hi")
        (codes "PUT")
        i
        old
store-Evicts_example =
    store-Evicts full_store blank (terminated (codes "hi")) (terminated (codes "PUT")) 12
      {text = codes "hi"} {wire = codes "PUT"} (unfold c_str in refl) (unfold c_str in refl)
      (omega arith) (omega arith) (record { sum = refl; within = omega arith }) (omega arith) tt

lock_progress_example : AllOutside one_reads.phases ⊎ ((u : Threads) × Advances one_reads u)
lock_progress_example = lock_progress both
