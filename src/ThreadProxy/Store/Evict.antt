-- ===== src/ThreadProxy/Store/Evict.antt =====
-- Storing a response in a cache that has no room for it.
use native.Mathlib.Decide.{dec_lt}
use multiplexing_proxy.Prelude.{
  ℕ, ◌+◌, ◌-◌, ◌≤◌, ◌<◌, ◌≡◌, length, some, Result, done, fault, arith, ◌⊎◌, inl, inr, lt→ltb,
  ¬lt→ltb, get_elem?,
}
use multiplexing_proxy.Memory.{Bytes, c_str, strlen, calloc, length-calloc}
use multiplexing_proxy.ThreadProxy.Store.{
  Entry, Store, replace_entry, replace_oldest, store, max_cache_size, max_object_size, wirelen,
}
use multiplexing_proxy.ThreadProxy.Store.Oldest.{NoneBefore, HasEntry, oldest_lem}
use multiplexing_proxy.ThreadProxy.Store.Account.{IsAccounted, object_size-le}
use multiplexing_proxy.ThreadProxy.Store.Found.{IsFor, filled}

-- What storing does once entry `old` at `i` is the one to go: it is replaced, or, where the total
-- is then too large, the code frees what it may not.
abbrev pub Evicts : Store → Result Store → Bytes → Bytes → ℕ → Entry → Type 0
Evicts st outcome text wire i old =
    ((st.current - old.object_size + length text ≤ max_cache_size)
      × (e : Entry) × IsFor e text wire
      × (outcome
          ≡ done (record {
            entries = replace_entry st.entries i e;
            current = st.current - old.object_size + length text;
          })))
    ⊎ ((max_cache_size < st.current - old.object_size + length text) × (outcome ≡ fault))

module _ (st : Store) (blank : Entry) (cache_data req_wire : Bytes) (now : ℕ) {text wire : Bytes}
    (given : c_str cache_data ≡ done text) (asked : c_str req_wire ≡ done wire)
    (room : length text < max_object_size) (space : length wire < wirelen) where
  -- If the response and the request are strings that fit into an entry, and the cache counts its
  -- entries rightly, has no room for the response and has an entry, then an entry is the one to go,
  -- of a size no larger than the total, that no other was used before. If the total without it and
  -- with the response is within MAX_CACHE_SIZE, the new entry, which holds the response and its
  -- length for the request, takes its place and that total is counted; otherwise the code faults.
  pub store-Evicts :
      IsAccounted st
      → max_cache_size ≤ st.current + length text
      → HasEntry st.entries
      → (i : ℕ) × (old : Entry) × (get_elem? st.entries i ≡ some (some old))
        × NoneBefore old.time_last_accessed st.entries
        × (old.object_size ≤ st.current)
        × Evicts st (store st blank cache_data req_wire now) text wire i old
  unfolding store replace_oldest strlen
  store-Evicts counted full there =
      let (i, old, chosen, stands, first) = oldest_lem st.entries there in
      let (e, ran, h) =
        filled (record old { content = calloc max_object_size; request = calloc wirelen })
          cache_data req_wire (calloc max_object_size) now 0 given asked
          (omega (arith, length-calloc max_object_size)) (omega (arith, length-calloc wirelen))
          (omega (arith, length-calloc max_object_size)) in
      let smaller : old.object_size ≤ st.current =
        omega (arith, object_size-le st.entries i old stands, counted.sum) in
      let none_left = ¬lt→ltb (st.current + length text) max_cache_size (λ lt. omega arith) in
      (
        i,
        old,
        stands,
        first,
        smaller,
        elim (dec_lt max_cache_size (st.current - old.object_size + length text)) [
          | yes over ↦ inr (
            over,
            rw given (rw none_left (rw chosen (rw ran (rw h.size (rw (lt→ltb _ _ over)))))),
          )
          | no fits ↦ inl (
            omega arith,
            e,
            h,
            rw given (rw none_left (rw chosen (rw ran (rw h.size (rw (¬lt→ltb _ _ fits)))))),
          )
        ],
      )
