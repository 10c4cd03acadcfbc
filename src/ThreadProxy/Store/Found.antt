-- ===== src/ThreadProxy/Store/Found.antt =====
-- Searching for a response after storing it.
use multiplexing_proxy.Prelude.{
  ℕ, ◌+◌, ◌<◌, ◌≡◌, refl, true, false, List, [], ◌∷◌, length, Option, none, some, done, arith,
  lt→ltb,
}
use multiplexing_proxy.Memory.{Bytes, c_str, strlen, equal, Holds, strcpy-Holds}
use multiplexing_proxy.ThreadProxy.Store.{Entry, Store, search, fill, place, store, max_cache_size}

-- Some slot is free.
abbrev pub HasFree : List (Option Entry) → Type 0
HasFree [] = ⊥
HasFree (none ∷ entries) = Unit
HasFree (some e ∷ entries) = HasFree entries

-- No entry is for this request.
abbrev pub Absent : Bytes → List (Option Entry) → Type 0
Absent wire [] = Unit
Absent wire (none ∷ entries) = Absent wire entries
Absent wire (some e ∷ entries) =
    ((key : Bytes) × (c_str e.request ≡ done key) × (equal key wire ≡ false)) × Absent wire entries

equal_refl : (s : Bytes) → equal s s ≡ true
unfolding equal
equal_refl [] = refl
equal_refl (c ∷ s) = ground (arith, equal_refl s)

-- An entry that holds this response for this request.
pub record IsFor (e : Entry) (text wire : Bytes) : Type 0 where
  pub size : e.object_size ≡ length text
  pub content : c_str e.content ≡ done text
  pub request : c_str e.request ≡ done wire

-- A search for the request succeeds, with the length and a copy of the response.
abbrev pub Finds : Bytes → Bytes → ℕ → Bytes → List (Option Entry) → Type 0
Finds wire buf2 later text entries =
    (copy : Bytes) × (r : List (Option Entry)) × (search wire buf2 later entries
      ≡ done (some (length text, copy), r))
    × Holds copy (length buf2) text

module _ (blank : Entry) (cache_data req_wire buf2 : Bytes) (now later : ℕ) {text wire : Bytes}
    (given : c_str cache_data ≡ done text) (asked : c_str req_wire ≡ done wire)
    (room : length text < length blank.content) (space : length wire < length blank.request)
    (short : length text < length buf2) where
  pub filled : (e : Entry) × (fill blank cache_data req_wire now ≡ done e) × IsFor e text wire
  unfolding fill strlen
  filled =
      let (content, copied, held) = strcpy-Holds blank.content cache_data refl given room in
      let (request, kept, wanted) = strcpy-Holds blank.request req_wire refl asked space in
      (
        record {
          object_size = length text;
          time_last_accessed = now;
          request = request;
          content = content;
        },
        rw copied (rw given (rw kept)),
        record { size = refl; content = held.text; request = wanted.text },
      )

  hit :
      (e : Entry) (entries : List (Option Entry))
      → IsFor e text wire
      → Finds wire buf2 later text (some e ∷ entries)
  unfolding search
  hit e entries h =
      let (copy, copied, held) = strcpy-Holds buf2 e.content refl h.content short in
      (
        copy,
        some (record e { time_last_accessed = later }) ∷ entries,
        rw (h.request, equal_refl wire, copied, h.size),
        held,
      )

  miss :
      (e : Entry) (key : Bytes) (entries : List (Option Entry))
      → c_str e.request ≡ done key
      → equal key wire ≡ false
      → Finds wire buf2 later text entries
      → Finds wire buf2 later text (some e ∷ entries)
  unfolding search
  miss e key entries q other (copy, r, found, held) = (copy, some e ∷ r, rw (q, other, found), held)

  place_found :
      (entries : List (Option Entry))
      → HasFree entries
      → Absent wire entries
      → (r : List (Option Entry)) × (place blank cache_data req_wire now entries
          ≡ done (r, length text))
        × Finds wire buf2 later text r
  unfolding place
  place_found [] free absent = absurd free
  place_found (none ∷ entries) free absent =
      let (e, ran, h) = filled in (some e ∷ entries, rw ran (rw h.size), hit e entries h)
  place_found (some e ∷ entries) free ((key, q, other), absent) =
      let (r, ran, found) = place_found entries free absent in
      (some e ∷ r, rw ran, miss e key r q other found)

  -- If the response and the request are strings that fit into an entry, the cache counts enough
  -- room for the response and has a free slot, and no entry is for the request, then storing
  -- succeeds and counts the response's length, and a later search for the request finds the
  -- response: its length, and a copy of its text.
  pub store-search :
      (st : Store)
      → st.current + length text < max_cache_size
      → HasFree st.entries
      → Absent wire st.entries
      → (t : Store) × (store st blank cache_data req_wire now ≡ done t)
        × (t.current ≡ st.current + length text)
        × Finds wire buf2 later text t.entries
  unfolding store strlen
  store-search st below free absent =
      let (r, ran, found) = place_found st.entries free absent in
      (
        record { entries = r; current = st.current + length text },
        rw given (rw (lt→ltb (st.current + length text) max_cache_size below) (rw ran)),
        refl,
        found,
      )
