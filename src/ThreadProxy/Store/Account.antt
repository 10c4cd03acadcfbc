-- ===== src/ThreadProxy/Store/Account.antt =====
-- The size that the cache of httpProxy-master counts.
use multiplexing_proxy.Prelude.{
  ℕ, zero, suc, ◌+◌, ◌-◌, ◌≤◌, ◌<◌, ◌≡◌, refl, List, [], ◌∷◌, get_elem?, Option, none, some, done,
  fault, ◌>>=◌, ltb, if◌then◌else◌, arith, Ensures, holds, faulted, Ensures->>=, Ensures-seq,
  Ensures-value, Bool-cases, inl, inr, Ensures-known, Ensures-both, ltb→lt,
}
use multiplexing_proxy.Memory.{Bytes, strcpy, strlen, calloc}
use multiplexing_proxy.ThreadProxy.Store.Oldest.{oldest-Ensures}
use multiplexing_proxy.ThreadProxy.Store.{
  Entry, Store, fill, place, replace_entry, replace_oldest, store, max_cache_size, max_object_size,
  wirelen,
}

abbrev pub size_total : List (Option Entry) → ℕ
size_total [] = 0
size_total (none ∷ entries) = size_total entries
size_total (some e ∷ entries) = e.object_size + size_total entries

-- `currentCacheSize` is the sum of the entries' sizes, and within the limit.
pub record IsAccounted (st : Store) : Type 0 where
  pub sum : st.current ≡ size_total st.entries
  pub within : st.current ≤ max_cache_size

size_total-replace :
    (entries : List (Option Entry)) (i : ℕ) (old e : Entry)
    → get_elem? entries i ≡ some (some old)
    → size_total (replace_entry entries i e) + old.object_size ≡ size_total entries + e.object_size
unfolding replace_entry
size_total-replace [] i old e h = absurd (cc)
size_total-replace (none ∷ entries) zero old e h = absurd (cc)
size_total-replace (some b ∷ entries) zero old e h = ground arith
size_total-replace (none ∷ entries) (suc i) old e h = size_total-replace entries i old e h
size_total-replace (some b ∷ entries) (suc i) old e h =
    omega (arith, size_total-replace entries i old e h)

place_counts :
    (blank : Entry) (text wire : Bytes) (now : ℕ) (entries : List (Option Entry))
    → Ensures
        (λ (r : List (Option Entry) × ℕ). size_total r.0 ≡ size_total entries + r.1)
        (place blank text wire now entries)
unfolding place
place_counts blank text wire now [] = holds (omega arith)
place_counts blank text wire now (none ∷ entries) =
    Ensures->>= (fill blank text wire now) λ e. holds (omega arith)
place_counts blank text wire now (some e ∷ entries) =
    Ensures-seq (place_counts blank text wire now entries) λ r h. holds (omega (arith, h))

pub object_size-le :
    (entries : List (Option Entry)) (i : ℕ) (e : Entry)
    → get_elem? entries i ≡ some (some e)
    → e.object_size ≤ size_total entries
object_size-le [] i e h = absurd (cc)
object_size-le (none ∷ entries) zero e h = absurd (cc)
object_size-le (some b ∷ entries) zero e h = ground arith
object_size-le (none ∷ entries) (suc i) e h = object_size-le entries i e h
object_size-le (some b ∷ entries) (suc i) e h = omega (arith, object_size-le entries i e h)

-- A filled entry counts the length of its string.
fill_size :
    (blank : Entry) (text wire : Bytes) (now n : ℕ)
    → strlen text ≡ done n
    → Ensures (λ e. e.object_size ≡ n) (fill blank text wire now)
unfolding fill
fill_size blank text wire now n size =
    Ensures->>= (strcpy blank.content text)
      λ content. rw size (Ensures->>= (strcpy blank.request wire) λ request. holds refl)

place_adds :
    (blank : Entry) (text wire : Bytes) (now n : ℕ) (entries : List (Option Entry))
    → strlen text ≡ done n
    → Ensures (λ (r : List (Option Entry) × ℕ). r.1 ≤ n) (place blank text wire now entries)
unfolding place
place_adds blank text wire now n [] size = holds (omega arith)
place_adds blank text wire now n (none ∷ entries) size =
    Ensures-seq (fill_size blank text wire now n size) λ e h. holds (omega (arith, h))
place_adds blank text wire now n (some e ∷ entries) size =
    Ensures-seq (place_adds blank text wire now n entries size) λ r h. holds h

replace_oldest-IsAccounted :
    (st : Store) (text wire : Bytes) (now : ℕ)
    → IsAccounted st
    → Ensures IsAccounted (replace_oldest st text wire now)
unfolding replace_oldest
replace_oldest-IsAccounted st text wire now h =
    Ensures-seq (oldest-Ensures st.entries)
      λ p stands. Ensures->>= (fill (cleared p.1) text wire now) λ e. settle p e stands
  where
    cleared : Entry → Entry
    cleared old = record old { content = calloc max_object_size; request = calloc wirelen }

    settle :
        (p : ℕ × Entry) (e : Entry)
        → get_elem? st.entries p.0 ≡ some (some p.1)
        → Ensures IsAccounted (
            if ltb max_cache_size (st.current - p.1.object_size + e.object_size)
            then fault
            else done (record {
              entries = replace_entry st.entries p.0 e;
              current = st.current - p.1.object_size + e.object_size;
            }))
    settle p e stands =
        elim (Bool-cases (ltb max_cache_size (st.current - p.1.object_size + e.object_size))) [
          | inl over ↦ rw over faulted
          | inr fits ↦ rw fits (
              holds (record {
                sum = omega (
                  arith,
                  size_total-replace st.entries p.0 p.1 e stands,
                  object_size-le st.entries p.0 p.1 stands,
                  h.sum,
                );
                within = ground arith;
              }))
        ]

-- Placing a response in a free slot.
place-IsAccounted :
    (st : Store) (blank : Entry) (text wire : Bytes) (now n : ℕ)
    → IsAccounted st
    → strlen text ≡ done n
    → st.current + n < max_cache_size
    → Ensures IsAccounted (
        place blank text wire now st.entries >>= λ r.
        done (record { entries = r.0; current = st.current + r.1 }))
place-IsAccounted st blank text wire now n h size room =
    Ensures-seq
      (Ensures-both (place_counts blank text wire now st.entries)
        (place_adds blank text wire now n st.entries size))
      λ r p. holds (record { sum = omega (arith, p.0, h.sum); within = omega (arith, p.1) })

store-Ensures :
    (st : Store) (blank : Entry) (text wire : Bytes) (now : ℕ)
    → IsAccounted st
    → Ensures IsAccounted (store st blank text wire now)
unfolding store
store-Ensures st blank text wire now h = Ensures-known (strlen text) λ n size.
    elim (Bool-cases (ltb (st.current + n) max_cache_size)) [
      | inl room ↦ rw room (place-IsAccounted st blank text wire now n h size (ltb→lt _ _ room))
      | inr full ↦ rw full (replace_oldest-IsAccounted st text wire now h)
    ]

-- Storing a response, with or without eviction, keeps the count right and within the limit, in
-- every case in which it ends without a fault.
pub store-IsAccounted :
    (st : Store) (blank : Entry) (text wire : Bytes) (now : ℕ) {t : Store}
    → IsAccounted st
    → store st blank text wire now ≡ done t
    → IsAccounted t
store-IsAccounted st blank text wire now h ran =
    Ensures-value (store-Ensures st blank text wire now h) ran
