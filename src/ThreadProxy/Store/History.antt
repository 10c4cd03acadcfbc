-- ===== src/ThreadProxy/Store/History.antt =====
-- The cache against the history of what was stored, over any sequence of searches and stores: the
-- threads make them one at a time, in any order.
use multiplexing_proxy.Prelude.{
  ◌⊎◌, inl, inr, ℕ, zero, suc, ◌+◌, ◌-◌, ◌≡◌, refl, subst, List, [], ◌∷◌, length, replicate, Option,
  none, some, Result, done, ◌>>=◌, ltb, Bool-cases, Ensures, Ensures->>=, Ensures-seq, holds,
  faulted,
}
use multiplexing_proxy.Memory.{
  Bytes, c_str, strlen, slice, calloc, equal, equal-eq, strcpy-Ensures, c_str-split,
}
use multiplexing_proxy.EventProxy.Request.Locate.{slice_at}
use multiplexing_proxy.ThreadProxy.Store.{
  Entry, Store, search, fill, place, oldest, replace_entry, replace_oldest, store, max_cache_size,
  max_object_size, wirelen,
}
use multiplexing_proxy.ThreadProxy.Store.Found.{IsFor}

-- What a thread does to the cache: one search, or one store.
pub data Op : Type 0 where
  looks : (wanted buf2 : Bytes) (now : ℕ) → Op
  keeps : (blank : Entry) (cache_data req_wire : Bytes) (now : ℕ) → Op

unfoldable pub operate : Store → Op → Result Store
operate st (looks wanted buf2 now) = do
  (found, entries) ← search wanted buf2 now st.entries
  done (record st { entries = entries })
operate st (keeps blank cache_data req_wire now) = store st blank cache_data req_wire now

unfoldable pub operate_all : Store → List Op → Result Store
unfolding operate
operate_all st [] = done st
operate_all st (o ∷ ops) = operate st o >>= λ t. operate_all t ops

-- The cache that `main` leaves.
abbrev pub empty_store : ℕ → Store
empty_store n = record { entries = replicate n none; current = 0 }

-- One of the stores was of this response, for this request.
abbrev pub Stored : List Op → Bytes → Bytes → Type 0
Stored [] wire text = ⊥
Stored (looks wanted buf2 now ∷ ops) wire text = Stored ops wire text
Stored (keeps blank cache_data req_wire now ∷ ops) wire text =
    ((c_str req_wire ≡ done wire) × (c_str cache_data ≡ done text)) ⊎ Stored ops wire text

-- Entries of responses that `G` relates to their requests.
abbrev pub AllKnown : (Bytes → Bytes → Type 0) → List (Option Entry) → Type 0
AllKnown G [] = Unit
AllKnown G (none ∷ entries) = AllKnown G entries
AllKnown G (some e ∷ entries) =
    ((wire text : Bytes) × G wire text × IsFor e text wire) × AllKnown G entries

-- What a search finds.
abbrev pub KnownResult : (Bytes → Bytes → Type 0) → Bytes → Option (ℕ × Bytes) → Type 0
KnownResult G wanted none = Unit
KnownResult G wanted (some (size, copy)) =
    (text : Bytes) × G wanted text × (slice copy 0 size ≡ done text)

slice_string : (buf s : Bytes) → c_str buf ≡ done s → slice buf 0 (length s) ≡ done s
slice_string buf s q =
    let (rest, split) = c_str-split buf q in
    rw split (slice_at [] s (0 ∷ rest) 0 (length s) refl refl)

fill-Ensures :
    (old : Entry) (cache_data req_wire : Bytes) (now : ℕ)
    → Ensures
        (λ e.
          (wire text : Bytes) × (c_str req_wire ≡ done wire)
          × (c_str cache_data ≡ done text)
          × IsFor e text wire)
        (fill old cache_data req_wire now)
unfolding fill strlen
fill-Ensures old cache_data req_wire now =
    Ensures-seq (strcpy-Ensures old.content cache_data) λ content (text, given, held). rw given (
      Ensures-seq (strcpy-Ensures old.request req_wire) λ request (wire, asked, kept).
        holds (wire, text, asked, refl, record { size = refl; content = held; request = kept }))

module _ (G : Bytes → Bytes → Type 0) where
  pub search-Ensures :
      (wanted buf2 : Bytes) (now : ℕ) (entries : List (Option Entry))
      → AllKnown G entries
      → Ensures
          (λ (r : Option (ℕ × Bytes) × List (Option Entry)).
            KnownResult G wanted r.0 × AllKnown G r.1)
          (search wanted buf2 now entries)
  unfolding search
  search-Ensures wanted buf2 now [] h = holds (tt, tt)
  search-Ensures wanted buf2 now (none ∷ entries) h =
      Ensures-seq (search-Ensures wanted buf2 now entries h) λ r k. holds (k.0, k.1)
  search-Ensures wanted buf2 now (some e ∷ entries) ((wire, text, known, for), h) =
      rw for.request (elim (Bool-cases (equal wire wanted)) [
        | inl same ↦ rw same (
            Ensures-seq (strcpy-Ensures buf2 e.content) λ copy (s, given, held).
              let texts : s ≡ text = cc in
              holds (
                (
                  text,
                  subst (λ w. G w text) (equal-eq wire wanted same) known,
                  hit copy s held texts,
                ),
                (
                  (
                    wire,
                    text,
                    known,
                    record { size = for.size; content = for.content; request = for.request },
                  ),
                  h,
                ),
              ))
        | inr other ↦ rw other (
            Ensures-seq (search-Ensures wanted buf2 now entries h)
              λ r k. holds (k.0, ((wire, text, known, for), k.1)))
      ])
    where
      hit :
          (copy s : Bytes) → c_str copy ≡ done s → s ≡ text → slice copy 0 e.object_size ≡ done text
      hit copy s held texts = rw (for.size, ← texts) (slice_string copy s held)

  module _ (blank : Entry) (cache_data req_wire : Bytes) (now : ℕ)
      (told : (wire text : Bytes)
        → c_str req_wire ≡ done wire
        → c_str cache_data ≡ done text
        → G wire text) where
    place-Ensures :
        (entries : List (Option Entry))
        → AllKnown G entries
        → Ensures
            (λ (r : List (Option Entry) × ℕ). AllKnown G r.0)
            (place blank cache_data req_wire now entries)
    unfolding place
    place-Ensures [] h = holds tt
    place-Ensures (none ∷ entries) h =
        Ensures-seq (fill-Ensures blank cache_data req_wire now)
          λ e (wire, text, asked, given, for).
            holds ((wire, text, told wire text asked given, for), h)
    place-Ensures (some e ∷ entries) h =
        Ensures-seq (place-Ensures entries h.1) λ r k. holds (h.0, k)

    replace_entry-AllKnown :
        (entries : List (Option Entry)) (i : ℕ) (e : Entry)
        → AllKnown G entries
        → ((wire text : Bytes) × G wire text × IsFor e text wire)
        → AllKnown G (replace_entry entries i e)
    unfolding replace_entry
    replace_entry-AllKnown [] i e h k = tt
    replace_entry-AllKnown (none ∷ entries) zero e h k = (k, h)
    replace_entry-AllKnown (some b ∷ entries) zero e h k = (k, h.1)
    replace_entry-AllKnown (none ∷ entries) (suc i) e h k = replace_entry-AllKnown entries i e h k
    replace_entry-AllKnown (some b ∷ entries) (suc i) e h k =
        (h.0, replace_entry-AllKnown entries i e h.1 k)

    replace_oldest-Ensures :
        (st : Store)
        → AllKnown G st.entries
        → Ensures (λ t. AllKnown G t.entries) (replace_oldest st cache_data req_wire now)
    unfolding replace_oldest
    replace_oldest-Ensures st h = Ensures->>= (oldest 0 st.entries) λ p.
        Ensures-seq (fill-Ensures (cleared p.1) cache_data req_wire now)
          λ e (wire, text, asked, given, for).
            elim (Bool-cases (ltb max_cache_size (st.current - p.1.object_size + e.object_size))) [
              | inl over ↦ rw over faulted
              | inr fits ↦ rw fits (
                  holds (
                    replace_entry-AllKnown st.entries p.0 e h
                      (wire, text, told wire text asked given, for)))
            ]
      where
        cleared : Entry → Entry
        cleared old = record old { content = calloc max_object_size; request = calloc wirelen }

    pub store-Ensures :
        (st : Store)
        → AllKnown G st.entries
        → Ensures (λ t. AllKnown G t.entries) (store st blank cache_data req_wire now)
    unfolding store
    store-Ensures st h = Ensures->>= (strlen cache_data) λ size.
        elim (Bool-cases (ltb (st.current + size) max_cache_size)) [
          | inl room ↦ rw room (Ensures-seq (place-Ensures st.entries h) λ r k. holds k)
          | inr full ↦ rw full (replace_oldest-Ensures st h)
        ]

  pub operate_all-Ensures :
      (ops : List Op) (st : Store)
      → ((wire text : Bytes) → Stored ops wire text → G wire text)
      → AllKnown G st.entries
      → Ensures (λ t. AllKnown G t.entries) (operate_all st ops)
  unfolding operate_all operate
  operate_all-Ensures [] st told h = holds h
  operate_all-Ensures (looks wanted buf2 now ∷ ops) st told h =
      Ensures-seq (Ensures-seq (search-Ensures wanted buf2 now st.entries h) λ r k. holds k.1)
        λ t k. operate_all-Ensures ops t told k
  operate_all-Ensures (keeps blank cache_data req_wire now ∷ ops) st told h =
      Ensures-seq
        (store-Ensures blank cache_data req_wire now
          (λ wire text asked given. told wire text (inl (asked, given))) st h)
        λ t k. operate_all-Ensures ops t (λ wire text s. told wire text (inr s)) k

pub replicate-AllKnown : (G : Bytes → Bytes → Type 0) (n : ℕ) → AllKnown G (replicate n none)
replicate-AllKnown G zero = tt
replicate-AllKnown G (suc n) = replicate-AllKnown G n
