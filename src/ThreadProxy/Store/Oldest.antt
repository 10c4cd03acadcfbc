-- ===== src/ThreadProxy/Store/Oldest.antt =====
-- The entry that the cache of httpProxy-master evicts.
use mathlib.Core.List.{append_assoc}
use multiplexing_proxy.Prelude.{
  ℕ, ◌+◌, ◌≤◌, ◌≡◌, refl, sym, ◌∙◌, List, [], ◌∷◌, ◌++◌, length, get_elem?, Option, none, some,
  done, ltb, arith, Ensures, holds, faulted, Ensures-value, Bool-cases, inl, inr, length-append,
  ltb→lt, Ensures-map,
}
use multiplexing_proxy.ThreadProxy.Store.{Entry, oldest_from, oldest}

-- No entry was used before time `t`.
abbrev pub NoneBefore : ℕ → List (Option Entry) → Type 0
NoneBefore t [] = Unit
NoneBefore t (none ∷ entries) = NoneBefore t entries
NoneBefore t (some e ∷ entries) = (t ≤ e.time_last_accessed) × NoneBefore t entries

NoneBefore-le :
    (s t : ℕ) (entries : List (Option Entry)) → s ≤ t → NoneBefore t entries → NoneBefore s entries
NoneBefore-le s t [] le h = tt
NoneBefore-le s t (none ∷ entries) le h = NoneBefore-le s t entries le h
NoneBefore-le s t (some e ∷ entries) le h = (omega arith, NoneBefore-le s t entries le h.1)

get_elem?-append_length {ℓ} :
    {A : Type ℓ} (front : List A) (x : A) (xs : List A)
    → get_elem? (front ++ x ∷ xs) (length front) ≡ some x
get_elem?-append_length [] x xs = refl
get_elem?-append_length (y ∷ front) x xs = get_elem?-append_length front x xs

-- The entry `p.1` stands at `p.0`, and none of `entries` was used before it.
record IsOldest (all entries : List (Option Entry)) (p : ℕ × Entry) : Type 0 where
  stands : get_elem? all p.0 ≡ some (some p.1)
  none_before : NoneBefore p.1.time_last_accessed entries

record IsBetter (all entries : List (Option Entry)) (b : Entry) (p : ℕ × Entry) : Type 0 where
  found : IsOldest all entries p
  not_after : p.1.time_last_accessed ≤ b.time_last_accessed

-- The best entry so far stands in the array, and no later one is older than the result.
oldest_from_lem :
    (all front entries : List (Option Entry)) (i j : ℕ) (b : Entry)
    → all ≡ front ++ entries
    → i ≡ length front
    → get_elem? all j ≡ some (some b)
    → IsBetter all entries b (oldest_from i (j, b) entries)
unfolding oldest_from
oldest_from_lem all front [] i j b split at h = record {
  found = record { stands = h; none_before = tt };
  not_after = omega arith;
}
oldest_from_lem all front (none ∷ entries) i j b split at h =
    let r =
      oldest_from_lem all (front ++ none ∷ []) entries (i + 1) j b
        (split ∙ sym (append_assoc front (none ∷ []) entries))
        (omega (arith, length-append front (none ∷ []))) h in
    record {
      found = record { stands = r.found.stands; none_before = r.found.none_before };
      not_after = r.not_after;
    }
oldest_from_lem all front (some e ∷ entries) i j b split at h =
    elim (Bool-cases (ltb e.time_last_accessed b.time_last_accessed)) [
      | inl older ↦
          let r =
            oldest_from_lem all (front ++ some e ∷ []) entries (i + 1) i e split' at'
              (rw (split, at) (get_elem?-append_length front (some e) entries)) in
          rw older (record {
            found = record {
              stands = r.found.stands;
              none_before = (r.not_after, r.found.none_before);
            };
            not_after = omega (arith, r.not_after, ltb→lt _ _ older);
          })
      | inr newer ↦
          let r = oldest_from_lem all (front ++ some e ∷ []) entries (i + 1) j b split' at' h in
          rw newer (record {
            found = record {
              stands = r.found.stands;
              none_before = (ground (arith, r.not_after), r.found.none_before);
            };
            not_after = r.not_after;
          })
    ]
  where
    split' : all ≡ (front ++ some e ∷ []) ++ entries
    split' = split ∙ sym (append_assoc front (some e ∷ []) entries)

    at' : i + 1 ≡ length (front ++ some e ∷ [])
    at' = omega (arith, length-append front (some e ∷ []))

oldest-IsOldest :
    (all front entries : List (Option Entry)) (i : ℕ)
    → all ≡ front ++ entries
    → i ≡ length front
    → Ensures (IsOldest all entries) (oldest i entries)
unfolding oldest
oldest-IsOldest all front [] i split at = faulted
oldest-IsOldest all front (none ∷ entries) i split at =
    Ensures-map (λ p h. record { stands = h.stands; none_before = h.none_before })
      (oldest-IsOldest all (front ++ none ∷ []) entries (i + 1)
        (split ∙ sym (append_assoc front (none ∷ []) entries))
        (omega (arith, length-append front (none ∷ []))))
oldest-IsOldest all front (some e ∷ entries) i split at =
    let r =
      oldest_from_lem all (front ++ some e ∷ []) entries (i + 1) i e
        (split ∙ sym (append_assoc front (some e ∷ []) entries))
        (omega (arith, length-append front (some e ∷ [])))
        (rw (split, at) (get_elem?-append_length front (some e) entries)) in
    holds (record { stands = r.found.stands; none_before = (r.not_after, r.found.none_before) })

-- The cache has an entry.
abbrev pub HasEntry : List (Option Entry) → Type 0
HasEntry [] = ⊥
HasEntry (none ∷ entries) = HasEntry entries
HasEntry (some e ∷ entries) = Unit

oldest-done :
    (i : ℕ) (entries : List (Option Entry))
    → HasEntry entries
    → (p : ℕ × Entry) × (oldest i entries ≡ done p)
unfolding oldest
oldest-done i [] h = absurd h
oldest-done i (none ∷ entries) h = oldest-done (i + 1) entries h
oldest-done i (some e ∷ entries) h = (oldest_from (i + 1) (i, e) entries, refl)

-- If the cache has an entry, one is chosen for eviction: it is in the cache at the index found, and
-- no entry of the cache was used before it.
pub oldest_lem :
    (entries : List (Option Entry))
    → HasEntry entries
    → (i : ℕ) × (e : Entry) × (oldest 0 entries ≡ done (i, e))
      × (get_elem? entries i ≡ some (some e))
      × NoneBefore e.time_last_accessed entries
oldest_lem entries there =
    let (p, found) = oldest-done 0 entries there in
    let h = Ensures-value (oldest-IsOldest entries [] entries 0 refl refl) found in
    (p.0, p.1, found, h.stands, h.none_before)

pub oldest-Ensures :
    (entries : List (Option Entry))
    → Ensures (λ (p : ℕ × Entry). get_elem? entries p.0 ≡ some (some p.1)) (oldest 0 entries)
oldest-Ensures entries =
    Ensures-map (λ p h. h.stands) (oldest-IsOldest entries [] entries 0 refl refl)
