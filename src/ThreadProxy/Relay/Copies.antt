-- ===== src/ThreadProxy/Relay/Copies.antt =====
-- What the relay sends, and what it keeps for the cache.
use mathlib.Core.List.{append_assoc, append-nil}
use native.Mathlib.Decide.{dec_lt}
use multiplexing_proxy.Prelude.{
  ℕ, suc, ◌+◌, ◌^◌, ◌≤◌, ◌<◌, ◌≡◌, refl, sym, ap, ◌∙◌, true, false, not, ◌&&◌, List, [], ◌∷◌, ◌++◌,
  length, drop, done, ltb, arith, add64, length-append, length-drop, drop-length-append,
  take-length-append, subst, lt→ltb, ¬lt→ltb, ◌⊎◌, inl, inr,
}
use multiplexing_proxy.Memory.{
  Bytes, c_str, put, terminated, Holds, IsText, c_str-split, c_str-IsText, c_str-prepend,
  strcat-Holds, put-drop, c_str-append,
}
use multiplexing_proxy.ThreadProxy.Store.{max_object_size}
use multiplexing_proxy.ThreadProxy.Relay.{
  Line, line, nothing, failed, Relayed, append_at, relay_line, relay,
}

-- Appending at the end of the copy extends it.
append_at-Holds :
    (cache buf2 : Bytes) {n : ℕ} {d s : Bytes}
    → Holds cache n d
    → c_str buf2 ≡ done s
    → length d + length s < n
    → (r : Bytes) × (append_at cache (length d) buf2 ≡ done r) × Holds r n (d ++ s)
unfolding append_at
append_at-Holds cache buf2 {n} {d} {s} h q fits =
    let (rest, split) = c_str-split cache h.text in
    let total : length cache ≡ length d + suc (length rest) =
      ap length split ∙ length-append d (0 ∷ rest) in
    let (r, ran, held) =
      strcat-Holds (0 ∷ rest) buf2 {n = suc (length rest)} {d = []}
        (record { size = refl; text = unfold c_str in refl }) q (omega (arith, total, h.size)) in
    (
      d ++ r,
      rw split (rw (drop-length-append d (0 ∷ rest), take-length-append d (0 ∷ rest)) (rw ran)),
      record {
        size = omega (arith, length-append d r, held.size, total, h.size);
        text = c_str-prepend d r (c_str-IsText cache h.text) held.text;
      },
    )

-- Lines that are strings and fit into `buf2`.
abbrev pub AllText : ℕ → List Line → Type 0
AllText n [] = Unit
AllText n (line c cs ∷ lines) = IsText (c ∷ cs) × (suc (length cs) < n) × AllText n lines
AllText n (nothing ∷ lines) = ⊥
AllText n (failed stored ∷ lines) = ⊥

-- Their bytes.
abbrev pub all_bytes : List Line → Bytes
all_bytes [] = []
all_bytes (line c cs ∷ lines) = (c ∷ cs) ++ all_bytes lines
all_bytes (nothing ∷ lines) = []
all_bytes (failed stored ∷ lines) = []

-- The copy holds `d`, and it ends at `offset`; or it was given up.
pub record IsCopying (r : Relayed) (d : Bytes) : Type 0 where
  pub copy : Holds r.cache_data max_object_size d
  pub at_end : r.offset ≡ length d
  pub keeping : r.too_big ≡ false

relay_line-keeps :
    (s back : Bytes) (r : Relayed) {d : Bytes}
    → IsCopying r d
    → IsText s
    → length d + length s < max_object_size
    → (t : Relayed) × (relay_line (s ++ 0 ∷ back) (length s) r ≡ done t)
      × (t.sent ≡ r.sent ++ s)
      × IsCopying t (d ++ s)
unfolding relay_line
relay_line-keeps s back r {d} h ok fits =
    let (longer, ran, held) =
      append_at-Holds r.cache_data (s ++ 0 ∷ back) h.copy (c_str-append s back ok) fits in
    (
      record {
        sent = r.sent ++ s;
        cache_data = longer;
        offset = length d + length s;
        too_big = false;
      },
      rw (h.keeping, h.at_end)
          (rw (no_wrap, lt→ltb (length d + length s) max_object_size fits)
            (rw ran (rw (take-length-append s (0 ∷ back))))),
      refl,
      record { copy = held; at_end = sym (length-append d s); keeping = refl },
    )
  where
    no_wrap : add64 (length d) (length s) ≡ length d + length s
    no_wrap = omega arith

-- A line that does not fit, and every line after it, is only sent.
relay_line-skips :
    (s back : Bytes) (r : Relayed)
    → (not r.too_big && ltb (add64 r.offset (length s)) max_object_size) ≡ false
    → relay_line (s ++ 0 ∷ back) (length s) r
      ≡ done (record r { sent = r.sent ++ s; too_big = true })
unfolding relay_line
relay_line-skips s back r skip = rw skip (rw (take-length-append s (0 ∷ back)))

-- `buf2` after `Rio_readlineb`.
put_line :
    (buf2 s : Bytes)
    → suc (length s) ≤ length buf2
    → (back : Bytes) × (put buf2 (terminated s) ≡ done (s ++ 0 ∷ back))
      × (length (s ++ 0 ∷ back) ≡ length buf2)
put_line buf2 s room = (
  drop (length (terminated s)) buf2,
  put-drop buf2 (terminated s) (omega (arith, length-append s (0 ∷ [])))
      ∙ ap done (append_assoc s (0 ∷ []) (drop (length (terminated s)) buf2)),
  omega (
    arith,
    length-append s (0 ∷ drop (length (terminated s)) buf2),
    length-append s (0 ∷ []),
    length-drop (length (terminated s)) buf2,
  ),
)

relay_keeps :
    (buf2 : Bytes) (lines later : List Line) (r : Relayed) (d : Bytes) {n : ℕ}
    → length buf2 ≡ n
    → AllText n lines
    → IsCopying r d
    → length d + length (all_bytes lines) < max_object_size
    → (t : Relayed) × (relay buf2 r (lines ++ nothing ∷ later) ≡ done t)
      × (t.sent ≡ r.sent ++ all_bytes lines)
      × IsCopying t (d ++ all_bytes lines)
unfolding relay
relay_keeps buf2 [] later r d size ok h fits =
    (r, refl, sym (append-nil r.sent), rw (append-nil d) h)
relay_keeps buf2 (nothing ∷ lines) later r d size ok h fits = absurd ok
relay_keeps buf2 (failed stored ∷ lines) later r d size ok h fits = absurd ok
relay_keeps buf2 (line c cs ∷ lines) later r d size (text, short, ok) h fits =
    let (back, stored, same) = put_line buf2 (c ∷ cs) (omega arith) in
    let grown = length-append (c ∷ cs) (all_bytes lines) in
    let (u, ran, sent, copying) = relay_line-keeps (c ∷ cs) back r h text (omega (arith, grown)) in
    let (t, rest, all, kept) =
      relay_keeps ((c ∷ cs) ++ 0 ∷ back) lines later u (d ++ (c ∷ cs)) (same ∙ size) ok copying
        (omega (arith, length-append d (c ∷ cs), grown)) in
    (
      t,
      rw stored (rw ran rest),
      all ∙ rw (sent, append_assoc),
      subst (IsCopying t) (append_assoc d (c ∷ cs) (all_bytes lines)) kept,
    )

relay_gives_up :
    (buf2 : Bytes) (lines later : List Line) (r : Relayed) {n : ℕ}
    → length buf2 ≡ n
    → AllText n lines
    → r.too_big ≡ true
    → (t : Relayed) × (relay buf2 r (lines ++ nothing ∷ later) ≡ done t)
      × (t.sent ≡ r.sent ++ all_bytes lines)
      × (t.too_big ≡ true)
unfolding relay
relay_gives_up buf2 [] later r size ok big = (r, refl, sym (append-nil r.sent), big)
relay_gives_up buf2 (nothing ∷ lines) later r size ok big = absurd ok
relay_gives_up buf2 (failed stored ∷ lines) later r size ok big = absurd ok
relay_gives_up buf2 (line c cs ∷ lines) later r size (text, short, ok) big =
    let (back, stored, same) = put_line buf2 (c ∷ cs) (omega arith) in
    let (t, rest, all, still) =
      relay_gives_up ((c ∷ cs) ++ 0 ∷ back) lines later
        (record r { sent = r.sent ++ (c ∷ cs); too_big = true }) (same ∙ size) ok refl in
    (
      t,
      rw stored (rw (relay_line-skips (c ∷ cs) back r (rw big)) rest),
      all ∙ append_assoc r.sent (c ∷ cs) (all_bytes lines),
      still,
    )

too_long :
    (n : ℕ) (r : Relayed) {d : Bytes}
    → IsCopying r d
    → length d + n < 2 ^ 64
    → ¬ (length d + n < max_object_size)
    → (not r.too_big && ltb (add64 r.offset n) max_object_size) ≡ false
too_long n r {d} h small full =
    let no_wrap : add64 (length d) n ≡ length d + n = omega arith in
    rw (h.keeping, h.at_end) (rw no_wrap (¬lt→ltb (length d + n) max_object_size full))

relay_overflows :
    (buf2 : Bytes) (lines later : List Line) (r : Relayed) (d : Bytes) {n : ℕ}
    → length buf2 ≡ n
    → n < 2 ^ 32
    → AllText n lines
    → IsCopying r d
    → length d < max_object_size
    → max_object_size ≤ length d + length (all_bytes lines)
    → (t : Relayed) × (relay buf2 r (lines ++ nothing ∷ later) ≡ done t)
      × (t.sent ≡ r.sent ++ all_bytes lines)
      × (t.too_big ≡ true)
unfolding relay
relay_overflows buf2 [] later r d size small ok h below over = absurd (omega arith)
relay_overflows buf2 (nothing ∷ lines) later r d size small ok h below over = absurd ok
relay_overflows buf2 (failed stored ∷ lines) later r d size small ok h below over = absurd ok
relay_overflows buf2 (line c cs ∷ lines) later r d size small (text, short, ok) h below over =
    let (back, stored, same) = put_line buf2 (c ∷ cs) (omega arith) in
    let grown = length-append (c ∷ cs) (all_bytes lines) in
    elim (dec_lt (length d + suc (length cs)) max_object_size) [
      | yes fits ↦
          let (u, ran, sent, copying) = relay_line-keeps (c ∷ cs) back r h text fits in
          let longer = length-append d (c ∷ cs) in
          let (t, rest, all, big) =
            relay_overflows ((c ∷ cs) ++ 0 ∷ back) lines later u (d ++ (c ∷ cs)) (same ∙ size) small
              ok copying (omega (arith, longer)) (omega (arith, longer, grown)) in
          (t, rw stored (rw ran rest), all ∙ rw (sent, append_assoc), big)
      | no full ↦
          let (t, rest, all, big) =
            relay_gives_up ((c ∷ cs) ++ 0 ∷ back) lines later
              (record r { sent = r.sent ++ (c ∷ cs); too_big = true }) (same ∙ size) ok refl in
          (
            t,
            rw stored (
                rw
                  (relay_line-skips (c ∷ cs) back r (
                    too_long (suc (length cs)) r h (omega (arith, small, short, size, below)) full))
                  rest),
            all ∙ append_assoc r.sent (c ∷ cs) (all_bytes lines),
            big,
          )
    ]

-- A response of lines that are strings and fit into `buf2` goes to the client byte for byte, and
-- the loop ends at the end of the stream. If the response has fewer than MAX_OBJECT_SIZE bytes,
-- `cacheData` then holds exactly it and `tooBig` is false; otherwise `tooBig` is true.
pub relay_copies :
    (buf2 : Bytes) (lines later : List Line) (cache_data : Bytes)
    → length buf2 < 2 ^ 32
    → AllText (length buf2) lines
    → Holds cache_data max_object_size []
    → (t : Relayed) × (relay buf2
          (record { sent = []; cache_data = cache_data; offset = 0; too_big = false })
          (lines ++ nothing ∷ later)
        ≡ done t)
      × (t.sent ≡ all_bytes lines)
      × (((length (all_bytes lines) < max_object_size)
            × (t.too_big ≡ false)
            × Holds t.cache_data max_object_size (all_bytes lines))
          ⊎ ((max_object_size ≤ length (all_bytes lines)) × (t.too_big ≡ true)))
relay_copies buf2 lines later cache_data small ok empty =
    elim (dec_lt (length (all_bytes lines)) max_object_size) [
      | yes fits ↦
          let (t, ran, sent, copying) =
            relay_keeps buf2 lines later start [] refl ok fresh (omega arith) in
          (t, ran, sent, inl (fits, copying.keeping, copying.copy))
      | no over ↦
          let (t, ran, sent, big) =
            relay_overflows buf2 lines later start [] refl small ok fresh (omega arith)
              (omega arith) in
          (t, ran, sent, inr (omega arith, big))
    ]
  where
    start : Relayed
    start = record { sent = []; cache_data = cache_data; offset = 0; too_big = false }

    fresh : IsCopying start []
    fresh = record { copy = empty; at_end = refl; keeping = refl }
