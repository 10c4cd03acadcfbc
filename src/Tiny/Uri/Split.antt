-- ===== src/Tiny/Uri/Split.antt =====
-- What `parse_uri` makes of a URI.
use mathlib.Core.List.{append_assoc, append-nil}
use multiplexing_proxy.Prelude.{
  ℕ, ◌+◌, ◌<◌, ◌≡◌, ◌≢◌, refl, sym, ap, ◌∙◌, true, false, not, [], ◌∷◌, ◌++◌, length, drop, some,
  done, ◌==◌, if◌then◌else◌, arith, length-append, drop-length-append, Bool-cases, inl, inr,
}
use multiplexing_proxy.Memory.{
  Bytes, c_str, put, strcat, contains, terminated, Holds, IsText, IsText-append, c_str-append,
  strcpy-Holds, strcat-Holds, put_at-append,
}
use multiplexing_proxy.EventProxy.Wire.{codes}
use multiplexing_proxy.Tiny.Uri.{index, Parsed, cut_at, cut_query, ends_in_slash, parse_uri}

-- No byte is a '?'.
abbrev pub NoQuery : Bytes → Type 0
NoQuery [] = Unit
NoQuery (c ∷ s) = (c ≢ b'?') × NoQuery s

-- The last byte of a text that begins with `c`.
abbrev pub last_byte : ℕ → Bytes → ℕ
last_byte c [] = c
last_byte c (d ∷ s) = last_byte d s

-- The file for a path: "." and the path, and "home.html" behind a last slash, unless it is a
-- program.
abbrev pub file_name : ℕ → Bytes → Bytes
file_name c path =
    (codes "." ++ (c ∷ path))
    ++ (if contains (c ∷ path) (codes "cgi-bin")
        then []
        else if last_byte c path == b'/'
        then codes "home.html"
        else [])

index_lem :
    (path tail : Bytes) → NoQuery path → index (path ++ b'?' ∷ tail) b'?' ≡ some (length path)
unfolding index
index_lem [] tail h = refl
index_lem (c ∷ path) tail h = ground (arith, index_lem path tail h.1)

ends_in_slash_lem :
    (c : ℕ) (path : Bytes) → ends_in_slash (c ∷ path) ≡ done (last_byte c path == b'/')
unfolding ends_in_slash
ends_in_slash_lem c [] = refl
ends_in_slash_lem c (d ∷ path) = ends_in_slash_lem d path

-- The URI with its query, as `doit` leaves it in `uri`, and what is left of it.
abbrev pub with_query : Bytes → Bytes → Bytes → Bytes
with_query path query rest = path ++ b'?' ∷ (query ++ 0 ∷ rest)

abbrev pub without_query : Bytes → Bytes → Bytes → Bytes
without_query path query rest = path ++ 0 ∷ (query ++ 0 ∷ rest)

cut_query_lem :
    (path query rest cgiargs : Bytes) {m : ℕ}
    → IsText path
    → IsText query
    → NoQuery path
    → length cgiargs ≡ m
    → length query < m
    → (args : Bytes) × (cut_query (with_query path query rest) cgiargs
        ≡ done (without_query path query rest, args))
      × Holds args m query
unfolding cut_query cut_at put
cut_query_lem path query rest cgiargs okp okq plain size fits =
    let (args, copied, held) =
      strcpy-Holds cgiargs (query ++ 0 ∷ rest) size (c_str-append query rest okq) fits in
    (
      args,
      rw text
          (rw (index_lem path query plain) (rw (behind) (rw copied (rw (put_at-append path _ _))))),
      held,
    )
  where
    text : c_str (with_query path query rest) ≡ done (path ++ b'?' ∷ query)
    text =
        ap c_str (sym (append_assoc path (b'?' ∷ query) (0 ∷ rest)))
        ∙ c_str-append (path ++ b'?' ∷ query) rest
            (IsText-append path (b'?' ∷ query) okp (omega arith, okq))

    behind : drop (length path + 1) (with_query path query rest) ≡ query ++ 0 ∷ rest
    behind =
        rw (← length-append path (b'?' ∷ []), ← append_assoc path (b'?' ∷ []) (query ++ 0 ∷ rest))
          (drop-length-append (path ++ b'?' ∷ []) (query ++ 0 ∷ rest))

-- What `strstr` and the test for a slash add to the name.
name_suffix :
    (c : ℕ) (path name : Bytes) {n : ℕ}
    → Holds name n (codes "." ++ (c ∷ path))
    → length path + 11 < n
    → contains (c ∷ path) (codes "cgi-bin") ≡ false
    → (r : Bytes) × ((if last_byte c path == b'/'
          then strcat name (terminated (codes "home.html"))
          else done name)
        ≡ done r)
      × Holds r n (file_name c path)
name_suffix c path name h fits plain = elim (Bool-cases (last_byte c path == b'/')) [
  | inl slash ↦
      let (r, ran, held) =
        strcat-Holds name (terminated (codes "home.html")) h
          (c_str-append (codes "home.html") [] (omega arith)) (omega arith) in
      (r, rw slash ran, rw (plain, slash) held)
  | inr other ↦ (name, rw other, rw (plain, other, append-nil) h)
]

-- For a URI with a path and a query that are strings and fit their objects, where the path has no
-- '?': the file name is "." and the path, with "home.html" behind a path that ends in a slash and
-- does not name a program; `cgiargs` is the query; `uri` is cut at the '?'; and the content is
-- static exactly if the path does not have "cgi-bin" in it.
pub parse_uri_lem :
    (c : ℕ) (path query rest filename cgiargs : Bytes) {n m : ℕ}
    → IsText (c ∷ path)
    → IsText query
    → NoQuery (c ∷ path)
    → length filename ≡ n
    → length path + 11 < n
    → length cgiargs ≡ m
    → length query < m
    → (p : Parsed) × (parse_uri (with_query (c ∷ path) query rest) filename cgiargs ≡ done p)
      × Holds p.filename n (file_name c path)
      × Holds p.cgiargs m query
      × (p.uri ≡ without_query (c ∷ path) query rest)
      × (p.is_static ≡ not (contains (c ∷ path) (codes "cgi-bin")))
unfolding parse_uri
parse_uri_lem c path query rest filename cgiargs okp okq plain size fits size' fits' =
    let (args, cut, held') =
      cut_query_lem (c ∷ path) query rest cgiargs okp okq plain size' fits' in
    let whole = c_str-append (c ∷ path) (query ++ 0 ∷ rest) okp in
    let (dot, dotted, one) =
      strcpy-Holds filename (terminated (codes ".")) size
        (c_str-append (codes ".") [] (omega arith)) (omega arith) in
    let (name, named, held) =
      strcat-Holds dot (without_query (c ∷ path) query rest) one whole (omega arith) in
    elim (Bool-cases (contains (c ∷ path) (codes "cgi-bin"))) [
      | inl program ↦ (
        record {
          uri = without_query (c ∷ path) query rest;
          filename = name;
          cgiargs = args;
          is_static = false;
        },
        rw cut (rw dotted (rw named (rw whole (rw program)))),
        rw (program, append-nil) held,
        held',
        refl,
        rw program,
      )
      | inr page ↦
          let (r, ran, all) = name_suffix c path name held fits page in
          (
            record {
              uri = without_query (c ∷ path) query rest;
              filename = r;
              cgiargs = args;
              is_static = true;
            },
            rw cut (
                rw dotted (rw named (rw whole (rw page (rw (ends_in_slash_lem c path) (rw ran)))))),
            all,
            held',
            refl,
            rw page,
          )
    ]
