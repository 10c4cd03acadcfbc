-- ===== src/Tiny/Doit/RequestLine.antt =====
-- What `doit` makes of a request line with a query.
use mathlib.Core.List.{append_assoc}
use multiplexing_proxy.Prelude.{
  ℕ, ◌+◌, ◌<◌, ◌≡◌, refl, ◌∙◌, true, false, not, List, [], ◌∷◌, ◌++◌, map, length, drop, Option,
  some, done, arith, length-append,
}
use multiplexing_proxy.Memory.{
  Bytes, c_str, contains, equal, terminated, IsText, put-drop, c_str-terminated,
}
use multiplexing_proxy.EventProxy.Wire.{codes, crlf}
use multiplexing_proxy.Tiny.Uri.Split.{NoQuery, file_name, with_query, parse_uri_lem}
use multiplexing_proxy.Tiny.Print.{Sprintf}
use multiplexing_proxy.Tiny.Doit.{
  is_space, skip_space, word, store_word, scan_word, equal_case, HeaderLine, line, File, Frame,
  respond, doit,
}
use multiplexing_proxy.Tiny.Doit.Headers.{NoBlank, read_requesthdrs_lem}

-- No byte is white space.
abbrev pub NoSpace : Bytes → Type 0
NoSpace [] = Unit
NoSpace (c ∷ s) = (is_space c ≡ false) × NoSpace s

word_lem :
    (w rest : Bytes) (c : ℕ) → NoSpace w → is_space c ≡ true → word (w ++ c ∷ rest) ≡ (w, c ∷ rest)
unfolding word
word_lem [] rest c h s = rw s
word_lem (d ∷ w) rest c h s = rw (h.0, word_lem w rest c h.1 s)

-- An object with a word and a NUL at its front.
abbrev pub filled : Bytes → Bytes → Bytes
filled w object = terminated w ++ drop (length (terminated w)) object

module _ (d : ℕ) (w rest object : Bytes) (c : ℕ) (plain : NoSpace (d ∷ w))
    (ends : is_space c ≡ true) (room : length w + 1 < length object) where
  first_word : scan_word ((d ∷ w) ++ c ∷ rest) object ≡ done (filled (d ∷ w) object, c ∷ rest)
  unfolding scan_word skip_space store_word
  first_word = rw plain.0 (
      rw (word_lem (d ∷ w) rest c plain ends)
        (rw (put-drop object (terminated (d ∷ w)) (omega (arith, length-append w (0 ∷ []))))))

  next_word :
      scan_word (b' ' ∷ ((d ∷ w) ++ c ∷ rest)) object ≡ done (filled (d ∷ w) object, c ∷ rest)
  unfolding scan_word skip_space is_space
  next_word = first_word

-- The words of a request line and the sizes of the objects that they go to.
pub record IsLine (frame : Frame) (m c v : ℕ) (method path query version : Bytes) : Type 0 where
  pub method_word : NoSpace (m ∷ method)
  pub method_text : IsText (m ∷ method)
  pub uri_word : NoSpace ((c ∷ path) ++ b'?' ∷ query)
  pub path_text : IsText (c ∷ path)
  pub path_plain : NoQuery (c ∷ path)
  pub query_text : IsText query
  pub version_word : NoSpace (v ∷ version)
  pub method_fits : length method + 1 < length frame.method
  pub uri_fits : length path + length query + 2 < length frame.uri
  pub version_fits : length version + 1 < length frame.version
  pub name_fits : length path + 11 < length frame.filename
  pub args_fit : length query < length frame.cgiargs

-- A request line: a method, a URI with a query, and a version.
abbrev pub line_of : (m c v : ℕ) (method path query version : Bytes) → Bytes
line_of m c v method path query version =
    (m ∷ method)
    ++ b' ' ∷ (((c ∷ path) ++ b'?' ∷ query) ++ b' ' ∷ ((v ∷ version) ++ b'\r' ∷ b'\n' ∷ []))

-- What `sscanf` reads from such a line.
module _ (frame : Frame) (m c v : ℕ) (method path query version : Bytes)
    (h : IsLine frame m c v method path query version) where
  abbrev pub uri_text : Bytes
  uri_text = (c ∷ path) ++ b'?' ∷ query

  abbrev pub after_uri : Bytes
  after_uri = (v ∷ version) ++ b'\r' ∷ b'\n' ∷ []

  pub method_read :
      scan_word (line_of m c v method path query version) frame.method
      ≡ done (filled (m ∷ method) frame.method, b' ' ∷ (uri_text ++ b' ' ∷ after_uri))
  method_read =
      first_word m method (uri_text ++ b' ' ∷ after_uri) frame.method b' ' h.method_word
        (unfold is_space in refl) h.method_fits

  pub uri_read :
      scan_word (b' ' ∷ (uri_text ++ b' ' ∷ after_uri)) frame.uri
      ≡ done (filled uri_text frame.uri, b' ' ∷ after_uri)
  uri_read =
      next_word c (path ++ b'?' ∷ query) after_uri frame.uri b' ' h.uri_word
        (unfold is_space in refl) (omega (arith, h.uri_fits, length-append path (b'?' ∷ query)))

  pub version_read :
      scan_word (b' ' ∷ after_uri) frame.version
      ≡ done (filled (v ∷ version) frame.version, b'\r' ∷ b'\n' ∷ [])
  version_read =
      next_word v version (b'\n' ∷ []) frame.version b'\r' h.version_word (unfold is_space in refl)
        h.version_fits

  pub method_is : c_str (filled (m ∷ method) frame.method) ≡ done (m ∷ method)
  method_is =
      c_str-terminated (m ∷ method) (drop (length (terminated (m ∷ method))) frame.method)
        h.method_text

  pub in_place :
      filled uri_text frame.uri
      ≡ with_query (c ∷ path) query (drop (length (terminated uri_text)) frame.uri)
  in_place =
      append_assoc uri_text (0 ∷ []) (drop (length (terminated uri_text)) frame.uri)
      ∙ append_assoc (c ∷ path) (b'?' ∷ query) (0 ∷ drop (length (terminated uri_text)) frame.uri)

-- For a request line of a method, a URI with a query and a version that are strings without white
-- space and fit their objects, the path without '?', the method GET in any case of its letters,
-- and header lines that end in a blank one, where the text left in the buffer for them is not
-- blank: doit asks stat for the file of the path, and responds with that file's page, or runs it
-- with the query as its arguments, exactly as respond says; the version is not looked at.
pub doit_responds :
    (sp : Sprintf) (stat : Bytes → Option File) (frame : Frame) (m c v : ℕ)
    (method path query version : Bytes) (lines : List Bytes) (later : List HeaderLine)
    → IsLine frame m c v method path query version
    → equal_case (m ∷ method) (codes "GET") ≡ true
    → equal frame.header_line crlf ≡ false
    → NoBlank lines
    → doit sp stat frame
        (some (line_of m c v method path query version))
        (map line lines ++ line crlf ∷ later)
      ≡ respond sp stat (file_name c path) query (not (contains (c ∷ path) (codes "cgi-bin")))
unfolding doit
doit_responds sp stat frame m c v method path query version lines later h get fresh blank =
    let (p, parsed, name, args, _, static) =
      parse_uri_lem c path query (drop (length (terminated ((c ∷ path) ++ b'?' ∷ query))) frame.uri)
        frame.filename frame.cgiargs h.path_text h.query_text h.path_plain refl h.name_fits refl
        h.args_fit in
    rw (method_read frame m c v method path query version h) (
      rw (uri_read frame m c v method path query version h) (
        rw (version_read frame m c v method path query version h) (
          rw (method_is frame m c v method path query version h) (
            rw get (
              rw (read_requesthdrs_lem frame.header_line lines later 0 fresh blank).0 (
                rw (in_place frame m c v method path query version h)
                  (rw parsed (rw (name.text) (rw args.text (rw static))))))))))
