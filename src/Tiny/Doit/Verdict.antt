-- ===== src/Tiny/Doit/Verdict.antt =====
-- What `doit` answers to a request, in every case.
use multiplexing_proxy.Prelude.{
  ℕ, ◌+◌, ◌<◌, ◌≤◌, ◌≡◌, refl, Bool, true, false, not, ◌&&◌, ◌||◌, List, [], ◌∷◌, ◌++◌, map, length,
  Option, none, some, Result, done, arith, if◌then◌else◌, ◌==◌, Bool-cases, inl, inr, length-append,
}
use multiplexing_proxy.Memory.{Bytes, contains, equal}
use multiplexing_proxy.EventProxy.Wire.{codes, crlf}
use multiplexing_proxy.Tiny.Serve.{Action, serve_static, serve_dynamic}
use multiplexing_proxy.Tiny.Serve.Errors.{IsErrorPage, clienterror_lem}
use multiplexing_proxy.Tiny.Uri.Split.{file_name, last_byte}
use multiplexing_proxy.Tiny.Print.{Sprintf, IsAppending}
use multiplexing_proxy.Tiny.Doit.{
  equal_case, HeaderLine, line, File, Frame, respond_on, respond, doit,
}
use multiplexing_proxy.Tiny.Doit.Headers.{NoBlank}
use multiplexing_proxy.Tiny.Doit.RequestLine.{
  IsLine, line_of, method_read, uri_read, version_read, method_is, doit_responds,
}

-- What becomes of a request: an error page, a file, or a program that is run.
pub data Verdict : Type 0 where
  page : (cause errnum shortmsg longmsg : Bytes) → Verdict
  file : (content : Bytes) → Verdict
  program : Verdict

abbrev forbidden : Bytes → Bytes → Verdict
forbidden name longmsg = page name (codes "403") (codes "Forbidden") longmsg

-- By what `stat` says of the file of this name.
abbrev pub verdict_on : Bytes → Option File → Bool → Verdict
verdict_on name none is_static =
    page name (codes "404") (codes "Not found") (codes "Tiny couldn't find this file")
verdict_on name (some f) true =
    if f.regular && f.readable
    then file f.content
    else forbidden name (codes "Tiny couldn't read the file")
verdict_on name (some f) false =
    if f.regular && f.executable
    then program
    else forbidden name (codes "Tiny couldn't run the CGI program")

-- By whether the method is GET, first.
abbrev pub verdict : Bool → Bytes → Bytes → Option File → Bool → Verdict
verdict false method name found is_static =
    page method (codes "501") (codes "Not Implemented")
      (codes "Tiny does not implement this method")
verdict true method name found is_static = verdict_on name found is_static

-- What is sent then.
abbrev pub Follows : Sprintf → Verdict → Bytes → Bytes → Result (List Action) → Type 0
Follows sp (page cause errnum shortmsg longmsg) name args r =
    (sent : List Action) × (r ≡ done sent) × IsErrorPage cause errnum shortmsg longmsg sent
Follows sp (file content) name args r = r ≡ serve_static sp name content
Follows sp program name args r = r ≡ done (serve_dynamic name args)

-- Both of two tests have to hold.
refused_or :
    (sp : Sprintf) (p q : Bool) (name args : Bytes) (refused served : Verdict)
    (r s : Result (List Action))
    → Follows sp refused name args r
    → Follows sp served name args s
    → Follows sp (if p && q then served else refused) name args (if not p || not q then r else s)
refused_or sp false q name args refused served r s h k = h
refused_or sp true false name args refused served r s h k = h
refused_or sp true true name args refused served r s h k = k

respond_on-Follows :
    (sp : Sprintf) (name args : Bytes) (is_static : Bool) (found : Option File)
    → IsAppending sp
    → length name < 7900
    → Follows sp
        (verdict_on name found is_static)
        name
        args
        (respond_on sp name args is_static found)
unfolding respond_on
respond_on-Follows sp name args is_static none appending short =
    clienterror_lem sp name (codes "404") (codes "Not found") (codes "Tiny couldn't find this file")
      appending (omega arith)
respond_on-Follows sp name args true (some f) appending short =
    refused_or sp f.regular f.readable name args _ _ _ _
      (clienterror_lem sp name (codes "403") (codes "Forbidden")
        (codes "Tiny couldn't read the file") appending (omega arith))
      refl
respond_on-Follows sp name args false (some f) appending short =
    refused_or sp f.regular f.executable name args _ _ _ _
      (clienterror_lem sp name (codes "403") (codes "Forbidden")
        (codes "Tiny couldn't run the CGI program") appending (omega arith))
      refl

length-tail :
    (program index : Bool)
    → length (if program then [] else if index then codes "home.html" else []) ≤ 9
length-tail true index = omega arith
length-tail false true = omega arith
length-tail false false = omega arith

length-file_name : (c : ℕ) (path : Bytes) → length (file_name c path) ≤ length path + 11
length-file_name c path = omega (
  arith,
  length-append (codes "." ++ (c ∷ path)) _,
  length-tail (contains (c ∷ path) (codes "cgi-bin")) (last_byte c path == b'/'),
)

doit_refuses :
    (sp : Sprintf) (stat : Bytes → Option File) (frame : Frame) (m c v : ℕ)
    (method path query version : Bytes) (headers : List HeaderLine)
    → IsAppending sp
    → IsLine frame m c v method path query version
    → equal_case (m ∷ method) (codes "GET") ≡ false
    → length method < 7900
    → Follows sp
        (verdict false (m ∷ method) [] none false)
        []
        []
        (doit sp stat frame (some (line_of m c v method path query version)) headers)
unfolding doit
doit_refuses sp stat frame m c v method path query version headers appending h other short =
    rw (method_read frame m c v method path query version h) (
      rw (uri_read frame m c v method path query version h) (
        rw (version_read frame m c v method path query version h) (
          rw (method_is frame m c v method path query version h) (
            rw other (
              clienterror_lem sp (m ∷ method) (codes "501") (codes "Not Implemented")
                (codes "Tiny does not implement this method") appending (omega arith))))))

-- For a request line of a method, a URI with a query and a version that are strings without white
-- space and fit their objects, the path without '?', the method and the path shorter than 7800
-- bytes, and header lines that end in a blank one, where the text left in the buffer for them is
-- not blank, on a system where `sprintf(buf, "%s…", buf)` appends: a method that is not GET, in any case of its letters, is answered with a page for
-- 501; a file that stat does not find with one for 404; one that is not regular, or may not be
-- read, or run where the path names a program, with one for 403; each page is whole, and a client
-- reads the length of its body. Otherwise the file is served, or the program run with the query.
pub doit_lem :
    (sp : Sprintf) (stat : Bytes → Option File) (frame : Frame) (m c v : ℕ)
    (method path query version : Bytes) (lines : List Bytes) (later : List HeaderLine)
    → IsAppending sp
    → IsLine frame m c v method path query version
    → length method < 7800
    → length path < 7800
    → equal frame.header_line crlf ≡ false
    → NoBlank lines
    → Follows sp
        (verdict
          (equal_case (m ∷ method) (codes "GET"))
          (m ∷ method)
          (file_name c path)
          (stat (file_name c path))
          (not (contains (c ∷ path) (codes "cgi-bin"))))
        (file_name c path)
        query
        (doit sp stat frame
          (some (line_of m c v method path query version))
          (map line lines ++ line crlf ∷ later))
doit_lem sp stat frame m c v method path query version lines later appending h short name_short
      fresh blank =
    elim (Bool-cases (equal_case (m ∷ method) (codes "GET"))) [
      | inl get ↦
          rw
            (
              get,
              doit_responds sp stat frame m c v method path query version lines later h get fresh
                  blank,
            )
            (unfold respond in
              respond_on-Follows sp (file_name c path) query
                (not (contains (c ∷ path) (codes "cgi-bin"))) (stat (file_name c path)) appending
                (omega (arith, length-file_name c path)))
      | inr other ↦ rw other (
          doit_refuses sp stat frame m c v method path query version
            (map line lines ++ line crlf ∷ later) appending h other (omega arith))
    ]
