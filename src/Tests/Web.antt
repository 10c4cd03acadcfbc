-- ===== src/Tests/Web.antt =====
-- The web server at concrete inputs.
use multiplexing_proxy.Prelude.{
  ◌≡◌, ◌<◌, refl, true, false, Option, some, length, List, [], ◌∷◌, ◌++◌, done, starved, arith, map,
  replicate,
}
use multiplexing_proxy.Memory.{Bytes, calloc, length-calloc, Holds, equal, contains}
use multiplexing_proxy.EventProxy.Wire.{codes, crlf}
use multiplexing_proxy.Tiny.Uri.{Parsed, parse_uri}
use multiplexing_proxy.Tiny.Uri.Split.{with_query, without_query, parse_uri_lem}
use multiplexing_proxy.Tiny.Doit.{
  line, at_end, read_requesthdrs, Frame, File, doit, is_space, equal_case,
}
use multiplexing_proxy.Tiny.Doit.RequestLine.{line_of}
use multiplexing_proxy.Tiny.Doit.Verdict.{page, Follows, doit_lem}
use multiplexing_proxy.Tiny.Serve.{send, serve_static}
use multiplexing_proxy.Tiny.Serve.Static.{header_front, header_back, serve_static_lem}
use multiplexing_proxy.Tiny.Print.{maxbuf}
use multiplexing_proxy.Tests.Cgi.{appends_in_place, appends_in_place-IsAppending}
use multiplexing_proxy.Tiny.Print.Decimal.{spelled}
use multiplexing_proxy.Tiny.Doit.Headers.{read_requesthdrs_lem}

parse_uri_lem_example :
    (p : Parsed) × (parse_uri (with_query (codes "/a/") (codes "x=1") []) (calloc 64) (calloc 64)
      ≡ done p)
    × Holds p.filename 64 (codes "./a/home.html")
    × Holds p.cgiargs 64 (codes "x=1")
    × (p.uri ≡ without_query (codes "/a/") (codes "x=1") [])
    × (p.is_static ≡ true)
unfolding contains
parse_uri_lem_example =
    parse_uri_lem b'/' (codes "a/") (codes "x=1") [] (calloc 64) (calloc 64) (omega arith)
      (omega arith) (omega arith) (length-calloc 64) (omega arith) (length-calloc 64) (omega arith)

abbrev headers : List Bytes
headers = codes "Host: a\r\n" ∷ codes "Accept: b\r\n" ∷ []

read_requesthdrs_lem_example :
    (read_requesthdrs (calloc 64) (map line headers ++ line crlf ∷ at_end ∷ [])
      ≡ done (at_end ∷ []))
    × (read_requesthdrs (calloc 64) (map line headers ++ replicate 9 at_end) ≡ starved)
read_requesthdrs_lem_example =
    read_requesthdrs_lem (calloc 64) headers (at_end ∷ []) 9 (unfold equal calloc in refl)
      ((unfold equal in refl), ((unfold equal in refl), tt))

serve_static_lem_example :
    (digits : Bytes) × (serve_static appends_in_place (codes "./a.html") (codes "<p>")
      ≡ done (
          send (header_front ++ (digits ++ header_back (codes "./a.html")))
          ∷ send (codes "<p>")
          ∷ []))
    × (spelled 0 (digits ++ header_back (codes "./a.html")) ≡ 3)
    × (length (header_front ++ (digits ++ header_back (codes "./a.html"))) < maxbuf)
serve_static_lem_example =
    serve_static_lem appends_in_place (codes "./a.html") (codes "<p>") appends_in_place-IsAppending
      (omega arith)

abbrev frame : Frame
frame = record {
  method = calloc 64;
  uri = calloc 64;
  version = calloc 64;
  filename = calloc 64;
  cgiargs = calloc 64;
  header_line = calloc 64;
}

abbrev adder_file : Bytes → Option File
adder_file name =
    some (record { regular = true; readable = true; executable = false; content = codes "x" })

doit_lem_example :
    Follows appends_in_place
      (page
        (codes "./cgi-bin/adder")
        (codes "403")
        (codes "Forbidden")
        (codes "Tiny couldn't run the CGI program"))
      (codes "./cgi-bin/adder")
      (codes "3&4")
      (doit appends_in_place adder_file frame
        (some (
          line_of b'g' b'/' b'H'
            (codes "et")
            (codes "cgi-bin/adder")
            (codes "3&4")
            (codes "TTP/1.0")))
        (map line headers ++ line crlf ∷ at_end ∷ []))
unfolding contains equal_case
doit_lem_example =
    doit_lem appends_in_place adder_file frame b'g' b'/' b'H' (codes "et") (codes "cgi-bin/adder")
      (codes "3&4") (codes "TTP/1.0") headers (at_end ∷ []) appends_in_place-IsAppending
      (record {
        method_word = (unfold is_space in ground arith);
        method_text = omega arith;
        uri_word = (unfold is_space in ground arith);
        path_text = omega arith;
        path_plain = omega arith;
        query_text = omega arith;
        version_word = (unfold is_space in ground arith);
        method_fits = omega (arith, length-calloc 64);
        uri_fits = omega (arith, length-calloc 64);
        version_fits = omega (arith, length-calloc 64);
        name_fits = omega (arith, length-calloc 64);
        args_fit = omega (arith, length-calloc 64);
      })
      (omega arith) (omega arith) (unfold equal calloc in refl)
      ((unfold equal in refl), ((unfold equal in refl), tt))
