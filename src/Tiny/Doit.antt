-- ===== src/Tiny/Doit.antt =====
-- `doit` and `read_requesthdrs` of proxylab-handout/tiny/tiny.c: one transaction.
pub mod Headers
pub mod RequestLine
pub mod Verdict
use multiplexing_proxy.Prelude.{
  ℕ, ◌+◌, Bool, true, false, not, ◌&&◌, ◌||◌, List, [], ◌∷◌, Option, none, some, Result, done,
  starved, ◌>>=◌, ◌==◌, leb, if◌then◌else◌,
}
use multiplexing_proxy.Memory.{Bytes, c_str, put, equal, terminated}
use multiplexing_proxy.EventProxy.Wire.{codes, crlf}
use multiplexing_proxy.Tiny.Uri.{parse_uri}
use multiplexing_proxy.Tiny.Print.{Sprintf}
use multiplexing_proxy.Tiny.Serve.{Action, serve_static, serve_dynamic, clienterror}

-- White space for `sscanf`: space, and the codes 9 to 13.
unfoldable pub is_space : ℕ → Bool
is_space c = c == b' ' || (leb 9 c && leb c 13)

-- The text behind its leading white space.
unfoldable pub skip_space : Bytes → Bytes
unfolding is_space
skip_space [] = []
skip_space (c ∷ s) = let rest = skip_space s in if is_space c then rest else c ∷ s

-- The first word of a text, and what follows it.
unfoldable pub word : Bytes → Bytes × Bytes
unfolding is_space
word [] = ([], [])
word (c ∷ s) = let (w, rest) = word s in if is_space c then ([], c ∷ s) else (c ∷ w, rest)

-- `%s` into an object, behind the reading: without a word the object stays as it is.
unfoldable pub store_word : Bytes → Bytes → Bytes → Result (Bytes × Bytes)
store_word [] rest object = done (object, rest)
store_word (c ∷ w) rest object = put object (terminated (c ∷ w)) >>= λ filled. done (filled, rest)

unfoldable pub scan_word : Bytes → Bytes → Result (Bytes × Bytes)
unfolding word skip_space store_word
scan_word text object = let (w, rest) = word (skip_space text) in store_word w rest object

unfoldable pub to_lower : ℕ → ℕ
to_lower c = if leb b'A' c && leb c b'Z' then c + 32 else c

-- `strcasecmp(a, b) == 0`
unfoldable pub equal_case : Bytes → Bytes → Bool
unfolding to_lower
equal_case [] [] = true
equal_case (x ∷ xs) (y ∷ ys) = to_lower x == to_lower y && equal_case xs ys
equal_case _ _ = false

-- What `Rio_readlineb` answers for the header lines: a line, or the end of the stream.
pub data HeaderLine : Type 0 where
  line : Bytes → HeaderLine
  at_end : HeaderLine

-- `read_requesthdrs`: it reads until a line is "\r\n". At the end of the stream `buf` stays as it
-- is, and the loop asks again. `buf` is the line held.
unfoldable pub read_requesthdrs : Bytes → List HeaderLine → Result (List HeaderLine)
read_requesthdrs buf [] = starved
read_requesthdrs buf (at_end ∷ lines) =
    let again = read_requesthdrs buf lines in if equal buf crlf then done lines else again
read_requesthdrs buf (line l ∷ lines) =
    let again = read_requesthdrs l lines in if equal l crlf then done lines else again

-- What `stat` says of a file, with its bytes.
pub record File : Type 0 where
  pub regular : Bool
  pub readable : Bool
  pub executable : Bool
  pub content : Bytes

-- The objects on the stack of `doit`, and the text in `buf` of `read_requesthdrs`.
pub record Frame : Type 0 where
  pub method : Bytes
  pub uri : Bytes
  pub version : Bytes
  pub filename : Bytes
  pub cgiargs : Bytes
  pub header_line : Bytes

-- By what `stat` says of the file: the two tests, and what is served.
unfoldable pub respond_on : Sprintf → Bytes → Bytes → Bool → Option File → Result (List Action)
respond_on sp filename cgiargs is_static none =
    clienterror sp filename (codes "404") (codes "Not found") (codes "Tiny couldn't find this file")
respond_on sp filename cgiargs true (some f) =
    let static_ok = serve_static sp filename f.content in
    let static_403 =
      clienterror sp filename (codes "403") (codes "Forbidden")
        (codes "Tiny couldn't read the file") in
    if not f.regular || not f.readable then static_403 else static_ok
respond_on sp filename cgiargs false (some f) =
    let dynamic_ok = done (serve_dynamic filename cgiargs) in
    let dynamic_403 =
      clienterror sp filename (codes "403") (codes "Forbidden")
        (codes "Tiny couldn't run the CGI program") in
    if not f.regular || not f.executable then dynamic_403 else dynamic_ok

-- `doit` once the request is read and its URI parsed. `stat` answers for the file name.
unfoldable pub respond :
    Sprintf → (Bytes → Option File) → Bytes → Bytes → Bool → Result (List Action)
unfolding respond_on
respond sp stat filename cgiargs is_static =
    respond_on sp filename cgiargs is_static (stat filename)

-- `request_line` is `none` where `Rio_readlineb` returns 0.
unfoldable pub doit :
    Sprintf → (Bytes → Option File) → Frame → Option Bytes → List HeaderLine → Result (List Action)
unfolding scan_word equal_case respond
doit sp stat frame none headers = done []
doit sp stat frame (some request_line) headers = do
  (method, r₁) ← scan_word request_line frame.method
  (uri, r₂) ← scan_word r₁ frame.uri
  (version, r₃) ← scan_word r₂ frame.version
  method_text ← c_str method
  let refuse =
      clienterror sp method_text (codes "501") (codes "Not Implemented")
        (codes "Tiny does not implement this method")
  let go_on = do
    _ ← read_requesthdrs frame.header_line headers
    p ← parse_uri uri frame.filename frame.cgiargs
    name ← c_str p.filename
    args ← c_str p.cgiargs
    respond sp stat name args p.is_static
  if equal_case method_text (codes "GET") then go_on else refuse
