-- ===== src/Tiny/Uri.antt =====
-- `parse_uri` and `get_filetype` of proxylab-handout/tiny/tiny.c.
pub mod Split
use multiplexing_proxy.Prelude.{
  ℕ, ◌+◌, Bool, true, false, [], ◌∷◌, drop, Option, none, some, Result, done, fault, ◌>>=◌, ◌==◌,
  if◌then◌else◌,
}
use multiplexing_proxy.Memory.{Bytes, c_str, put_at, strcpy, strcat, contains, terminated}
use multiplexing_proxy.EventProxy.Wire.{codes}

-- `index(s, c)` on a string.
unfoldable pub index : Bytes → ℕ → Option ℕ
index [] c = none
index (d ∷ s) c =
    let later : Option ℕ = elim (index s c) [ none ↦ none | some i ↦ some (i + 1) ] in
    if d == c then some 0 else later

-- The objects that `parse_uri` leaves, and what it returns.
pub record Parsed : Type 0 where
  pub uri : Bytes
  pub filename : Bytes
  pub cgiargs : Bytes
  pub is_static : Bool

-- `cgiargs`, and `uri` cut at the '?', where there is one.
unfoldable pub cut_at : Bytes → Bytes → Option ℕ → Result (Bytes × Bytes)
cut_at uri cgiargs none = strcpy cgiargs (terminated []) >>= λ args. done (uri, args)
cut_at uri cgiargs (some i) = do
  args ← strcpy cgiargs (drop (i + 1) uri)
  cut ← put_at uri i (0 ∷ [])
  done (cut, args)

unfoldable pub cut_query : Bytes → Bytes → Result (Bytes × Bytes)
unfolding index cut_at
cut_query uri cgiargs = c_str uri >>= λ text. cut_at uri cgiargs (index text b'?')

-- `uri[strlen(uri)-1] == '/'`; the empty string has no such byte.
unfoldable pub ends_in_slash : Bytes → Result Bool
ends_in_slash [] = fault
ends_in_slash (c ∷ []) = done (c == b'/')
ends_in_slash (c ∷ d ∷ s) = ends_in_slash (d ∷ s)

unfoldable pub parse_uri : Bytes → Bytes → Bytes → Result Parsed
unfolding cut_query ends_in_slash
parse_uri uri filename cgiargs = do
  (cut, args) ← cut_query uri cgiargs
  dot ← strcpy filename (terminated (codes "."))
  name ← strcat dot cut
  text ← c_str cut
  let static_page = do
    slash ← ends_in_slash text
    name' ← (if slash then strcat name (terminated (codes "home.html")) else done name)
    done (record { uri = cut; filename = name'; cgiargs = args; is_static = true })
  if contains text (codes "cgi-bin")
      then done (record { uri = cut; filename = name; cgiargs = args; is_static = false })
      else static_page

-- On the text of the file name.
unfoldable pub get_filetype : Bytes → Bytes
get_filetype filename =
    if contains filename (codes ".html")
    then codes "text/html"
    else if contains filename (codes ".gif")
    then codes "image/gif"
    else if contains filename (codes ".png")
    then codes "image/png"
    else if contains filename (codes ".jpg")
    then codes "image/jpeg"
    else codes "text/plain"
