-- ===== src/EventProxy/Clread/Feed.antt =====
-- `clread` over the events of one connection: the part of the request that each brings is kept in
-- the action.
use mathlib.Core.List.{append_assoc}
use multiplexing_proxy.Prelude.{
  ℕ, ◌+◌, ◌-◌, ◌≤◌, ◌<◌, ◌≡◌, refl, ◌∙◌, subst, sym, true, false, Option, none, some, List, [], ◌∷◌,
  ◌++◌, map, length, Result, done, ◌>>=◌, >>=-ext, ℤ, if◌then◌else◌, arith, add64, length-append,
}
use multiplexing_proxy.Memory.{
  Bytes, c_str, strcpy, calloc, contains, IsText, IsText-append, length-calloc,
}
use multiplexing_proxy.Platform.{Platform, IsLinux}
use multiplexing_proxy.EventProxy.Action.{EventAction, block, null, Call}
use multiplexing_proxy.EventProxy.Read.{
  Read, got, failed, Leaving, ReadEnd, bufmax, blank_line, read_loop,
}
use multiplexing_proxy.EventProxy.Read.Loops.{read_loop_pause}
use multiplexing_proxy.EventProxy.Read.Pieces.{
  padded, calloc-Clear, ArePieces, joined, last_length, joined-IsText, read_loop_pieces,
  read_loop_piece,
}
use multiplexing_proxy.EventProxy.Srvread.{or_calloc}
use multiplexing_proxy.EventProxy.Request.{Request, locate, choose_port}
use multiplexing_proxy.EventProxy.Wire.{assemble, event_constants}
use multiplexing_proxy.EventProxy.Cache.{Cache, Found, search_cache}
use multiplexing_proxy.EventProxy.Clread.{
  Address, ClientAnswers, Stack, Served, quiet, connect_first, serve_cached, start_server,
  use_connection, use_addresses, contact_server, act_on_search, act_on_request, after_reading,
  clread,
}

-- The environment of an event that brings these answers of `read`.
abbrev pub with_reads : ClientAnswers → List Read → ClientAnswers
with_reads env reads = record env { reads = reads }

-- The calls of `clread` for the events of one connection, up to the last one, or to one that ends
-- the connection.
unfoldable pub feed :
    Platform
    → ClientAnswers
    → Stack
    → Cache
    → EventAction
    → List (List Read)
    → List Read
    → Result Served
feed os env stack cache a [] last = clread os (with_reads env last) stack cache a
feed os env stack cache a (reads ∷ firsts) last = do
  s ← clread os (with_reads env reads) stack cache a
  let rest = feed os env stack s.cache s.handled.action firsts last
  if s.handled.ends then done s else rest

-- Acting on the request does not look at the answers of `read`.
module _ (os : Platform) (env : ClientAnswers) (reads : List Read) where
  use_connection_reads :
      (a : EventAction) (wire : Bytes) (c : Option ℤ × List Call)
      → use_connection os (with_reads env reads) a wire c ≡ use_connection os env a wire c
  unfolding use_connection start_server
  use_connection_reads a wire (none, calls) = refl
  use_connection_reads a wire (some fd, calls) = refl

  use_addresses_reads :
      (a : EventAction) (wire : Bytes) (asked : List Call) (found : Option (List Address))
      → use_addresses os (with_reads env reads) a wire asked found
        ≡ use_addresses os env a wire asked found
  unfolding use_addresses
  use_addresses_reads a wire asked none = refl
  use_addresses_reads a wire asked (some list) =
      use_connection_reads a wire (connect_first list asked)

  act_on_search_reads :
      (a : EventAction) (url wire : Bytes) (request : Request) (found : Option Found)
      → act_on_search os (with_reads env reads) a url request wire found
        ≡ act_on_search os env a url request wire found
  unfolding act_on_search contact_server serve_cached
  act_on_search_reads a url wire request none = >>=-ext (choose_port request) λ port_number.
      >>=-ext (c_str request.base_url) λ host.
        >>=-ext (c_str port_number)
          λ port. use_addresses_reads a wire (Call.resolve host port ∷ []) env.addresses
  act_on_search_reads a url wire request (some f) = refl

  act_on_request_reads :
      (stack : Stack) (cache : Cache) (a : EventAction) (url : Bytes)
      → act_on_request os (with_reads env reads) stack cache a url
        ≡ act_on_request os env stack cache a url
  unfolding act_on_request
  act_on_request_reads stack cache a url = >>=-ext (strcpy (calloc bufmax) url) λ buf.
      >>=-ext (c_str url) λ entry. >>=-ext (locate buf) λ request.
        >>=-ext (assemble event_constants stack.wire request) λ wire. >>=-ext (c_str wire) λ wanted.
          >>=-ext (search_cache wanted stack.buf2 env.now cache) λ s.
            rw
              (act_on_search_reads (record a { total_bytes_passed = 0; url = block url }) url wire
                request s.0)
              refl

-- An action whose request so far is `t`.
pub record HasRead (a : EventAction) (t : Bytes) : Type 0 where
  pub object : or_calloc a.url ≡ done (padded bufmax t)
  pub counted : a.total_bytes_passed ≡ length t

-- The action behind an event that brought the text `t`.
abbrev pub has_read : EventAction → Bytes → EventAction
has_read a t = record a { total_bytes_passed = length t; url = block (padded bufmax t) }

pub has_read-HasRead : (a : EventAction) (t : Bytes) → HasRead (has_read a t) t
unfolding or_calloc
has_read-HasRead a t = record { object = refl; counted = refl }

pub fresh-HasRead : (a : EventAction) → a.url ≡ null → a.total_bytes_passed ≡ 0 → HasRead a []
unfolding or_calloc
fresh-HasRead a new start = record { object = rw new refl; counted = start }

clread_by :
    (os : Platform) (env : ClientAnswers) (stack : Stack) (cache : Cache) (a : EventAction)
    {url : Bytes} {r : ReadEnd}
    → or_calloc a.url ≡ done url
    → read_loop os url stack.temp bufmax a.total_bytes_passed env.reads ≡ done r
    → clread os env stack cache a ≡ after_reading os env stack cache a r r.leaving
unfolding clread
clread_by os env stack cache a object ran = rw object (rw ran refl)

module _ (os : Platform) (env : ClientAnswers) (stack : Stack) (cache : Cache) (m : ℕ)
    (cleared : stack.temp ≡ calloc m) where
  -- An event that brings pieces without a blank line.
  pub clread_pauses :
      (a : EventAction) (t : Bytes) (pieces : List Bytes) (later : List Read)
      → IsLinux os
      → HasRead a t
      → IsText t
      → ArePieces m 0 pieces
      → length t + length (joined pieces) < bufmax
      → clread os (with_reads env (map got pieces ++ failed os.eagain ∷ later)) stack cache a
        ≡ done
            (record { handled = quiet (has_read a (t ++ joined pieces)) false []; cache = cache })
  unfolding clread after_reading
  clread_pauses a t pieces later linux h ok okp fits =
      let on =
        read_loop_pieces os bufmax (bufmax - 1) (length t) t (calloc m) pieces 0
          (failed os.eagain ∷ later) ok
          (subst (λ k. ArePieces k 0 pieces) (sym (length-calloc m)) okp) (calloc-Clear m) fits
          (omega arith) (omega arith) (omega arith) in
      rw h.object (
        rw (cleared, h.counted)
          (rw on.goes_on (
            rw
              (read_loop_pause os (padded bufmax (t ++ joined pieces)) on.left
                (bufmax - 1 - length (joined pieces)) (length t + length (joined pieces)) later
                linux)
              (rw (length-append t (joined pieces)) refl))))

  -- An event whose last piece shows the blank line.
  pub clread_acts :
      (a : EventAction) (t : Bytes) (pieces : List Bytes) (bs : Bytes) (later : List Read)
      → HasRead a t
      → IsText t
      → ArePieces m 0 pieces
      → IsText bs
      → 0 < length bs
      → last_length 0 pieces ≤ length bs
      → length bs < m
      → contains bs blank_line ≡ true
      → length t + length (joined pieces) + length bs < bufmax
      → clread os (with_reads env (map got pieces ++ got bs ∷ later)) stack cache a
        ≡ act_on_request os env stack cache a (padded bufmax (t ++ (joined pieces ++ bs)))
  unfolding after_reading
  clread_acts a t pieces bs later h ok okp okb some_bytes grows room shown fits =
      let on =
        read_loop_pieces os bufmax (bufmax - 1) (length t) t (calloc m) pieces 0 (got bs ∷ later) ok
          (subst (λ k. ArePieces k 0 pieces) (sym (length-calloc m)) okp) (calloc-Clear m)
          (omega arith) (omega arith) (omega arith) (omega arith) in
      let inside : length bs < length on.left = omega (arith, on.size, length-calloc m) in
      clread_by os (with_reads env (map got pieces ++ got bs ∷ later)) stack cache a {r = whole}
        h.object
        (rw (cleared, h.counted)
          (on.goes_on
            ∙ read_loop_piece os bufmax (bufmax - 1 - length (joined pieces))
                (length t + length (joined pieces)) (t ++ joined pieces) on.left bs later
                (IsText-append t (joined pieces) ok (joined-IsText m 0 pieces okp)) okb some_bytes
                inside (omega (arith, length-append t (joined pieces)))
                (on.clear (length bs) grows inside)
            ∙ rw (shown, append_assoc t (joined pieces) bs) refl))
      ∙ act_on_request_reads os env (map got pieces ++ got bs ∷ later) stack cache a
          (padded bufmax (t ++ (joined pieces ++ bs)))
    where
      whole : ReadEnd
      whole = record {
        text = padded bufmax (t ++ (joined pieces ++ bs));
        passed = add64 (length t + length (joined pieces)) (length bs);
        leaving = Leaving.ended;
      }
