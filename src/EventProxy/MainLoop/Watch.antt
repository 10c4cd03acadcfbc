-- ===== src/EventProxy/MainLoop/Watch.antt =====
-- Which descriptors epoll watches, by the calls that the handlers make.
use multiplexing_proxy.Prelude.{
  ◌≡◌, ◌≢◌, ◌⊎◌, inl, inr, refl, ap, ◌∙◌, Bool, true, false, List, [], ◌∷◌, ◌++◌, ◌==◌,
  if◌then◌else◌, arith, ℤ, pos, negsuc, is_zero, Bool-cases, Ensures, Ensures-seq, holds, faulted,
}
use multiplexing_proxy.EventProxy.Action.{
  Callback, handle_new_client, clread, srvwrite, srvread, clwrite, Pointer, null, wild, block,
  EventAction, Interest, reading, writing, Call, free_pointer, free_event_action,
}

unfoldable pub same_fd : ℤ → ℤ → Bool
same_fd (pos m) (pos n) = m == n
same_fd (negsuc m) (negsuc n) = m == n
same_fd _ _ = false

pub same_fd_self : (x : ℤ) → same_fd x x ≡ true
unfolding same_fd
same_fd_self (pos m) = ground arith
same_fd_self (negsuc m) = ground arith

pub same_fd_other : (x y : ℤ) → x ≢ y → same_fd x y ≡ false
unfolding same_fd
same_fd_other (pos m) (pos n) h = elim (Bool-cases (m == n)) [
  | inl same ↦ absurd (h (ap pos (ground arith)))
  | inr other ↦ other
]
same_fd_other (pos m) (negsuc n) h = refl
same_fd_other (negsuc m) (pos n) h = refl
same_fd_other (negsuc m) (negsuc n) h = elim (Bool-cases (m == n)) [
  | inl same ↦ absurd (h (ap negsuc (ground arith)))
  | inr other ↦ other
]

-- The interest list: descriptors, and what each is watched for.
abbrev pub Watched : Type 0
Watched = List (ℤ × Interest)

unfoldable pub without : ℤ → Watched → Watched
without fd [] = []
without fd ((x, i) ∷ l) = let rest = without fd l in if same_fd x fd then rest else (x, i) ∷ rest

unfoldable pub modified : ℤ → Interest → Watched → Watched
modified fd i [] = []
modified fd i ((x, j) ∷ l) =
    let rest = modified fd i l in if same_fd x fd then (x, i) ∷ rest else (x, j) ∷ rest

-- What a call does to it. A descriptor that is closed is watched no longer.
unfoldable pub after_call : Watched → Call → Watched
unfolding without modified
after_call l (Call.close fd) = without fd l
after_call l (Call.epoll_add fd i) = (fd, i) ∷ l
after_call l (Call.epoll_mod fd i) = modified fd i l
after_call l (Call.epoll_del fd) = without fd l
after_call l _ = l

unfoldable pub after_calls : Watched → List Call → Watched
unfolding after_call
after_calls l [] = l
after_calls l (c ∷ cs) = after_calls (after_call l c) cs

pub after_calls-append :
    (l : Watched) (xs ys : List Call) → after_calls l (xs ++ ys) ≡ after_calls (after_calls l xs) ys
unfolding after_calls
after_calls-append l [] ys = refl
after_calls-append l (c ∷ xs) ys = after_calls-append (after_call l c) xs ys

-- What an action waits for: its callback is for this descriptor and this interest.
abbrev pub awaited_as : Callback → EventAction → Watched
awaited_as handle_new_client a = (a.clientfd, reading) ∷ []
awaited_as clread a = (a.clientfd, reading) ∷ []
awaited_as srvwrite a = (a.serverfd, writing) ∷ []
awaited_as srvread a = (a.serverfd, reading) ∷ []
awaited_as clwrite a = (a.clientfd, writing) ∷ []

abbrev pub awaited : EventAction → Watched
awaited a = awaited_as a.callback a

-- Only descriptors that releasing the action closes.
abbrev pub OnlyOf : EventAction → Watched → Type 0
OnlyOf a [] = Unit
OnlyOf a ((x, i) ∷ l) =
    ((x ≡ a.clientfd) ⊎ ((x ≡ a.serverfd) × (is_zero a.serverfd ≡ false))) × OnlyOf a l

abbrev OnlyServer : EventAction → Watched → Type 0
OnlyServer a [] = Unit
OnlyServer a ((x, i) ∷ l) = ((x ≡ a.serverfd) × (is_zero a.serverfd ≡ false)) × OnlyServer a l

without-client : (a : EventAction) (l : Watched) → OnlyOf a l → OnlyServer a (without a.clientfd l)
unfolding without
without-client a [] h = tt
without-client a ((x, i) ∷ l) (inl same, h) =
    let closed : same_fd x a.clientfd ≡ true = rw same (same_fd_self a.clientfd) in
    rw closed (without-client a l h)
without-client a ((x, i) ∷ l) (inr server, h) = elim (Bool-cases (same_fd x a.clientfd)) [
  | inl same ↦ rw same (without-client a l h)
  | inr other ↦ rw other (server, without-client a l h)
]

without-server : (a : EventAction) (l : Watched) → OnlyServer a l → without a.serverfd l ≡ []
unfolding without
without-server a [] h = refl
without-server a ((x, i) ∷ l) (server, h) =
    let closed : same_fd x a.serverfd ≡ true = rw (server.0) (same_fd_self a.serverfd) in
    rw closed (without-server a l h)

server_zero : (a : EventAction) (l : Watched) → OnlyServer a l → is_zero a.serverfd ≡ true → l ≡ []
server_zero a [] h z = refl
server_zero a ((x, i) ∷ l) h z = absurd (let nz : is_zero a.serverfd ≡ false = h.0.1 in cc)

free_pointer-Idle :
    (p : Pointer) → Ensures (λ freed. (l : Watched) → after_calls l freed ≡ l) (free_pointer p)
unfolding free_pointer after_calls
free_pointer-Idle null = holds (λ l. refl)
free_pointer-Idle wild = faulted
free_pointer-Idle (block b) = holds (λ l. refl)

-- Releasing an action leaves none of its descriptors watched.
pub free_event_action-Unwatched :
    (a : EventAction) (l : Watched)
    → OnlyOf a l
    → Ensures (λ freed. after_calls l freed ≡ []) (free_event_action a)
unfolding free_event_action after_calls
free_event_action-Unwatched a l h =
    let left : OnlyServer a (without a.clientfd l) = without-client a l h in
    Ensures-seq (free_pointer-Idle a.data_buf) λ freed idle.
      Ensures-seq (free_pointer-Idle a.url) λ freed' idle'. elim (Bool-cases (is_zero a.serverfd)) [
        | inl z ↦ rw z (
            holds (
              (simp (after_calls-append, idle, idle'))
              ∙ server_zero a (without a.clientfd l) left z))
        | inr nz ↦ rw nz (
            holds (
              (simp (after_calls-append, idle, idle'))
              ∙ without-server a (without a.clientfd l) left))
      ]
