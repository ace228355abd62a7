-- ===== src/Chat/Effects.antt =====
-- Whom a pass writes to and whom it shuts down.
use cpp_socket_programming.Prelude.{
  ℕ, zero, suc, ◌≡◌, refl, ◌⊎◌, inl, inr, ℤ, pos, ◌==ℤ◌, Bool, true, false, List, [], ◌∷◌, ◌++◌,
  Option, none, some, arith, if◌then◌else◌, get_or,
}
use cpp_socket_programming.Chat.{
  Server, Effect, sends, shuts_down, Received, end_of_stream, would_block, failed, bytes, Events,
  close_client, process_client, first_free, seat, accept_client, flush, serve_slot, serve_slots,
  is_client, pass, admit, read_set, write_set, num_of_clients,
}

abbrev target : Effect → ℤ
target (sends fd m) = fd
target (shuts_down fd) = fd

-- Every effect of the list is on a descriptor with the property.
abbrev AllOn : (ℤ → Type 0) → List Effect → Type 0
AllOn P [] = Unit {0}
AllOn P (e ∷ rest) = P (target e) × AllOn P rest

AllOn-append : (P : ℤ → Type 0) (xs ys : List Effect) → AllOn P xs → AllOn P ys → AllOn P (xs ++ ys)
AllOn-append P [] ys h k = k
AllOn-append P (x ∷ xs) ys h k = (h.0, AllOn-append P xs ys h.1 k)

process_client-AllOn :
    (P : ℤ → Type 0) (fd : ℤ) (r : Received) (s : Server) → P fd → AllOn P (process_client fd r s).1
unfolding process_client close_client
process_client-AllOn P fd end_of_stream s h = (h, tt)
process_client-AllOn P fd would_block s h = (h, tt)
process_client-AllOn P fd failed s h = tt
process_client-AllOn P fd (bytes m) s h = tt

if-AllOn :
    (P : ℤ → Type 0) (b : Bool) (x y : Server × List Effect)
    → (b ≡ true → AllOn P x.1)
    → AllOn P y.1
    → AllOn P (if b then x else y).1
if-AllOn P true x y h k = h refl
if-AllOn P false x y h k = k

module _ (P : ℤ → Type 0) (readfds writefds : ℤ → Bool) (ev : Events)
    (readable : (fd : ℤ) → readfds fd ≡ true → P fd)
    (writable : (fd : ℤ) → writefds fd ≡ true → P fd) where
  serve_slot-AllOn : (i : ℕ) (s : Server) → AllOn P (serve_slot readfds writefds ev i s).1
  unfolding serve_slot flush
  serve_slot-AllOn i s =
      let fd : ℤ = get_or s.slots i (pos 0) in
      let served : Server × List Effect =
        if readfds fd then process_client fd (ev.received fd) s else (s, []) in
      let next : ℤ = get_or served.0.slots i (pos 0) in
      if-AllOn P (fd ==ℤ pos 0) _ _ (λ _. tt)
        (AllOn-append P served.1 _
          (if-AllOn P (readfds fd) _ _
            (λ h. process_client-AllOn P fd (ev.received fd) s (readable fd h)) tt)
          (if-AllOn P (writefds next) _ _ (λ h. (writable next h, tt)) tt))

  serve_slots-AllOn : (n i : ℕ) (s : Server) → AllOn P (serve_slots readfds writefds ev n i s).1
  unfolding serve_slots
  serve_slots-AllOn zero i s = tt
  serve_slots-AllOn (suc n) i s =
      AllOn-append P (serve_slot readfds writefds ev i s).1 _ (serve_slot-AllOn i s)
        (serve_slots-AllOn n (suc i) (serve_slot readfds writefds ev i s).0)

-- A client of the table, or the descriptor that has just been accepted.
abbrev IsKnown : Events → Server → ℤ → Type 0
IsKnown ev s fd = (is_client fd s.slots ≡ true) ⊎ (ev.accepted ≡ some fd)

seat-AllOn : (P : ℤ → Type 0) (fd : ℤ) (o : Option ℕ) (s : Server) → P fd → AllOn P (seat fd o s).1
unfolding seat
seat-AllOn P fd none s h = tt
seat-AllOn P fd (some i) s h = (h, tt)

admit-AllOn :
    (P : ℤ → Type 0) (o : Option ℤ) (s : Server)
    → ((fd : ℤ) → o ≡ some fd → P fd)
    → AllOn P (admit o s).1
unfolding admit accept_client
admit-AllOn P none s h = tt
admit-AllOn P (some fd) s h = seat-AllOn P fd (first_free 0 s.slots) s (h fd refl)

-- A pass writes to and shuts down only sockets that were clients when it began, or the one that it has
-- just accepted.
pass-AllOn : (ev : Events) (s : Server) → AllOn (IsKnown ev s) (pass ev s).1
unfolding pass read_set write_set
pass-AllOn ev s =
    AllOn-append (IsKnown ev s) (admit ev.accepted s).1 _
      (admit-AllOn (IsKnown ev s) ev.accepted s (λ fd e. inr e))
      (serve_slots-AllOn (IsKnown ev s) (read_set ev s) (write_set ev s) ev
        (λ fd h. inl (ground arith)) (λ fd h. inl (ground arith)) num_of_clients 0
        (admit ev.accepted s).0)
