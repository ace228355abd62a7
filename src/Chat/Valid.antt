-- ===== src/Chat/Valid.antt =====
-- What every pass keeps.
use cpp_socket_programming.Prelude.{
  ℕ, zero, suc, ◌≡◌, refl, ap, ◌∙◌, ◌≢◌, inl, inr, ℤ, pos, ◌==ℤ◌, is_positive, ==ℤ_iff, Bool, true,
  false, List, [], Option, none, some, arith, Bool-cases, if◌then◌else◌, length, get_or, set,
}
use cpp_socket_programming.Chat.Table.{
  length-set, length-free_slot, is_client-free_slot, is_client-set, first_other-is_client,
}
use cpp_socket_programming.Chat.{
  Message, Server, Effect, Received, end_of_stream, would_block, failed, bytes, Events,
  num_of_clients, is_some, insert, close_client, c_string, recipient, post, post_to, admit,
  process_client, first_free, first_other, link, seat, accept_client, flush, serve_slot,
  serve_slots, is_client, read_set, write_set, pass,
}

-- Five places, with descriptors above 0; a peer is another client that has a peer too; and mail
-- waits only for one that has a peer.
pub record IsValid (s : Server) : Type 0 where
  pub places : length s.slots ≡ num_of_clients
  pub open_clients : (a : ℤ) → is_client a s.slots ≡ true → is_positive a ≡ true
  pub linked :
      (a b : ℤ)
      → s.peers a ≡ some b
      → (a ≢ b) × (is_positive b ≡ true) × (is_some (s.peers b) ≡ true)
  pub addressed : (a : ℤ) → is_some (s.queue a) ≡ true → is_some (s.peers a) ≡ true

-- The links of a server.
abbrev Linked : (ℤ → Option ℤ) → Type 0
Linked peers =
    (a b : ℤ) → peers a ≡ some b → (a ≢ b) × (is_positive b ≡ true) × (is_some (peers b) ≡ true)

insert_other :
    {V : Type 0} (k j : ℤ) (v : V) (m : ℤ → Option V)
    → is_some (m j) ≡ true
    → is_some (insert k v m j) ≡ true
unfolding insert
insert_other k j v m h = ground arith

link-keeps :
    (fd : ℤ) (o : Option ℤ) (peers : ℤ → Option ℤ) (j : ℤ)
    → is_some (peers j) ≡ true
    → is_some (link fd o peers j) ≡ true
unfolding link
link-keeps fd none peers j h = h
link-keeps fd (some q) peers j h =
    insert_other q j fd (insert fd q peers) (insert_other fd j q peers h)

link-Linked :
    (fd q : ℤ) (peers : ℤ → Option ℤ)
    → fd ≢ q
    → is_positive fd ≡ true
    → is_positive q ≡ true
    → Linked peers
    → Linked (link fd (some q) peers)
unfolding link insert
link-Linked fd q peers apart p1 p2 l a b e =
    ground (
      arith,
      l a b,
      ==ℤ_iff fd a,
      ==ℤ_iff q a,
      ==ℤ_iff fd b,
      ==ℤ_iff q b,
      ==ℤ_iff fd q,
      ==ℤ_iff q fd,
    )

-- What `accept` gives is above 0 and no client's.
abbrev pub IsNew : ℤ → Server → Type 0
IsNew fd s = (is_positive fd ≡ true) × (is_client fd s.slots ≡ false)

link-Linked-option :
    (fd : ℤ) (o : Option ℤ) (peers : ℤ → Option ℤ)
    → is_positive fd ≡ true
    → ((q : ℤ) → o ≡ some q → (fd ≢ q) × (is_positive q ≡ true))
    → Linked peers
    → Linked (link fd o peers)
link-Linked-option fd none peers p h l = unfold link in l
link-Linked-option fd (some q) peers p h l = link-Linked fd q peers (h q refl).0 p (h q refl).1 l

seat-IsValid :
    (fd : ℤ) (o : Option ℕ) (s : Server) → IsNew fd s → IsValid s → IsValid (seat fd o s).0
unfolding seat
seat-IsValid fd none s new v = v
seat-IsValid fd (some i) s new v = record {
  places = length-set s.slots i fd ∙ v.places;
  open_clients = λ a h. elim (is_client-set a fd i s.slots h) [
    | inl e ↦ rw e new.0
    | inr old ↦ v.open_clients a old
  ];
  linked =
      link-Linked-option fd (first_other i 0 (set s.slots i fd)) s.peers new.0
        (λ q e.
          let other : is_client q s.slots ≡ true =
            first_other-is_client i 0 i fd q s.slots (omega arith) e in
          (λ same. cc (new.1, ap (λ x. is_client x s.slots) same, other), v.open_clients q other))
        v.linked;
  addressed = λ a h. link-keeps fd (first_other i 0 (set s.slots i fd)) s.peers a (v.addressed a h);
}

pub accept_client-IsValid :
    (fd : ℤ) (s : Server) → IsNew fd s → IsValid s → IsValid (accept_client fd s).0
unfolding accept_client
accept_client-IsValid fd s = seat-IsValid fd (first_free 0 s.slots) s

close_client-IsValid : (fd : ℤ) (s : Server) → IsValid s → IsValid (close_client fd s).0
unfolding close_client
close_client-IsValid fd s v = record {
  places = length-free_slot fd s.slots ∙ v.places;
  open_clients = λ a h. v.open_clients a (is_client-free_slot a fd s.slots h);
  linked = v.linked;
  addressed = v.addressed;
}

post_to-IsValid :
    (r : ℤ) (m : Message) (s : Server)
    → (is_positive r ≡ true → is_some (s.peers r) ≡ true)
    → IsValid s
    → IsValid (post_to r m s)
unfolding post_to insert
post_to-IsValid r m s has_peer v = elim (Bool-cases (is_positive r)) [
  | inr no_fd ↦ rw no_fd v
  | inl real ↦ rw real (record {
    places = v.places;
    open_clients = v.open_clients;
    linked = v.linked;
    addressed = λ a h. ground (arith, v.addressed a, has_peer real, ==ℤ_iff r a);
  })
]

recipient-peer :
    (fd : ℤ) (s : Server) → is_positive (recipient fd s) ≡ true → s.peers fd ≡ some (recipient fd s)
unfolding recipient
recipient-peer fd s h = ground arith

post-IsValid : (fd : ℤ) (m : Message) (s : Server) → IsValid s → IsValid (post fd m s)
unfolding post
post-IsValid fd m s v =
    post_to-IsValid (recipient fd s) m s (λ h. (v.linked fd _ (recipient-peer fd s h)).2) v

process_client-IsValid :
    (fd : ℤ) (r : Received) (s : Server) → IsValid s → IsValid (process_client fd r s).0
unfolding process_client
process_client-IsValid fd end_of_stream s v = close_client-IsValid fd s v
process_client-IsValid fd would_block s v = close_client-IsValid fd s v
process_client-IsValid fd failed s v = post-IsValid fd [] s v
process_client-IsValid fd (bytes m) s v = post-IsValid fd (c_string m) s v

flush-IsValid : (fd : ℤ) (s : Server) → IsValid s → IsValid (flush fd s).0
unfolding flush
flush-IsValid fd s v = record {
  places = v.places;
  open_clients = v.open_clients;
  linked = v.linked;
  addressed = λ a h. ground (arith, v.addressed a);
}

if-IsValid :
    (b : Bool) (x y : Server × List Effect)
    → IsValid x.0
    → IsValid y.0
    → IsValid (if b then x else y).0
if-IsValid true x y h k = h
if-IsValid false x y h k = k

module _ (readfds writefds : ℤ → Bool) (ev : Events) where
  serve_slot-IsValid :
      (i : ℕ) (s : Server) → IsValid s → IsValid (serve_slot readfds writefds ev i s).0
  unfolding serve_slot
  serve_slot-IsValid i s v =
      let fd : ℤ = get_or s.slots i (pos 0) in
      let served : Server × List Effect =
        if readfds fd then process_client fd (ev.received fd) s else (s, []) in
      let kept : IsValid served.0 =
        if-IsValid (readfds fd) _ _ (process_client-IsValid fd (ev.received fd) s v) v in
      let next : ℤ = get_or served.0.slots i (pos 0) in
      if-IsValid (fd ==ℤ pos 0) _ _ v
        (if-IsValid (writefds next) _ _ (flush-IsValid next served.0 kept) kept)

  serve_slots-IsValid :
      (n i : ℕ) (s : Server) → IsValid s → IsValid (serve_slots readfds writefds ev n i s).0
  unfolding serve_slots
  serve_slots-IsValid zero i s v = v
  serve_slots-IsValid (suc n) i s v = serve_slots-IsValid n (suc i) _ (serve_slot-IsValid i s v)

admit-IsValid :
    (o : Option ℤ) (s : Server)
    → ((fd : ℤ) → o ≡ some fd → IsNew fd s)
    → IsValid s
    → IsValid (admit o s).0
unfolding admit
admit-IsValid none s new v = v
admit-IsValid (some fd) s new v = accept_client-IsValid fd s (new fd refl) v

-- Every pass of the loop keeps the table and the links valid, whatever the clients send and whenever
-- they leave, if `accept` gives a descriptor above 0 that is no client's.
pub pass-IsValid :
    (ev : Events) (s : Server)
    → ((fd : ℤ) → ev.accepted ≡ some fd → IsNew fd s)
    → IsValid s
    → IsValid (pass ev s).0
unfolding pass
pass-IsValid ev s new v =
    serve_slots-IsValid (read_set ev s) (write_set ev s) ev num_of_clients 0 (admit ev.accepted s).0
      (admit-IsValid ev.accepted s new v)
