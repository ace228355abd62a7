-- ===== src/Chat/Mail.antt =====
-- Where messages go, and which are lost.
use cpp_socket_programming.Prelude.{
  ℕ, suc, ◌≡◌, refl, ap, ◌∙◌, ◌≢◌, ℤ, pos, is_positive, ==ℤ_iff, ==ℤ_self, true, List, [], ◌∷◌,
  Option, none, some, arith, if◌then◌else◌, set,
}
use cpp_socket_programming.Chat.{
  Message, Server, sends, bytes, greeting, init, is_some, insert, close_client, c_string, recipient,
  post, post_to, process_client, first_free, first_other, link, seat, accept_client, free_slot,
}

recipient-some : (fd r : ℤ) (s : Server) → s.peers fd ≡ some r → recipient fd s ≡ r
unfolding recipient
recipient-some fd r s e = rw (e, recipient)

process_client-bytes :
    (fd r : ℤ) (m : Message) (s : Server)
    → s.peers fd ≡ some r
    → is_positive r ≡ true
    → process_client fd (bytes m) s ≡ (record s { queue = insert r (c_string m) s.queue }, [])
unfolding process_client post post_to
process_client-bytes fd r m s e real = rw (recipient-some fd r s e, real)

module _ {V : Type 0} (k : ℤ) (v : V) (m : ℤ → Option V) where
  insert_self : insert k v m k ≡ (if is_some (m k) then m k else some v)
  unfolding insert
  insert_self = ground (arith, ==ℤ_self k)

  insert-ne : (a : ℤ) → a ≢ k → insert k v m a ≡ m a
  unfolding insert
  insert-ne a apart = ground (arith, ==ℤ_iff k a)

  insert-some : is_some (m k) ≡ true → insert k v m ≡ m
  unfolding insert
  insert-some h = rw h

-- A client's bytes, up to the first NUL, are put in the mail of its peer, if nothing waits there;
-- otherwise the new message is dropped and the old one stays. Nothing else changes.
pub process_client-mail :
    (fd r : ℤ) (m : Message) (s : Server)
    → s.peers fd ≡ some r
    → is_positive r ≡ true
    → let t = (process_client fd (bytes m) s).0 in
      (t.slots ≡ s.slots)
      × (t.peers ≡ s.peers)
      × (t.queue r ≡ (if is_some (s.queue r) then s.queue r else some (c_string m)))
      × ((a : ℤ) → a ≢ r → t.queue a ≡ s.queue a)
process_client-mail fd r m s e real =
    let q = process_client-bytes fd r m s e real in
    (
      rw q,
      rw q,
      rw q (insert_self r (c_string m) s.queue),
      λ a apart. rw q (insert-ne r (c_string m) s.queue a apart),
    )

-- Of two messages from a client with no delivery between them, the second is lost: the
-- server stays as the first has left it, and nothing is sent.
pub second_message_lost :
    (fd r : ℤ) (m m' : Message) (s : Server)
    → s.peers fd ≡ some r
    → is_positive r ≡ true
    → let t = (process_client fd (bytes m) s).0 in process_client fd (bytes m') t ≡ (t, [])
second_message_lost fd r m m' s e real =
    let after : ℤ → Option Message = insert r (c_string m) s.queue in
    let pending : is_some (after r) ≡ true =
      rw (insert_self r (c_string m) s.queue) (ground arith) in
    rw (process_client-bytes fd r m s e real) (
      process_client-bytes fd r m' (record s { queue = after }) e real
      ∙ ap (λ (q : ℤ → Option Message). (record s { queue = q }, []))
          (insert-some r (c_string m') after pending))

link-old :
    (a old fd q : ℤ) (peers : ℤ → Option ℤ)
    → peers a ≡ some old
    → link fd (some q) peers a ≡ some old
unfolding link insert
link-old a old fd q peers e = ground (arith, ==ℤ_iff q a, ==ℤ_iff fd a, ==ℤ_self a)

link-new :
    (fd q : ℤ) (peers : ℤ → Option ℤ)
    → peers fd ≡ none
    → fd ≢ q
    → link fd (some q) peers fd ≡ some q
unfolding link insert
link-new fd q peers e apart = ground (arith, ==ℤ_iff q fd, ==ℤ_self fd)

process_client-elsewhere :
    (q r a : ℤ) (m : Message) (s : Server)
    → s.peers q ≡ some r
    → a ≢ r
    → (process_client q (bytes m) s).0.queue a ≡ s.queue a
unfolding process_client post post_to
process_client-elsewhere q r a m s e apart =
    rw (recipient-some q r s e) (ground (arith, insert-ne r (c_string m) s.queue a apart))

-- A client whose peer `gone` has been shut down stays linked to it. So the next newcomer `fd` that
-- is linked to that client gets no mail from it, though its own goes there.
newcomer_unanswered :
    (i : ℕ) (fd q gone : ℤ) (m : Message) (s : Server)
    → s.peers q ≡ some gone
    → s.peers fd ≡ none
    → fd ≢ q
    → fd ≢ gone
    → first_free 0 (close_client gone s).0.slots ≡ some i
    → first_other i 0 (set (close_client gone s).0.slots i fd) ≡ some q
    → let t = (accept_client fd (close_client gone s).0).0 in
      (t.peers fd ≡ some q)
      × (t.peers q ≡ some gone)
      × ((process_client q (bytes m) t).0.queue fd ≡ t.queue fd)
unfolding accept_client close_client seat
newcomer_unanswered i fd q gone m s linked new apart left free other =
    let old : link fd (some q) s.peers q ≡ some gone = link-old q gone fd q s.peers linked in
    rw (free, other)
      (
        link-new fd q s.peers new apart,
        old,
        process_client-elsewhere q gone fd m
            (record s {
              slots = set (free_slot gone s.slots) i fd;
              peers = link fd (some q) s.peers;
            })
            old left,
      )

-- No place of the table is free.
abbrev pub AllTaken : List ℤ → Type 0
AllTaken [] = Unit {0}
AllTaken (x ∷ xs) = (x ≢ pos 0) × AllTaken xs

first_free-taken : (i : ℕ) (xs : List ℤ) → AllTaken xs → first_free i xs ≡ none
unfolding first_free
first_free-taken i [] h = refl
first_free-taken i (x ∷ xs) h = ground (arith, ==ℤ_iff x (pos 0), first_free-taken (suc i) xs)

-- When no slot is free, a newcomer is dropped: the server stays as it is, and the new socket is
-- neither greeted nor shut down.
pub accept_client-full : (fd : ℤ) (s : Server) → AllTaken s.slots → accept_client fd s ≡ (s, [])
unfolding accept_client seat
accept_client-full fd s h = rw (first_free-taken 0 s.slots h)

-- The first two clients are linked to each other, and the greeting is sent.
pub accept_client-pairs :
    (a b : ℤ)
    → is_positive a ≡ true
    → is_positive b ≡ true
    → a ≢ b
    → let s = (accept_client a init).0 in
      let t = accept_client b s in
      (t.0.slots ≡ a ∷ b ∷ pos 0 ∷ pos 0 ∷ pos 0 ∷ [])
      × (t.0.peers a ≡ some b)
      × (t.0.peers b ≡ some a)
      × (t.1 ≡ sends b greeting ∷ [])
unfolding accept_client seat link insert first_free first_other
accept_client-pairs a b p q apart =
    ground (
      arith,
      ==ℤ_iff a b,
      ==ℤ_iff b a,
      ==ℤ_self a,
      ==ℤ_self b,
      ==ℤ_iff a (pos 0),
      ==ℤ_iff b (pos 0),
    )
