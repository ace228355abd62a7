-- ===== src/Pool/Factory.antt =====
-- connection-pool/src/impl/TcpConnection.h: the factory, with the constructor, the destructor and
-- `disconnect` of a connection. The CClientSocket of that tree opens and closes as that of the
-- protocol server does.
use cpp_socket_programming.Text.{Text, c_string}
use cpp_socket_programming.Prelude.{
  ℕ, ◌+◌, ◌<◌, ◌≡◌, refl, sym, subst, ap, ◌∙◌, inl, inr, List, [], ◌∷◌, ◌++◌, Option, none, some,
  arith, ◌==◌, ltb, if◌then◌else◌, length, count, erase, count-append, count-erase, length-append,
}
use cpp_socket_programming.ClientSocket.{
  How, returns, throws, undefined, State, Answers, close, constructed, construct_with, construct,
  connect,
}
use cpp_socket_programming.ClientSocket.Held.{
  IsFresh, IsHeld, IsMade, AllResolved, construct-IsMade, held, count-erase_absent,
}

-- The descriptors of the connections 0, 1, and so on, with the table of the process; or an exception,
-- with the table that it leaves.
pub data Created : Type 0 where
  created : List ℕ → List ℕ → Created
  threw : List ℕ → Created
  crashed : Created  -- an overflow, or a null pointer that is used

-- `Close`, and the destructors of CClientSocket and of Socket.
unfoldable pub disconnect : ℕ → List ℕ → List ℕ
disconnect fd table = close (some fd) (close (some fd) (close (some fd) table))

-- The destructor of the vector.
unfoldable pub destroy_all : List ℕ → List ℕ → List ℕ
unfolding disconnect
destroy_all [] table = table
destroy_all (fd ∷ fds) table = destroy_all fds (disconnect fd table)

abbrev pub joined : List ℕ → Option ℕ → List ℕ
joined fds none = fds
joined fds (some fd) = fds ++ (fd ∷ [])

-- Behind the constructor of a connection, where `more` is the rest of the loop.
abbrev pub emplaced : List ℕ → How × State → (List ℕ → List ℕ → Created) → Created
emplaced fds (undefined, s) more = crashed
emplaced fds (throws, s) more = threw (destroy_all fds s.table)
emplaced fds (returns, s) more = more (joined fds s.descriptor) s.table

module _ (socket : List ℕ → Option ℕ) (server_name : Text) where
  -- The loop, over the answers for the connections that are still to be made.
  unfoldable pub emplace_back : List Answers → List ℕ → List ℕ → Created
  unfolding construct destroy_all
  emplace_back [] fds table = created fds table
  emplace_back (a ∷ answers) fds table =
      emplaced fds (construct socket server_name a table) (emplace_back answers)

  -- `ConnectionPoolFactory<TcpConnection>::create`, with answers for each connection.
  unfoldable pub create : List Answers → List ℕ → Created
  unfolding emplace_back
  create answers table = emplace_back answers [] table

-- The descriptors are open once each, beside those of before.
pub record IsOwned (before fds table : List ℕ) : Type 0 where
  pub all : (x : ℕ) → count x table ≡ count x before + count x fds
  pub once : (x : ℕ) → 0 < count x fds → count x table ≡ 1

disconnect-count :
    (fd x : ℕ) (table : List ℕ)
    → count fd table ≡ 1
    → count x (disconnect fd table) + (if fd == x then 1 else 0) ≡ count x table
unfolding disconnect
disconnect-count fd x table h =
    let first = erase fd table in
    let gone = count-erase fd fd table (omega (arith, h)) in
    let none_left : count fd first ≡ 0 = ground (arith, gone, h) in
    let second = count-erase_absent fd first in
    ap (λ n. n + (if fd == x then 1 else 0))
      (count-erase_absent fd (erase fd first) x (second fd none_left ∙ none_left)
        ∙ second x none_left)
    ∙ count-erase x fd table (omega (arith, h))

destroy_all-count :
    (before fds table : List ℕ)
    → IsOwned before fds table
    → (x : ℕ) → count x (destroy_all fds table) ≡ count x before
unfolding destroy_all count
destroy_all-count before [] table v x = omega (arith, v.all x)
destroy_all-count before (fd ∷ fds) table v x =
    let one = v.once fd (ground arith) in
    let closed = λ (y : ℕ). disconnect-count fd y table one in
    destroy_all-count before fds (disconnect fd table)
      (record {
        all = λ y. ground (arith, v.all y, closed y);
        once = λ y h. ground (arith, h, v.once y (omega (arith, h)), v.all y, closed y);
      })
      x

constructed-some :
    (fd : ℕ) (table : List ℕ) (how : How)
    → (constructed fd table how).0 ≡ returns
    → (constructed fd table how).1.descriptor ≡ some fd
constructed-some fd table returns e = refl
constructed-some fd table throws e = absurd cc
constructed-some fd table undefined e = absurd cc

construct_with-some :
    (socket : List ℕ → Option ℕ) (name : Text) (a : Answers) (table : List ℕ) (o : Option ℕ)
    → (construct_with socket name a table o).0 ≡ returns
    → (fd : ℕ) × ((construct_with socket name a table o).1.descriptor ≡ some fd)
unfolding construct_with
construct_with-some socket name a table none e = absurd cc
construct_with-some socket name a table (some fd) e = (
  fd,
  constructed-some fd table
      (if ltb (length (c_string name)) 255 then connect (c_string name) a else undefined) e,
)

module _ (before fds table : List ℕ) (v : IsOwned before fds table) where
  IsOwned-same :
      (left : List ℕ) → ((x : ℕ) → count x left ≡ count x table) → IsOwned before fds left
  IsOwned-same left h = record { all = λ x. h x ∙ v.all x; once = λ x k. h x ∙ v.once x k }

  IsOwned-joined :
      (s : State) (fd : ℕ)
      → IsHeld table s
      → s.descriptor ≡ some fd
      → IsOwned before (fds ++ (fd ∷ [])) s.table
  unfolding count
  IsOwned-joined s fd w e =
      let more = λ (x : ℕ). count-append x fds (fd ∷ []) in
      let opened : (x : ℕ) → count x s.table ≡ count x table + held x (some fd) =
        λ x. w.all x ∙ ap (λ d. count x table + held x d) e in
      record {
        all = λ x. omega (arith, more x, opened x, v.all x);
        once = λ x k. ground (arith, k, more x, opened x, w.alone fd e, v.once x);
      }

-- After the call the table is that of before with the descriptors of `n` connections, which are
-- closed again with these; or it is that of before.
abbrev pub IsCreated : List ℕ → ℕ → Created → Type 0
IsCreated before n crashed = ⊥
IsCreated before n (threw table) = (x : ℕ) → count x table ≡ count x before
IsCreated before n (created fds table) =
    (length fds ≡ n)
    × IsOwned before fds table
    × ((x : ℕ) → count x (destroy_all fds table) ≡ count x before)

module _ (socket : List ℕ → Option ℕ) (unused : IsFresh socket) (server_name : Text)
    (fits : length (c_string server_name) < 255) (before : List ℕ) where
  emplaced-IsCreated :
      (n : ℕ) (fds table : List ℕ) (r : How × State) (more : List ℕ → List ℕ → Created)
      → IsOwned before fds table
      → IsMade socket unused server_name table r
      → (r.0 ≡ returns → (fd : ℕ) × (r.1.descriptor ≡ some fd))
      → ((fds' table' : List ℕ)
          → length fds' ≡ length fds + 1
          → IsOwned before fds' table'
          → IsCreated before n (more fds' table'))
      → IsCreated before n (emplaced fds r more)
  emplaced-IsCreated n fds table (undefined, s) more v (inl (e, h)) d go = absurd cc
  emplaced-IsCreated n fds table (undefined, s) more v (inr (e, w)) d go = absurd cc
  emplaced-IsCreated n fds table (throws, s) more v (inl (e, h)) d go =
      destroy_all-count before fds s.table (IsOwned-same before fds table v s.table h)
  emplaced-IsCreated n fds table (throws, s) more v (inr (e, w)) d go = absurd cc
  emplaced-IsCreated n fds table (returns, s) more v (inl (e, h)) d go = absurd cc
  emplaced-IsCreated n fds table (returns, s) more v (inr (e, w)) d go =
      let (fd, same) = d refl in
      subst (λ (o : Option ℕ). IsCreated before n (more (joined fds o) s.table)) (sym same)
        (go (fds ++ (fd ∷ [])) s.table (length-append fds (fd ∷ []))
          (IsOwned-joined before fds table v s fd w same))

  emplace_back-IsCreated :
      (answers : List Answers) (fds table : List ℕ)
      → AllResolved (c_string server_name) answers
      → IsOwned before fds table
      → IsCreated before
          (length fds + length answers)
          (emplace_back socket server_name answers fds table)
  unfolding emplace_back construct
  emplace_back-IsCreated [] fds table hs v = (omega arith, v, destroy_all-count before fds table v)
  emplace_back-IsCreated (a ∷ answers) fds table hs v =
      emplaced-IsCreated (length fds + length (a ∷ answers)) fds table
        (construct socket server_name a table) (emplace_back socket server_name answers) v
        (construct-IsMade socket unused server_name table a fits hs.0)
        (construct_with-some socket server_name a table (socket table))
        (λ fds' table' len w.
          subst (λ k. IsCreated before k (emplace_back socket server_name answers fds' table'))
            (omega (arith, len)) (emplace_back-IsCreated answers fds' table' hs.1 w))

-- The factory, with a name of less than 255 bytes, where `socket` gives descriptors that are not open and
-- each host that is not a name has an entry. Either it makes all the connections, and each holds a
-- descriptor of its own, which was not open before; these and no others are open beside those of
-- before, and the destructors of the connections close exactly these. Or a constructor throws, and the
-- table is that of before: the connections that were made are closed again.
pub create-IsCreated :
    (socket : List ℕ → Option ℕ) (server_name : Text) (answers : List Answers) (before : List ℕ)
    → IsFresh socket
    → length (c_string server_name) < 255
    → AllResolved (c_string server_name) answers
    → IsCreated before (length answers) (create socket server_name answers before)
unfolding create count
create-IsCreated socket server_name answers before unused fits hs =
    subst (λ n. IsCreated before n (create socket server_name answers before)) (omega arith)
      (emplace_back-IsCreated socket unused server_name fits before answers [] before hs
        (record { all = λ x. omega arith; once = λ x k. absurd (omega (arith, k)) }))
