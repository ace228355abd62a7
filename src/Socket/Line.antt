-- ===== src/Socket/Line.antt =====
-- Lines sent by `SendLine` are received whole by `ReceiveLine`.
use cpp_socket_programming.Prelude.{
  ℕ, ◌≡◌, refl, sym, ap, ◌∙◌, ◌≢◌, List, [], ◌∷◌, ◌++◌, map, append_assoc, append-nil, some, arith,
}
use cpp_socket_programming.Socket.{
  Bytes, Answer, byte, end_of_stream, failed, send_line, receive_line,
}

-- No newline inside.
abbrev pub IsOneLine : Bytes → Type 0
IsOneLine [] = Unit {0}
IsOneLine (c ∷ cs) = (c ≢ 10) × IsOneLine cs

receive_line-byte :
    (ret : Bytes) (c : ℕ) (rest : List Answer)
    → c ≢ 10
    → receive_line ret (byte c ∷ rest) ≡ receive_line (ret ++ c ∷ []) rest
unfolding receive_line
receive_line-byte ret c rest h = ground arith

-- Bytes without a newline are gathered.
receive_line-append :
    (ret s : Bytes) (rest : List Answer)
    → IsOneLine s
    → receive_line ret (map byte s ++ rest) ≡ receive_line (ret ++ s) rest
receive_line-append ret [] rest h = ap (λ r. receive_line r rest) (sym (append-nil ret))
receive_line-append ret (c ∷ s) rest h =
    receive_line-byte ret c (map byte s ++ rest) h.0
    ∙ receive_line-append (ret ++ c ∷ []) s rest h.1
    ∙ ap (λ r. receive_line r rest) (append_assoc ret (c ∷ []) s)

-- What `SendLine` sends arrives as one line with its newline, and what follows is left for the next.
receive_line-send_line :
    (s : Bytes) (rest : List Answer)
    → IsOneLine s
    → receive_line [] (map byte (send_line s) ++ rest) ≡ some (s ++ 10 ∷ [], rest)
unfolding send_line
receive_line-send_line s rest h =
    ap (λ l. receive_line [] l) (map_line s)
    ∙ receive_line-append [] s (byte 10 ∷ rest) h
    ∙ unfold receive_line in refl
  where
    map_line : (t : Bytes) → map byte (t ++ 10 ∷ []) ++ rest ≡ map byte t ++ byte 10 ∷ rest
    map_line [] = refl
    map_line (c ∷ t) = ap (λ l. byte c ∷ l) (map_line t)

-- A connection that is closed in the middle of a line gives the part that has arrived; after an
-- error that part is lost, and the caller gets the empty text.
pub receive_line-cut :
    (s : Bytes) (rest : List Answer)
    → IsOneLine s
    → (receive_line [] (map byte s ++ end_of_stream ∷ rest) ≡ some (s, rest))
      × (receive_line [] (map byte s ++ failed ∷ rest) ≡ some ([], rest))
unfolding receive_line
receive_line-cut s rest h =
    (receive_line-append [] s (end_of_stream ∷ rest) h, receive_line-append [] s (failed ∷ rest) h)
