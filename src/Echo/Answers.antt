-- ===== src/Echo/Answers.antt =====
-- ssl-client/Client.cpp: the client from its request to its end.
use cpp_socket_programming.Text.{Text, c_string}
use cpp_socket_programming.Prelude.{
  ◌<◌, ◌≡◌, refl, ◌∙◌, true, false, List, [], ◌∷◌, ◌++◌, append-nil, arith, length,
}
use cpp_socket_programming.Echo.{
  chunk, ended, Effect, writes, shows, cleans, leaves, stops, rxcap, after, terminate, is_blank,
  Round, exchange, client_loop, client,
}
use cpp_socket_programming.Echo.Request.{request}

-- A text is written, and the answer comes.
abbrev pub answer : Text → Round
answer b = record { can_write = true; read = chunk b }

-- The server has closed when the client reads.
abbrev pub gone : Round
gone = record { can_write = true; read = ended }

-- Lines that are not blank, each with an answer that leaves a place behind it.
abbrev pub AllAsked : List (Text × Text) → Type 0
AllAsked [] = Unit {0}
AllAsked ((l, b) ∷ turns) = (is_blank l ≡ false) × (length b < rxcap) × AllAsked turns

abbrev pub client_view : List (Text × Text) → List Effect
client_view [] = []
client_view ((l, b) ∷ turns) = writes l ∷ shows (c_string b) ∷ client_view turns

abbrev pub asked : List (Text × Text) → List Text
asked [] = []
asked ((l, b) ∷ turns) = l ∷ asked turns

abbrev pub answered : List (Text × Text) → List Round
answered [] = []
answered ((l, b) ∷ turns) = answer b ∷ answered turns

client_loop-append :
    (turns : List (Text × Text)) (lines : List Text) (rounds : List Round)
    → AllAsked turns
    → client_loop (asked turns ++ lines) (answered turns ++ rounds)
      ≡ after (client_view turns) (client_loop lines rounds)
unfolding client_loop exchange terminate
client_loop-append [] lines rounds h = refl
client_loop-append ((l, b) ∷ turns) lines rounds h =
    rw (h.0, client_loop-append turns lines rounds h.2) (ground (arith, h.1))

-- The request goes out first, and its answer is shown.
client-request :
    (first : Text) (lines : List Text) (rounds : List Round)
    → length first < rxcap
    → client (answer first) lines rounds
      ≡ after (writes request ∷ shows (c_string first) ∷ []) (client_loop lines rounds)
unfolding client exchange terminate
client-request first lines rounds h = ground (arith, h)

client_loop-blank :
    (l : Text) (lines : List Text) (rounds : List Round)
    → is_blank l ≡ true
    → client_loop (l ∷ lines) rounds ≡ (cleans ∷ [], stops)
unfolding client_loop
client_loop-blank l lines [] h = rw h refl
client_loop-blank l lines (r ∷ rounds) h = rw h refl

client_loop-gone :
    (l : Text) (lines : List Text) (rounds : List Round)
    → is_blank l ≡ false
    → client_loop (l ∷ lines) (gone ∷ rounds) ≡ (writes l ∷ cleans ∷ [], leaves)
unfolding client_loop exchange
client_loop-gone l lines rounds h = rw h refl

-- The request and each line that is not blank are answered in one read of at most 127 bytes: the
-- client writes the request and shows its answer, and then writes each line once, in order, and shows
-- the answer, up to a NUL in it, before the next line. Behind any number of such lines it stops at a
-- blank line, whatever is typed or answered after that, and at the end of the input; where the server
-- has closed instead of answering a line, it leaves. It cleans up once in each case.
pub client-answers :
    (first : Text) (turns : List (Text × Text)) (blank l : Text) (lines : List Text)
    (rounds : List Round)
    → length first < rxcap
    → AllAsked turns
    → is_blank blank ≡ true
    → is_blank l ≡ false
    → let view = writes request ∷ shows (c_string first) ∷ client_view turns in
      (client (answer first) (asked turns ++ (blank ∷ lines)) (answered turns ++ rounds)
        ≡ (view ++ (cleans ∷ []), stops))
      × (client (answer first) (asked turns) (answered turns ++ rounds)
          ≡ (view ++ (cleans ∷ []), stops))
      × (client (answer first) (asked turns ++ (l ∷ lines)) (answered turns ++ (gone ∷ rounds))
          ≡ (view ++ (writes l ∷ cleans ∷ []), leaves))
unfolding client_loop
client-answers first turns blank l lines rounds h hs is_end is_line =
    let run = λ (ks : List Text) (rs : List Round). client-request first ks rs h in
    (
      run (asked turns ++ (blank ∷ lines)) (answered turns ++ rounds)
          ∙ rw
              (
                client_loop-append turns (blank ∷ lines) rounds hs,
                client_loop-blank blank lines rounds is_end,
              )
              refl,
      run (asked turns) (answered turns ++ rounds)
          ∙ rw (← append-nil (asked turns)) (rw (client_loop-append turns [] rounds hs) refl),
      run (asked turns ++ (l ∷ lines)) (answered turns ++ (gone ∷ rounds))
          ∙ rw
              (
                client_loop-append turns (l ∷ lines) (gone ∷ rounds) hs,
                client_loop-gone l lines rounds is_line,
              )
              refl,
    )
