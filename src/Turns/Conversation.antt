-- ===== src/Turns/Conversation.antt =====
-- A conversation of the two programs.
use cpp_socket_programming.Text.{Text, c_string}
use cpp_socket_programming.Text.Lines.{Without, Without-append, c_string-whole}
use cpp_socket_programming.Prelude.{
  ℕ, zero, suc, ◌<◌, ◌≡◌, refl, ap, ◌∙◌, Bool, true, false, List, [], ◌∷◌, ◌++◌, if◌then◌else◌,
  arith, length,
}
use cpp_socket_programming.Turns.{
  fgets, typed, not_typed, bytes, Round, Effect, sends, shows, closes, How, returns, is_exit,
}

-- A line that fits the buffer with its newline.
abbrev pub IsLine : Text → Type 0
IsLine l = Without 10 l × Without 0 l × (length l < 254)

abbrev pub line : Text → Text
line l = l ++ (10 ∷ [])

-- What is typed: lines, and whatever comes behind them.
abbrev pub all_typed : List Text → Text → Text
all_typed [] rest = rest
all_typed (l ∷ lines) rest = l ++ (10 ∷ all_typed lines rest)

fgets-line :
    (n : ℕ) (l rest : Text)
    → Without 10 l
    → length l < n
    → fgets n (l ++ (10 ∷ rest)) ≡ (line l, rest)
unfolding fgets
fgets-line zero l rest h lt = absurd (omega arith)
fgets-line (suc n) [] rest h lt = refl
fgets-line (suc n) (c ∷ l) rest h lt = ground (arith, fgets-line n l rest h.1 (omega arith))

module _ (l rest : Text) (is_line : IsLine l) where
  pub typed-line : typed (l ++ (10 ∷ rest)) ≡ line l
  unfolding typed
  typed-line =
      ap (λ (r : Text × Text). c_string r.0) (fgets-line 254 l rest is_line.0 is_line.2)
      ∙ c_string-whole (line l) (Without-append 0 l (10 ∷ []) is_line.1 (omega arith))

  pub not_typed-line : not_typed (l ++ (10 ∷ rest)) ≡ rest
  unfolding not_typed
  not_typed-line = ap (λ (r : Text × Text). r.1) (fgets-line 254 l rest is_line.0 is_line.2)

pub c_string-line : (l : Text) → IsLine l → c_string (line l) ≡ line l
c_string-line l h = c_string-whole (line l) (Without-append 0 l (10 ∷ []) h.1 (omega arith))

-- A turn is what the client's user types and what the server's user answers. The server's user types
-- "exit" in the last turn, and only there.
abbrev pub Turn : Type 0
Turn = Text × Text

abbrev pub IsConversation : List Turn → Type 0
IsConversation [] = ⊥
IsConversation (t ∷ []) = IsLine t.0 × IsLine t.1 × (is_exit (line t.1) ≡ true)
IsConversation (t ∷ u ∷ turns) =
    IsLine t.0 × IsLine t.1 × (is_exit (line t.1) ≡ false) × IsConversation (u ∷ turns)

-- The other side's message arrives whole.
abbrev pub arrives : Text → Round
arrives l = record { can_send = true; received = bytes (line l) }

abbrev pub client_view : List Turn → List Effect
client_view [] = closes ∷ []
client_view ((c, s) ∷ turns) = sends (line c) ∷ shows (line s) ∷ client_view turns

abbrev pub server_view : List Turn → List Effect
server_view [] = closes ∷ closes ∷ []
server_view ((c, s) ∷ turns) = shows (line c) ∷ sends (line s) ∷ server_view turns

abbrev ends_or : Bool → List Effect → List Effect × How → List Effect × How
ends_or b last more = if b then (last, returns) else more
