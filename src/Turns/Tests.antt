-- ===== src/Turns/Tests.antt =====
-- A conversation of two turns, in which both users type "exit".
use cpp_socket_programming.Text.{Text}
use cpp_socket_programming.Prelude.{true, List, [], ◌∷◌}
use cpp_socket_programming.Turns.{failed, bytes, Round}
use cpp_socket_programming.Turns.Conversation.{Turn}

abbrev exit : Text
exit = 101 ∷ 120 ∷ 105 ∷ 116 ∷ []

abbrev turns : List Turn
turns = (exit, 104 ∷ 105 ∷ []) ∷ (98 ∷ [], exit) ∷ []

abbrev cut : List Round
cut =
    record { can_send = true; received = bytes (104 ∷ []) }
    ∷ record { can_send = true; received = failed }
    ∷ []
