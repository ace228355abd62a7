-- ===== src/Logger/Quotes.antt =====
-- A cause in a message of the network strategy.
use native.Mathlib.Decide.{ℕ_discrete}
use cpp_socket_programming.Prelude.{
  ℕ, ◌≡◌, refl, Bool, true, false, [], ◌∷◌, ◌++◌, Option, none, some, ◌==◌, if◌then◌else◌, arith,
}
use cpp_socket_programming.Text.{Text}
use cpp_socket_programming.Text.Lines.{Without}
use cpp_socket_programming.Logger.{escape_quotes}

abbrev pub with_byte : ℕ → Option (Text × Text) → Option (Text × Text)
with_byte c none = none
with_byte c (some (t, rest)) = some (c ∷ t, rest)

-- A string of JSON behind its first quote, for the escapes of a quote and of a backslash: the text, and
-- what stands behind the last quote. The flag says that a backslash has been read.
unfoldable pub read_string : Bool → Text → Option (Text × Text)
read_string escaped [] = none
read_string true (c ∷ cs) = with_byte c (read_string false cs)
read_string false (c ∷ cs) =
    let escape = read_string true cs in
    let plain = with_byte c (read_string false cs) in
    if c == b'"' then some ([], cs) else if c == b'\\' then escape else plain

-- A cause without backslash is read back from the message as it was, quotes included, up to the quote
-- that ends the string.
read_string-escape_quotes :
    (t rest : Text)
    → Without b'\\' t
    → read_string false (escape_quotes t ++ (b'"' ∷ rest)) ≡ some (t, rest)
unfolding read_string escape_quotes
read_string-escape_quotes [] rest h = refl
read_string-escape_quotes (c ∷ t) rest h = elim (ℕ_discrete c b'"') [
  | yes e ↦ ground (arith, read_string-escape_quotes t rest h.1)
  | no e ↦ ground (arith, read_string-escape_quotes t rest h.1, h.0)
]
