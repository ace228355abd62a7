-- ===== src/Wire/Tests.antt =====
-- The theorems about the readers at concrete inputs.
use cpp_socket_programming.Text.{Text}
use cpp_socket_programming.Prelude.{
  ℕ, zero, suc, ◌+◌, ◌*◌, ◌/◌, ◌%◌, ◌^◌, ◌≡◌, refl, [], ◌∷◌, ◌++◌, length,
}
use cpp_socket_programming.Wire.{returns, throws, substr, ByteOrder, read_int32, read_byte}
use cpp_socket_programming.Wire.Address.{IsAddressed}

abbrev swap : ℕ → ℕ → ℕ
swap zero x = 0
swap (suc n) x = x % 256 * 256 ^ n + swap n (x / 256)

-- A little-endian machine.
abbrev order : ByteOrder
order = record { le = λ n x. x; be = swap }

abbrev address : Text
address = 16 ∷ 32 ∷ 48 ∷ 64 ∷ 80 ∷ 0 ∷ 0 ∷ 0 ∷ []

-- The address, the length and the characters.
abbrev object : Text → Text
object s = address ++ (length s ∷ 0 ∷ 0 ∷ 0 ∷ 0 ∷ 0 ∷ 0 ∷ 0 ∷ s)

object-IsAddressed : IsAddressed object address
object-IsAddressed = record { begins = λ s h. refl }

-- 1, 2, 3, ... at 1 in the buffer
abbrev buffer : Text
buffer = 9 ∷ 1 ∷ 2 ∷ 3 ∷ 4 ∷ 5 ∷ 6 ∷ 7 ∷ 8 ∷ 0 ∷ 7 ∷ []

substr_past : read_int32 order object buffer 12 4 ≡ throws
unfolding read_int32 substr
substr_past = refl

read_byte_end : read_byte buffer 11 ≡ returns 0
unfolding read_byte
read_byte_end = refl
