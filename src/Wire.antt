-- ===== src/Wire.antt =====
-- protocol-server/src/utils/ProtocolHelper.h: reading numbers and texts from a buffer. The readers
-- copy the first bytes of a `std::string` object, not of its characters; what the memory of such an
-- object holds is the argument `object`. The conversions of the byte order, from the headers that
-- utils/endian_utils.h chooses, are arguments as well. A negative `start` is not in the model.
pub mod Address
pub mod Ends
mod Tests
use cpp_socket_programming.Text.{Text}
use cpp_socket_programming.Prelude.{
  ℕ, zero, suc, ◌+◌, ◌*◌, ◌%◌, ◌^◌, List, [], ◌∷◌, ◌++◌, Option, none, some, ◌==◌, ltb,
  if◌then◌else◌, length, take, drop,
}

-- What a call does: it returns, throws, or its behaviour is undefined.
pub data Result (A : Type 0) : Type 0 where
  returns : A → Result A
  throws undefined : Result A

-- `std::string::substr`.
unfoldable pub substr : ℕ → ℕ → Text → Result Text
substr start n buffer =
    if ltb (length buffer) start then throws else returns (take n (drop start buffer))

-- The number whose bytes are these, the least significant first.
unfoldable pub le_value : Text → ℕ
le_value [] = 0
le_value (b ∷ bytes) = b + 256 * le_value bytes

-- `le16toh`, `be16toh` and the like, for a number of bytes.
pub record ByteOrder : Type 0 where
  pub le : ℕ → ℕ → ℕ
  pub be : ℕ → ℕ → ℕ

module _ (order : ByteOrder) (object : Text → Text) where
  -- `memcpy` of this many bytes from the object into a variable that is 0.
  unfoldable pub copied : ℕ → Text → ℕ
  unfolding le_value
  copied n s = le_value (take n (object s))

  abbrev pub then_return : {A B : Type 0} → (A → B) → Result A → Result B
  then_return f (returns a) = returns (f a)
  then_return f throws = throws
  then_return f undefined = undefined

  -- A `length` above 4 overflows the variable.
  abbrev pub within_four : ℕ → Result ℕ → Result ℕ
  within_four n (returns a) = if ltb 4 n then undefined else returns a
  within_four n throws = throws
  within_four n undefined = undefined

  unfoldable pub read_int32 : Text → ℕ → ℕ → Result ℕ
  unfolding substr copied
  read_int32 buffer start n =
      within_four n (then_return (λ s. order.le 4 (copied n s)) (substr start n buffer))

  unfoldable pub read_le_int16 : Text → ℕ → Result ℕ
  unfolding substr copied
  read_le_int16 buffer start =
      then_return (λ s. order.le 2 (copied 2 s) % 2 ^ 16) (substr start 2 buffer)

  unfoldable pub read_le_int24 : Text → ℕ → Result ℕ
  unfolding substr copied
  read_le_int24 buffer start =
      then_return (λ s. order.le 4 (copied 4 (s ++ (0 ∷ [])))) (substr start 3 buffer)

  unfoldable pub read_le_int64 : Text → ℕ → Result ℕ
  unfolding substr copied
  read_le_int64 buffer start = then_return (λ s. order.le 8 (copied 8 s)) (substr start 8 buffer)

  unfoldable pub read_be_int16 : Text → ℕ → Result ℕ
  unfolding substr copied
  read_be_int16 buffer start = then_return (λ s. order.be 2 (copied 2 s)) (substr start 2 buffer)

  unfoldable pub read_be_int32 : Text → ℕ → Result ℕ
  unfolding substr copied
  read_be_int32 buffer start = then_return (λ s. order.be 4 (copied 4 s)) (substr start 4 buffer)

  unfoldable pub read_be_int64 : Text → ℕ → Result ℕ
  unfolding substr copied
  read_be_int64 buffer start = then_return (λ s. order.be 8 (copied 8 s)) (substr start 8 buffer)

-- `buffer[i]`, which is NUL at the end of the buffer.
unfoldable pub char_at : Text → ℕ → Result ℕ
char_at [] zero = returns 0
char_at [] (suc i) = undefined
char_at (c ∷ cs) zero = returns c
char_at (c ∷ cs) (suc i) = char_at cs i

unfoldable pub read_byte : Text → ℕ → Result ℕ
unfolding char_at
read_byte buffer start = char_at buffer start

-- A round of the loop of `readCString`, where `more` is the loop behind it.
abbrev pub read_char : Text → Result ℕ → (Text → Option (Result Text)) → Option (Result Text)
read_char name throws more = some throws
read_char name undefined more = some undefined
read_char name (returns c) more =
    let rest = more (name ++ (c ∷ [])) in if c == 0 then some (returns name) else rest

-- The loop, on fuel; `none` is a loop that goes on.
unfoldable pub read_chars : ℕ → Text → Text → ℕ → Option (Result Text)
unfolding char_at
read_chars zero buffer name i = none
read_chars (suc fuel) buffer name i =
    read_char name (char_at buffer i) (λ longer. read_chars fuel buffer longer (suc i))

unfoldable pub read_c_string : ℕ → Text → ℕ → Option (Result Text)
unfolding read_chars
read_c_string fuel buffer start = read_chars fuel buffer [] start
