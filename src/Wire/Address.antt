-- ===== src/Wire/Address.antt =====
-- What the readers of numbers return.
use cpp_socket_programming.Text.{Text}
use cpp_socket_programming.Prelude.{
  ℕ, zero, suc, ◌%◌, ◌^◌, ◌≤◌, ◌≡◌, refl, ap, [], ◌∷◌, ◌++◌, arith, length, length-append, take,
  drop,
}
use cpp_socket_programming.Wire.{
  returns, substr, le_value, ByteOrder, copied, read_int32, read_le_int16, read_le_int24,
  read_le_int64, read_be_int16, read_be_int32, read_be_int64,
}

-- A `std::string` begins with the address of its characters, in 8 bytes. A short one keeps them in
-- itself, so that strings at the same place have the same address there.
pub record IsAddressed (object : Text → Text) (address : Text) : Type 0 where
  pub begins : (s : Text) → length s ≤ 15 → take 8 (object s) ≡ address

take-take : (n m : ℕ) (xs : Text) → n ≤ m → take n (take m xs) ≡ take n xs
take-take zero m xs h = refl
take-take (suc n) zero xs h = absurd (omega arith)
take-take (suc n) (suc m) [] h = refl
take-take (suc n) (suc m) (x ∷ xs) h = ap (λ l. x ∷ l) (take-take n m xs (omega arith))

length-take : (n : ℕ) (xs : Text) → length (take n xs) ≤ n
length-take zero xs = omega arith
length-take (suc n) [] = omega arith
length-take (suc n) (x ∷ xs) = omega (arith, length-take n xs)

substr-inside :
    (start n : ℕ) (buffer : Text)
    → start ≤ length buffer
    → substr start n buffer ≡ returns (take n (drop start buffer))
unfolding substr
substr-inside start n buffer h = ground arith

module _ (order : ByteOrder) (object : Text → Text) (address : Text)
    (addressed : IsAddressed object address) where
  copied-address :
      (n : ℕ) (s : Text)
      → n ≤ 8
      → length s ≤ 15
      → copied order object n s ≡ le_value (take n address)
  unfolding copied
  copied-address n s small short =
      rw (← addressed.begins s short, take-take n 8 (object s) small) refl

  -- Where a string begins with the address of its characters, and short strings at the same place
  -- have the same address: whatever a buffer holds, each of the seven readers of numbers returns the
  -- low bytes of that address, in its byte order, from every start inside the buffer. So no reader
  -- returns what the buffer holds, and the reader of 24 bits returns 32.
  pub readers-address :
      (buffer : Text) (start : ℕ)
      → start ≤ length buffer
      → let word = λ (n : ℕ). le_value (take n address) in
        (read_int32 order object buffer start 4 ≡ returns (order.le 4 (word 4)))
        × (read_le_int16 order object buffer start ≡ returns (order.le 2 (word 2) % 2 ^ 16))
        × (read_le_int24 order object buffer start ≡ returns (order.le 4 (word 4)))
        × (read_le_int64 order object buffer start ≡ returns (order.le 8 (word 8)))
        × (read_be_int16 order object buffer start ≡ returns (order.be 2 (word 2)))
        × (read_be_int32 order object buffer start ≡ returns (order.be 4 (word 4)))
        × (read_be_int64 order object buffer start ≡ returns (order.be 8 (word 8)))
  unfolding read_int32 read_le_int16 read_le_int24 read_le_int64 read_be_int16 read_be_int32
      read_be_int64
  readers-address buffer start h =
      let at = λ (n : ℕ). take n (drop start buffer) in
      let word = λ (n : ℕ) (small : n ≤ 8).
        copied-address n (at n) small (omega (arith, length-take n (drop start buffer))) in
      let in_three =
        copied-address 4 (at 3 ++ (0 ∷ [])) (omega arith)
          (omega (arith, length-append (at 3) (0 ∷ []), length-take 3 (drop start buffer))) in
      (
        rw (substr-inside start 4 buffer h, word 4 (omega arith)) refl,
        rw (substr-inside start 2 buffer h, word 2 (omega arith)) refl,
        rw (substr-inside start 3 buffer h, in_three) refl,
        rw (substr-inside start 8 buffer h, word 8 (omega arith)) refl,
        rw (substr-inside start 2 buffer h, word 2 (omega arith)) refl,
        rw (substr-inside start 4 buffer h, word 4 (omega arith)) refl,
        rw (substr-inside start 8 buffer h, word 8 (omega arith)) refl,
      )
