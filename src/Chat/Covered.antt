-- ===== src/Chat/Covered.antt =====
-- The first argument of `select`: a number above every descriptor in the sets.
use cpp_socket_programming.Chat.{init, is_client}
use cpp_socket_programming.Chat.Valid.{IsValid, IsNew, pass-IsValid}
use cpp_socket_programming.Chat.Program.{
  Loop, at_start, Found, fails, nothing, ready, over, next, grow, fill, nfds, handle, round, run,
}
use cpp_socket_programming.Prelude.{
  zero, suc, ◌≡◌, refl, ◌∙◌, ap, inl, inr, ℤ, pos, negsuc, ◌==ℤ◌, ==ℤ_iff, true, false, ◌&&◌, not,
  List, [], ◌∷◌, some, arith, Bool-cases,
}

-- m + 1 > a where a is not above m.
over-next : (m a : ℤ) → over (next m) a ≡ not (over a m)
over-next (pos m) (pos a) = ground arith
over-next (pos m) (negsuc a) = refl
over-next (negsuc zero) (pos zero) = refl
over-next (negsuc zero) (pos (suc a)) = ground arith
over-next (negsuc zero) (negsuc a) = ground arith
over-next (negsuc (suc m)) (pos a) = refl
over-next (negsuc (suc m)) (negsuc a) = ground arith

over_below : (x m a : ℤ) → over x m ≡ true → over a m ≡ false → over a x ≡ false
over_below (pos x) (pos m) (pos a) h k = ground arith
over_below (pos x) (pos m) (negsuc a) h k = refl
over_below (pos x) (negsuc m) (pos a) h k = absurd cc
over_below (pos x) (negsuc m) (negsuc a) h k = refl
over_below (negsuc x) (pos m) a h k = absurd cc
over_below (negsuc x) (negsuc m) (pos a) h k = absurd cc
over_below (negsuc x) (negsuc m) (negsuc a) h k = ground arith

over_self : (a : ℤ) → over a a ≡ false
over_self (pos n) = ground arith
over_self (negsuc n) = ground arith

grow-over : (xs : List ℤ) (m a : ℤ) → over (next m) a ≡ true → over (next (grow xs m)) a ≡ true
unfolding grow
grow-over [] m a h = h
grow-over (x ∷ xs) m a h = elim (Bool-cases (not (x ==ℤ pos 0) && over x m)) [
  | inl on ↦
      rw on (grow-over xs x a (ground (arith, over-next x a, over-next m a, over_below x m a)))
  | inr off ↦ rw off (grow-over xs m a h)
]

grow-client : (xs : List ℤ) (m a : ℤ) → is_client a xs ≡ true → over (next (grow xs m)) a ≡ true
unfolding grow is_client
grow-client [] m a h = absurd cc
grow-client (x ∷ xs) m a h = elim (Bool-cases (not (x ==ℤ pos 0) && over x m)) [
  | inl on ↦ rw on (
      ground (arith, ==ℤ_iff x a, over_self a, over-next x a, grow-over xs x a, grow-client xs x a))
  | inr off ↦ rw off (
      ground (
        arith,
        ==ℤ_iff x a,
        ==ℤ_iff x (pos 0),
        over-next m a,
        grow-over xs m a,
        grow-client xs m a,
      ))
]

-- What `accept` gives in each round is above 0 and no client's.
abbrev pub IsNewcomers : List Found → Loop → Type 0
IsNewcomers [] s = Unit
IsNewcomers (fails ∷ rounds) s = IsNewcomers rounds (round fails s).0
IsNewcomers (nothing left ∷ rounds) s = IsNewcomers rounds (round (nothing left) s).0
IsNewcomers (ready ev left ∷ rounds) s =
    ((fd : ℤ) → ev.accepted ≡ some fd → IsNew fd s.server)
    × IsNewcomers rounds (round (ready ev left) s).0

init-IsValid : IsValid init
unfolding is_client
init-IsValid = record {
  places = refl;
  open_clients = λ a h. absurd (ground arith);
  linked = λ a b e. absurd cc;
  addressed = λ a h. absurd cc;
}

-- The listening socket.
module _ (fd : ℤ) where
  run-covers_from :
      (rounds : List Found) (s : Loop)
      → IsNewcomers rounds s
      → IsValid s.server
      → over (next s.max) fd ≡ true
      → let t = run rounds s in IsValid t.server × (over (next t.max) fd ≡ true)
  unfolding run round handle fill
  run-covers_from [] s new valid above = (valid, above)
  run-covers_from (fails ∷ rounds) s new valid above =
      run-covers_from rounds (round fails s).0 new valid (grow-over s.server.slots s.max fd above)
  run-covers_from (nothing left ∷ rounds) s new valid above =
      run-covers_from rounds (round (nothing left) s).0 new valid
        (grow-over s.server.slots s.max fd above)
  run-covers_from (ready ev left ∷ rounds) s new valid above =
      run-covers_from rounds (round (ready ev left) s).0 new.1
        (pass-IsValid ev s.server new.0 valid) (grow-over s.server.slots s.max fd above)

-- After any rounds of the loop in which `accept` gives descriptors above 0 that are no client's: the
-- table and the links are valid, and the next `select` is called with a number above the listening
-- socket and above the descriptor of every client in the table.
pub run-covers :
    (fd : ℤ) (rounds : List Found)
    → IsNewcomers rounds (at_start fd)
    → let s = run rounds (at_start fd) in
      IsValid s.server
      × (over (nfds (fill s)) fd ≡ true)
      × ((a : ℤ) → is_client a s.server.slots ≡ true → over (nfds (fill s)) a ≡ true)
unfolding fill
run-covers fd rounds new =
    let s = run rounds (at_start fd) in
    let (valid, above) =
      run-covers_from fd rounds (at_start fd) new init-IsValid
        (over-next fd fd ∙ ap not (over_self fd)) in
    (valid, grow-over s.server.slots s.max fd above, λ a h. grow-client s.server.slots s.max a h)
