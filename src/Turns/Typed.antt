-- ===== src/Turns/Typed.antt =====
-- What is typed fits the buffers of both programs.
use cpp_socket_programming.Text.{Text, c_string}
use cpp_socket_programming.Prelude.{
  ℕ, zero, suc, ◌≤◌, Bool, true, false, Bool-cases, inl, inr, List, [], ◌∷◌, arith, length,
}
use cpp_socket_programming.Turns.{
  fgets, typed, not_typed, Received, failed, bytes, Round, Effect, sends, shows, closes, How,
  is_exit, client_receives, client_loop, server_sends, server_round, server_loop,
}

fgets_bound : (n : ℕ) (s : Text) → length (fgets n s).0 ≤ n
unfolding fgets
fgets_bound zero s = omega arith
fgets_bound (suc n) [] = omega arith
fgets_bound (suc n) (c ∷ cs) = ground (arith, fgets_bound n cs)

c_string-length : (s : Text) → length (c_string s) ≤ length s
unfolding c_string
c_string-length [] = omega arith
c_string-length (c ∷ cs) = ground (arith, c_string-length cs)

typed_bound : (s : Text) → length (typed s) ≤ 254
unfolding typed
typed_bound s = omega (arith, fgets_bound 254 s, c_string-length (fgets 254 s).0)

-- Every message that is sent leaves room for a NUL in a buffer of 255 bytes.
abbrev pub AllFit : List Effect → Type 0
AllFit [] = Unit {0}
AllFit (sends m ∷ effects) = (length m ≤ 254) × AllFit effects
AllFit (shows m ∷ effects) = AllFit effects
AllFit (closes ∷ effects) = AllFit effects

client_receives-AllFit :
    (r : Received) (more : List Effect × How) → AllFit more.0 → AllFit (client_receives r more).0
unfolding client_receives
client_receives-AllFit failed more h = tt
client_receives-AllFit (bytes b) more h = elim (Bool-cases (is_exit (c_string b))) [
  | inl on ↦ rw on tt
  | inr off ↦ rw off h
]

client_loop-AllFit : (rounds : List Round) (stdin : Text) → AllFit (client_loop stdin rounds).0
unfolding client_loop
client_loop-AllFit [] stdin = (typed_bound stdin, tt)
client_loop-AllFit (r ∷ rest) stdin = elim (Bool-cases r.can_send) [
  | inl on ↦ rw on (
    typed_bound stdin,
    client_receives-AllFit r.received _ (client_loop-AllFit rest (not_typed stdin)),
  )
  | inr off ↦ rw off tt
]

server_sends-AllFit :
    (can_send : Bool) (m : Text) (more : List Effect × How)
    → length m ≤ 254
    → AllFit more.0
    → AllFit (server_sends can_send m more).0
unfolding server_sends
server_sends-AllFit false m more le h = tt
server_sends-AllFit true m more le h = elim (Bool-cases (is_exit m)) [
  | inl on ↦ rw on (le, tt)
  | inr off ↦ rw off (le, h)
]

server_round-AllFit :
    (r : Received) (can_send : Bool) (m : Text) (more : List Effect × How)
    → length m ≤ 254
    → AllFit more.0
    → AllFit (server_round r can_send m more).0
server_round-AllFit failed can_send m more le h = tt
server_round-AllFit (bytes b) can_send m more le h = server_sends-AllFit can_send m more le h

server_loop-AllFit : (rounds : List Round) (stdin : Text) → AllFit (server_loop stdin rounds).0
unfolding server_loop
server_loop-AllFit [] stdin = tt
server_loop-AllFit (r ∷ rest) stdin =
    server_round-AllFit r.received r.can_send (typed stdin) _ (typed_bound stdin)
      (server_loop-AllFit rest (not_typed stdin))

-- Whatever is typed and whatever the calls of the operating system answer, no message of either
-- program is longer than 254 bytes: a peer that reads into 255 cleared bytes finds a NUL behind it.
loops-AllFit :
    (rounds : List Round) (stdin : Text)
    → AllFit (client_loop stdin rounds).0 × AllFit (server_loop stdin rounds).0
loops-AllFit rounds stdin = (client_loop-AllFit rounds stdin, server_loop-AllFit rounds stdin)
