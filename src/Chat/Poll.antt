-- ===== src/Chat/Poll.antt =====
-- The timeout of `select`, which `main` sets once, before its loop.
use cpp_socket_programming.Chat.Program.{
  Loop, Found, fails, nothing, ready, Call, selects, does, round, handle, how, loop,
}
use cpp_socket_programming.Chat.{Effect}
use cpp_socket_programming.Prelude.{
  ℕ, ◌≤◌, ◌≡◌, refl, ap, sym, subst, ◌∙◌, List, [], ◌∷◌, ◌++◌, arith, map,
}

-- The timeouts that `select` is called with.
abbrev pub timeouts : List Call → List ℕ
timeouts [] = []
timeouts (selects n tv ∷ calls) = tv ∷ timeouts calls
timeouts (does e ∷ calls) = timeouts calls

abbrev pub AllZero : List ℕ → Type 0
AllZero [] = Unit
AllZero (t ∷ ts) = (t ≡ 0) × AllZero ts

-- `select` writes the time that is left of the timeout back, as on Linux: none, where nothing was ready
-- in time, and at most the timeout.
abbrev pub IsWrittenBack : ℕ → List Found → Type 0
IsWrittenBack tv [] = Unit
IsWrittenBack tv (fails ∷ rounds) = Unit
IsWrittenBack tv (nothing left ∷ rounds) = (left ≡ 0) × IsWrittenBack left rounds
IsWrittenBack tv (ready ev left ∷ rounds) = (left ≤ tv) × IsWrittenBack left rounds

timeouts-effects :
    (effects : List Effect) (calls : List Call)
    → timeouts (map does effects ++ calls) ≡ timeouts calls
timeouts-effects [] calls = refl
timeouts-effects (e ∷ effects) calls = timeouts-effects effects calls

timeouts-loop :
    (f : Found) (rounds : List Found) (s : Loop)
    → timeouts (loop (f ∷ rounds) s).0 ≡ s.tv ∷ timeouts (how f (loop rounds (round f s).0)).0
unfolding loop
timeouts-loop f rounds s =
    ap (λ l. s.tv ∷ l) (timeouts-effects (round f s).1 (how f (loop rounds (round f s).0)).0)

loop-AllZero :
    (rounds : List Found) (s : Loop)
    → s.tv ≡ 0
    → IsWrittenBack s.tv rounds
    → AllZero (timeouts (loop rounds s).0)
unfolding how handle round loop
loop-AllZero [] s e h = tt
loop-AllZero (fails ∷ rounds) s e h = (e, tt)
loop-AllZero (nothing left ∷ rounds) s e h =
    (e, loop-AllZero rounds (round (nothing left) s).0 h.0 h.1)
loop-AllZero (ready ev left ∷ rounds) s e h =
    let f = ready ev left in
    subst AllZero (sym (timeouts-loop f rounds s))
      (e, loop-AllZero rounds (round f s).0 (omega arith) h.1)

-- Where `select` writes the time that is left back into the timeout, as on Linux: once it has found
-- nothing ready, after any rounds, every later `select` of the loop is called with a timeout of 0, and
-- does not wait.
pub loop-polls :
    (before after : List Found) (left : ℕ) (s : Loop)
    → IsWrittenBack s.tv (before ++ (nothing left ∷ after))
    → (later : List ℕ) × (timeouts (loop (before ++ (nothing left ∷ after)) s).0
        ≡ timeouts (loop (before ++ (nothing left ∷ [])) s).0 ++ later)
      × AllZero later
unfolding how handle round loop
loop-polls [] after left s h = (
  timeouts (loop after (round (nothing left) s).0).0,
  refl,
  loop-AllZero after (round (nothing left) s).0 h.0 h.1,
)
loop-polls (fails ∷ before) after left s h = ([], refl, tt)
loop-polls (nothing l ∷ before) after left s h =
    let (later, same, zeros) = loop-polls before after left (round (nothing l) s).0 h.1 in
    (later, ap (λ ts. s.tv ∷ ts) same, zeros)
loop-polls (ready ev l ∷ before) after left s h =
    let f = ready ev l in
    let (later, same, zeros) = loop-polls before after left (round f s).0 h.1 in
    (
      later,
      timeouts-loop f (before ++ (nothing left ∷ after)) s
          ∙ ap (λ ts. s.tv ∷ ts) same
          ∙ ap (λ ts. ts ++ later) (sym (timeouts-loop f (before ++ (nothing left ∷ [])) s)),
      zeros,
    )
