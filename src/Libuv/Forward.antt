-- ===== src/Libuv/Forward.antt =====
-- What arrives at the other handle of a pair.
use cpp_socket_programming.Prelude.{
  ℕ, ◌≡◌, refl, sym, ap, ◌∙◌, Bool, not, ◌&&◌, List, [], ◌∷◌, ◌++◌, append-nil, append_assoc, some,
  if◌then◌else◌,
}
use cpp_socket_programming.Libuv.Paired.{IsPaired}
use cpp_socket_programming.Libuv.Life.{AllResolved, step-IsPaired}
use cpp_socket_programming.Libuv.{Bytes, State, Event, run}
use cpp_socket_programming.Libuv.Moves.{gives, ends, IsAt, step-IsMove}

-- The specification: all that is read from `h`, in order, until the pair ends.
unfoldable pub forwarded : Bool → ℕ → ℕ → List Event → Bytes
forwarded is_on h p [] = []
forwarded is_on h p (e ∷ events) =
    (if is_on then gives h e else []) ++ forwarded (is_on && not (ends h p e)) h p events

-- From a pair of which both handles are read, or none (where `is_on` is false and nothing is), through
-- any events as long as hosts are found: what is
-- handed to `uv_write` for one handle is, in order, all that is read from the other, up to the first
-- end of one of the two and nothing behind it, whatever happens on other pairs meanwhile.
pub run-forwarded :
    (events : List Event) (h p : ℕ) (is_on : Bool) (s : State)
    → AllResolved events
    → IsPaired s
    → IsAt h p is_on s
    → (s' : State) × (run events s ≡ some s')
      × (s'.written p ≡ s.written p ++ forwarded is_on h p events)
unfolding run forwarded
run-forwarded [] h p is_on s found v i = (s, refl, sym (append-nil (s.written p)))
run-forwarded (e ∷ events) h p is_on s found v i =
    let (s₁, first, v₁) = step-IsPaired e s found.0 v in
    let moved = step-IsMove h p is_on s v i e s₁ first in
    let (s₂, later, end_) =
      run-forwarded events h p (is_on && not (ends h p e)) s₁ found.1 v₁ moved.0 in
    (
      s₂,
      rw (first, later),
      end_
          ∙ ap (λ l. l ++ forwarded (is_on && not (ends h p e)) h p events) moved.1
          ∙ append_assoc (s.written p) (if is_on then gives h e else [])
              (forwarded (is_on && not (ends h p e)) h p events),
    )
