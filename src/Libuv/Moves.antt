-- ===== src/Libuv/Moves.antt =====
-- What one event does to a pair of handles.
use native.Mathlib.Decide.{ℕ_discrete, dec_lt}
use cpp_socket_programming.Prelude.{
  ℕ, suc, ◌+◌, ◌-◌, ◌*◌, ◌≡◌, refl, sym, ap, subst, ◌∙◌, ◌≢◌, Bool, true, false, not, ◌&&◌, ◌||◌,
  [], ◌∷◌, ◌++◌, append-nil, Option, none, some, ◌==◌, if◌then◌else◌, arith, Bool-cases, inl, inr,
  ◌⊎◌, ◌<◌,
}
use cpp_socket_programming.Libuv.Paired.{IsPaired}
use cpp_socket_programming.Libuv.Life.{some_peer}
use cpp_socket_programming.Libuv.{
  Bytes, State, put, close_handle, on_alloc, free_buffer, Read, failed, bytes, close_pair, write_to,
  on_read, Answers, link, on_new_connection, Event, connection, read, step,
}

-- What is read from a handle by an event, and whether the event ends the pair of `h` and `p`.
abbrev pub gives : ℕ → Event → Bytes
gives h (connection a) = []
gives h (read x failed) = []
gives h (read x (bytes b)) = if x == h then b else []

abbrev pub ends : ℕ → ℕ → Event → Bool
ends h p (connection a) = false
ends h p (read x failed) = x == h || x == p
ends h p (read x (bytes b)) = false

-- The pair of `h` and `p`, where both handles are read or none is.
pub record IsAt (h p : ℕ) (is_on : Bool) (s : State) : Type 0 where
  pub peer_is : s.peer h ≡ some p
  pub reading_from : s.reading h ≡ is_on
  pub reading_back : s.reading p ≡ is_on

abbrev pub IsMove : ℕ → ℕ → Bool → Event → State → State → Type 0
IsMove h p is_on e s s' =
    IsAt h p (is_on && not (ends h p e)) s'
    × (s'.written p ≡ s.written p ++ (if is_on then gives h e else []))

and_true : (b : Bool) → b && true ≡ b
and_true true = refl
and_true false = refl

nothing :
    (is_on at_h : Bool) (xs : Bytes) → xs ≡ xs ++ (if is_on then if at_h then [] else [] else [])
nothing true true xs = sym (append-nil xs)
nothing true false xs = sym (append-nil xs)
nothing false at_h xs = sym (append-nil xs)

all_of :
    (is_on at_h : Bool) (t : Bytes)
    → is_on ≡ true
    → at_h ≡ true
    → (if is_on then if at_h then t else [] else []) ≡ t
all_of is_on at_h t e e' = rw (e, e')

none_of :
    (is_on at_h : Bool) (t : Bytes)
    → at_h ≡ false
    → (if is_on then if at_h then t else [] else []) ≡ []
none_of true at_h t e = rw e
none_of false at_h t e = refl

put_here : (k i : ℕ) (w : Bytes) (m : ℕ → Bytes) → k ≡ i → put k w m i ≡ w
put_here k i w m e = ground arith

put_other : (k i : ℕ) (w : Bytes) (m : ℕ → Bytes) → i ≢ k → put k w m i ≡ m i
put_other k i w m h = ground arith

connection-cases :
    (connects finds accepts : Bool) (s linked refused s' : State)
    → (if connects
        then if finds then some (if accepts then linked else refused) else none
        else some s)
      ≡ some s'
    → (s ≡ s') ⊎ ((linked ≡ s') ⊎ (refused ≡ s'))
connection-cases false finds accepts s linked refused s' e = inl cc
connection-cases true false accepts s linked refused s' e = cc
connection-cases true true true s linked refused s' e = inr (inl cc)
connection-cases true true false s linked refused s' e = inr (inr cc)

if_true : (b : Bool) (x y z : Option State) → b ≡ true → (if b then x else y) ≡ z → x ≡ z
if_true true x y z e e' = e'
if_true false x y z e e' = cc

if_false : (b : Bool) (x y z : Option State) → b ≡ false → (if b then x else y) ≡ z → y ≡ z
if_false true x y z e e' = cc
if_false false x y z e e' = e'

module _ (h p : ℕ) (is_on : Bool) (s : State) (v : IsPaired s) (i : IsAt h p is_on s) where
  read-IsMove :
      (x y : ℕ) (r : Read) (s' : State)
      → s.reading x ≡ true
      → s.peer x ≡ some y
      → on_read x r (on_alloc s) ≡ some s'
      → IsMove h p is_on (read x r) s s'
  unfolding on_read
  read-IsMove x y failed s' on e run_ =
      let back = v.symmetric h p i.peer_is in
      let there = v.symmetric x y e in
      let x_h : x ≡ h → y ≡ p = λ k. cc (e, i.peer_is, ap s.peer k) in
      let x_p : x ≡ p → y ≡ h = λ k. cc (e, back, ap s.peer k) in
      let y_h : y ≡ h → x ≡ p = λ k. cc (there, i.peer_is, ap s.peer k) in
      let y_p : y ≡ p → x ≡ h = λ k. cc (there, back, ap s.peer k) in
      let same : free_buffer (close_handle y (close_handle x (on_alloc s))) ≡ s' =
        cc (run_, ap (λ o. close_pair x o (on_alloc s)) e) in
      subst (IsMove h p is_on (read x failed) s) same (
        record {
          peer_is = i.peer_is;
          reading_from = ground (arith, i.reading_from, x_h, x_p, y_h, y_p);
          reading_back = ground (arith, i.reading_back, x_h, x_p, y_h, y_p);
        },
        nothing is_on false (s.written p),
      )
  read-IsMove x y (bytes []) s' on e run_ =
      let same : on_alloc s ≡ s' = cc in
      subst (IsMove h p is_on (read x (bytes [])) s) same (
        record {
          peer_is = i.peer_is;
          reading_from = i.reading_from ∙ sym (and_true is_on);
          reading_back = i.reading_back ∙ sym (and_true is_on);
        },
        nothing is_on (x == h) (s.written p),
      )
  read-IsMove x y (bytes (b ∷ rest)) s' on e run_ =
      let there = v.symmetric x y e in
      let t : Bytes = b ∷ rest in
      let w : Bytes = s.written y ++ t in
      let same : record s { written = put y w s.written; unfreed = suc s.unfreed - 1 } ≡ s' =
        cc (run_, ap (λ o. write_to o t (on_alloc s)) e) in
      subst (IsMove h p is_on (read x (bytes t)) s) same (
        record {
          peer_is = i.peer_is;
          reading_from = i.reading_from ∙ sym (and_true is_on);
          reading_back = i.reading_back ∙ sym (and_true is_on);
        },
        elim (ℕ_discrete x h) [
          | yes k ↦
              let target : y ≡ p = cc (e, i.peer_is, ap s.peer k) in
              let is_read : is_on ≡ true = sym i.reading_from ∙ ap s.reading (sym k) ∙ on in
              put_here y p w s.written target
              ∙ ap (λ z. s.written z ++ t) target
              ∙ ap (λ l. s.written p ++ l) (sym (all_of is_on (x == h) t is_read (ground arith)))
          | no k ↦
              let other : p ≢ y = λ j. k (cc (there, v.symmetric h p i.peer_is, ap s.peer j)) in
              put_other y p w s.written other
              ∙ sym (append-nil (s.written p))
              ∙ ap (λ l. s.written p ++ l) (sym (none_of is_on (x == h) t (ground arith)))
        ],
      )

  still-IsMove : (x : ℕ) (r : Read) → s.reading x ≡ false → IsMove h p is_on (read x r) s s
  still-IsMove x failed off = (
    record {
      peer_is = i.peer_is;
      reading_from = ground (arith, i.reading_from, i.reading_back);
      reading_back = ground (arith, i.reading_from, i.reading_back);
    },
    nothing is_on false (s.written p),
  )
  still-IsMove x (bytes t) off = (
    record {
      peer_is = i.peer_is;
      reading_from = i.reading_from ∙ sym (and_true is_on);
      reading_back = i.reading_back ∙ sym (and_true is_on);
    },
    elim (ℕ_discrete x h) [
      | yes k ↦
          let is_off : is_on ≡ false = sym i.reading_from ∙ ap s.reading (sym k) ∙ off in
          rw is_off (sym (append-nil (s.written p)))
      | no k ↦
          sym (append-nil (s.written p))
          ∙ ap (λ l. s.written p ++ l) (sym (none_of is_on (x == h) t (ground arith)))
    ],
  )

  kept :
      (a : Answers) (s' : State)
      → s'.peer h ≡ s.peer h
      → s'.reading h ≡ s.reading h
      → s'.reading p ≡ s.reading p
      → s'.written p ≡ s.written p
      → IsMove h p is_on (connection a) s s'
  kept a s' same_peer same_from same_back same_bytes = (
    record {
      peer_is = same_peer ∙ i.peer_is;
      reading_from = same_from ∙ i.reading_from ∙ sym (and_true is_on);
      reading_back = same_back ∙ i.reading_back ∙ sym (and_true is_on);
    },
    same_bytes ∙ nothing is_on false (s.written p),
  )

  below : (x y : ℕ) → s.peer x ≡ some y → x < 2 * s.pairs
  below x y e = elim (dec_lt x (2 * s.pairs)) [
    | yes l ↦ l
    | no l ↦ cc (e, (v.fresh x (omega arith)).0)
  ]

  connection-IsMove :
      (a : Answers) (s' : State)
      → on_new_connection a s ≡ some s'
      → IsMove h p is_on (connection a) s s'
  unfolding on_new_connection
  connection-IsMove a s' e =
      let n = s.pairs in
      let old_h = below h p i.peer_is in
      let old_p = below p h (v.symmetric h p i.peer_is) in
      let c = 2 * n in
      let t = 2 * n + 1 in
      let more : State = record s { pairs = suc n } in
      elim (connection-cases a.connected a.resolved a.accepted s (link c t a more)
        (close_handle t (close_handle c more)) s' e) [
          | inl same ↦ subst (IsMove h p is_on (connection a) s) same (kept a s refl refl refl refl)
          | inr (inl same) ↦
              subst (IsMove h p is_on (connection a) s) same
                (kept a (link c t a more) (ground arith) (ground arith) (ground arith) refl)
          | inr (inr same) ↦ subst (IsMove h p is_on (connection a) s) same (
              kept a (close_handle t (close_handle c more)) refl (ground arith) (ground arith) refl)
        ]

  pub step-IsMove : (e : Event) (s' : State) → step e s ≡ some s' → IsMove h p is_on e s s'
  unfolding step
  step-IsMove (connection a) s' run_ = connection-IsMove a s' run_
  step-IsMove (read x r) s' run_ = elim (Bool-cases (s.reading x)) [
    | inl on ↦
        let (y, e) = some_peer (s.peer x) (v.known x on) in
        read-IsMove x y r s' on e
          (if_true (s.reading x) (on_read x r (on_alloc s)) (some s) (some s') on run_)
    | inr off ↦
        let stays = if_false (s.reading x) (on_read x r (on_alloc s)) (some s) (some s') off run_ in
        let same : s ≡ s' = cc in subst (IsMove h p is_on (read x r) s) same (still-IsMove x r off)
  ]
