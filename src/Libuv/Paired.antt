-- ===== src/Libuv/Paired.antt =====
-- The two handles of a pair are closed together, and once.
use native.Mathlib.Decide.{ℕ_discrete}
use cpp_socket_programming.Prelude.{
  ℕ, suc, ◌+◌, ◌*◌, ◌≤◌, ◌≡◌, refl, ap, ◌≢◌, true, false, Option, none, some, arith, Bool-cases,
  inl, inr, ◌⊎◌,
}
use cpp_socket_programming.Libuv.{Bytes, State, init, put, close_handle, Answers, link, accept_pair}

pub record IsPaired (s : State) : Type 0 where
  pub symmetric : (a b : ℕ) → s.peer a ≡ some b → s.peer b ≡ some a
  pub apart : (a b : ℕ) → s.peer a ≡ some b → a ≢ b
  pub together : (a b : ℕ) → s.peer a ≡ some b → s.closings a ≡ s.closings b
  pub known : (a : ℕ) → s.reading a ≡ true → s.peer a ≢ none
  pub not_closed : (a : ℕ) → s.reading a ≡ true → s.closings a ≡ 0
  pub once : (a : ℕ) → s.closings a ≤ 1
  pub fresh :
      (a : ℕ) → 2 * s.pairs ≤ a → (s.peer a ≡ none) × (s.reading a ≡ false) × (s.closings a ≡ 0)

pub init-IsPaired : IsPaired init
init-IsPaired = record {
  symmetric = λ a b e. cc;
  apart = λ a b e. cc;
  together = λ a b e. cc;
  known = λ a e. cc;
  not_closed = λ a e. cc;
  once = λ a. omega arith;
  fresh = λ a h. (refl, refl, refl);
}

-- The three ways in which a handle has a peer behind a new pair.
module _ (m : ℕ → Option ℕ) (c t : ℕ) where
  put-cases :
      (x y : ℕ)
      → put t (some c) (put c (some t) m) x ≡ some y
      → (x ≡ t × y ≡ c) ⊎ ((x ≢ t × x ≡ c × y ≡ t) ⊎ (x ≢ t × x ≢ c × m x ≡ some y))
  put-cases x y e = elim (ℕ_discrete x t) [
    | yes i ↦ inl (i, ground arith)
    | no i ↦ elim (ℕ_discrete x c) [
      | yes j ↦ inr (inl (i, j, ground arith))
      | no j ↦ inr (inr (i, j, ground arith))
    ]
  ]

module _ (s : State) (v : IsPaired s) where
  pub close_pair-IsPaired :
      (h p : ℕ)
      → s.peer h ≡ some p
      → s.closings h ≡ 0
      → IsPaired (close_handle p (close_handle h s))
  close_pair-IsPaired h p e unclosed =
      let back = v.symmetric h p e in
      record {
        symmetric = v.symmetric;
        apart = v.apart;
        together = λ a b e'.
            let there = v.symmetric a b e' in
            let to_p : a ≡ h → b ≡ p = λ i. cc (e, e') in
            let to_h : a ≡ p → b ≡ h = λ i. cc (back, e') in
            let of_h : b ≡ h → a ≡ p = λ i. cc (e, there) in
            let of_p : b ≡ p → a ≡ h = λ i. cc (back, there) in
            ground
              (arith, to_p, to_h, of_h, of_p, v.together a b e', v.together h p e, v.apart h p e);
        known = λ a e'. ground (arith, v.known a);
        not_closed = λ a e'. ground (arith, v.not_closed a);
        once = λ a. ground (arith, v.once a, v.together h p e, v.apart h p e);
        fresh = λ a over. ground (arith, v.fresh a over, v.fresh h, v.fresh p);
      }

  -- The peers behind a new pair, where `old` is a link of before.
  link-cases :
      (a : Answers) (x y : ℕ)
      → let c = 2 * s.pairs in
        let t = 2 * s.pairs + 1 in
        put t (some c) (put c (some t) s.peer) x ≡ some y
        → (put t (some c) (put c (some t) s.peer) y ≡ some x)
          × (x ≢ y)
          × (s.closings x ≡ s.closings y)
  link-cases a x y e =
      let c = 2 * s.pairs in
      let t = 2 * s.pairs + 1 in
      let new_c = v.fresh c (omega arith) in
      let new_t = v.fresh t (omega arith) in
      elim (put-cases s.peer c t x y e) [
        | inl (i, j) ↦ (ground arith, ground arith, ground (arith, new_c.2, new_t.2))
        | inr (inl (h, i, j)) ↦ (ground arith, ground arith, ground (arith, new_c.2, new_t.2))
        | inr (inr (h, i, old)) ↦
            let back = v.symmetric x y old in
            let not_c : y ≢ c = λ k. cc (back, new_c.0, ap s.peer k) in
            let not_t : y ≢ t = λ k. cc (back, new_t.0, ap s.peer k) in
            (ground (arith, back), v.apart x y old, v.together x y old)
      ]

  link-IsPaired :
      (a : Answers)
      → IsPaired (link (2 * s.pairs) (2 * s.pairs + 1) a (record s { pairs = suc s.pairs }))
  link-IsPaired a =
      let new_c = v.fresh (2 * s.pairs) (omega arith) in
      let new_t = v.fresh (2 * s.pairs + 1) (omega arith) in
      record {
        symmetric = λ x y e. (link-cases a x y e).0;
        apart = λ x y e. (link-cases a x y e).1;
        together = λ x y e. (link-cases a x y e).2;
        known = λ x e. ground (arith, v.known x);
        not_closed = λ x e. ground (arith, v.not_closed x, new_c, new_t);
        once = v.once;
        fresh = λ x over. ground (arith, v.fresh x (omega arith));
      }

  refuse-IsPaired : IsPaired (
      close_handle
        (2 * s.pairs + 1)
        (close_handle (2 * s.pairs) (record s { pairs = suc s.pairs })))
  refuse-IsPaired =
      let c = 2 * s.pairs in
      let t = 2 * s.pairs + 1 in
      let new_c = v.fresh c (omega arith) in
      let new_t = v.fresh t (omega arith) in
      record {
        symmetric = v.symmetric;
        apart = v.apart;
        together = λ x y e.
            let back = v.symmetric x y e in
            let x_c : x ≢ c = λ k. cc (e, new_c.0) in
            let x_t : x ≢ t = λ k. cc (e, new_t.0) in
            let y_c : y ≢ c = λ k. cc (back, new_c.0, ap s.peer k) in
            let y_t : y ≢ t = λ k. cc (back, new_t.0, ap s.peer k) in
            ground (arith, v.together x y e);
        known = λ x e. ground (arith, v.known x);
        not_closed = λ x e. ground (arith, v.not_closed x);
        once = λ x. ground (arith, v.once x, new_c.2, new_t.2);
        fresh = λ x over. ground (arith, v.fresh x (omega arith));
      }

  pub accept_pair-IsPaired :
      (a : Answers)
      → IsPaired (accept_pair (2 * s.pairs) (2 * s.pairs + 1) a (record s { pairs = suc s.pairs }))
  accept_pair-IsPaired a = elim (Bool-cases a.accepted) [
    | inl yes_ ↦ rw yes_ (link-IsPaired a)
    | inr no_ ↦ rw no_ refuse-IsPaired
  ]

  pub keep-IsPaired : (w : ℕ → Bytes) (n : ℕ) → IsPaired (record s { written = w; unfreed = n })
  keep-IsPaired w n = record {
    symmetric = v.symmetric;
    apart = v.apart;
    together = v.together;
    known = v.known;
    not_closed = v.not_closed;
    once = v.once;
    fresh = v.fresh;
  }
