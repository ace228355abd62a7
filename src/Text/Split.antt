-- ===== src/Text/Split.antt =====
-- `split` cuts a text at every occurrence of a delimiter that is not empty.
use cpp_socket_programming.Prelude.{
  ℕ, zero, suc, ◌+◌, ◌<◌, ◌≡◌, refl, sym, ap, ◌∙◌, ◌≢◌, inl, inr, List, [], ◌∷◌, ◌++◌, Option, none,
  some, arith, Option-cases, length, length-append,
}
use cpp_socket_programming.Text.{Text, strip, find, behind, split}

strip-some : (d s r : Text) → strip d s ≡ some r → s ≡ d ++ r
unfolding strip
strip-some [] s r e = ground arith
strip-some (x ∷ d) [] r e = cc
strip-some (x ∷ d) (c ∷ s) r e = ground (arith, strip-some d s r)

-- A prefix stays one when text is added behind.
strip-append : (d s t r : Text) → strip d s ≡ some r → strip d (s ++ t) ≡ some (r ++ t)
unfolding strip
strip-append [] s t r e = ground arith
strip-append (x ∷ d) [] t r e = cc
strip-append (x ∷ d) (c ∷ s) t r e = ground (arith, strip-append d s t r)

find-some : (d s b a : Text) → find d s ≡ some (b, a) → s ≡ b ++ (d ++ a)
unfolding find
find-some d [] b a e = ground (arith, strip-some d [] a)
find-some d (c ∷ s) b a e = elim (Option-cases (strip d (c ∷ s))) [
  | inl miss ↦ elim (Option-cases (find d s)) [
    | inl lost ↦ ground arith
    | inr ((b', a'), later) ↦ ground (arith, find-some d s b' a' later)
  ]
  | inr (r, hit) ↦ ground (arith, strip-some d (c ∷ s) r hit)
]

strip-nil : (d : Text) → 0 < length d → strip d [] ≡ none
unfolding strip
strip-nil [] h = absurd (omega arith)
strip-nil (x ∷ d) h = refl

find-nil : (d : Text) → 0 < length d → find d [] ≡ none
unfolding find
find-nil d h = rw (strip-nil d h)

find-hit : (d s r : Text) → strip d s ≡ some r → find d s ≡ some ([], r)
unfolding find
find-hit d [] r e = rw e
find-hit d (c ∷ s) r e = rw e

find-miss :
    (d : Text) (c : ℕ) (s : Text) → strip d (c ∷ s) ≡ none → find d (c ∷ s) ≡ behind c (find d s)
unfolding find
find-miss d c s e = rw e

pair_fst :
    {b b' a a' : Text} → ◌≡◌ {A = Option (Text × Text)} (some (b, a)) (some (b', a')) → b ≡ b'
pair_fst e = ground arith

-- What precedes the first occurrence does not begin with the delimiter.
strip-before :
    (d : Text) (c : ℕ) (s b a : Text)
    → strip d (c ∷ s) ≡ none
    → s ≡ b ++ (d ++ a)
    → strip d (c ∷ b) ≡ none
strip-before d c s b a miss e = elim (Option-cases (strip d (c ∷ b))) [
  | inl fine ↦ fine
  | inr (r, bad) ↦ cc (miss, strip-append d (c ∷ b) (d ++ a) r bad, ap (λ t. strip d (c ∷ t)) e)
]

-- The text before the first occurrence has none.
find-before : (d s b a : Text) → 0 < length d → find d s ≡ some (b, a) → find d b ≡ none
find-before d [] b a h e = cc (find-nil d h)
find-before d (c ∷ s) b a h e = elim (Option-cases (strip d (c ∷ s))) [
  | inr (r, hit) ↦ rw (← pair_fst (sym (find-hit d (c ∷ s) r hit) ∙ e)) (find-nil d h)
  | inl miss ↦ elim (Option-cases (find d s)) [
    | inl lost ↦ cc (find-miss d c s miss, ap (behind c) lost)
    | inr ((b', a'), later) ↦
        let first : c ∷ b' ≡ b = pair_fst (sym (find-miss d c s miss ∙ ap (behind c) later) ∙ e) in
        rw (← first) (
          find-miss d c b' (strip-before d c s b' a' miss (find-some d s b' a' later))
          ∙ ap (behind c) (find-before d s b' a' h later))
  ]
]

-- The tokens, with the delimiter between them.
abbrev pub join : Text → List Text → Text
join d [] = []
join d (t ∷ []) = t
join d (t ∷ u ∷ rest) = t ++ (d ++ join d (u ∷ rest))

-- No token holds the delimiter.
abbrev pub AllFree : Text → List Text → Type 0
AllFree d [] = Unit {0}
AllFree d (t ∷ rest) = (find d t ≡ none) × AllFree d rest

abbrev IsSplit : Text → Text → List Text → Type 0
IsSplit d s ts = (join d ts ≡ s) × (ts ≢ []) × AllFree d ts

join-cons : (d t : Text) (ts : List Text) → ts ≢ [] → join d (t ∷ ts) ≡ t ++ (d ++ join d ts)
join-cons d t [] h = absurd (h refl)
join-cons d t (u ∷ rest) h = refl

split_total :
    (fuel : ℕ) (d s : Text)
    → 0 < length d
    → length s < fuel
    → (ts : List Text) × (split fuel d s ≡ some ts) × IsSplit d s ts
unfolding split
split_total zero d s h lt = absurd (omega arith)
split_total (suc fuel) d s h lt = elim (Option-cases (find d s)) [
  | inl last ↦ (s ∷ [], rw last, (refl, λ e. cc, (last, tt)))
  | inr ((b, a), found) ↦
      let e : s ≡ b ++ (d ++ a) = find-some d s b a found in
      let shorter : length a < fuel =
        omega (arith, ap length e, length-append b (d ++ a), length-append d a) in
      let (ts, run, (joined, some_token, free)) = split_total fuel d a h shorter in
      (
        b ∷ ts,
        rw (found, run),
        (
          join-cons d b ts some_token ∙ ap (λ t. b ++ (d ++ t)) joined ∙ sym e,
          λ q. cc,
          (find-before d s b a h found, free),
        ),
      )
]

-- With a delimiter that is not empty the loop ends within as many rounds as the text has bytes, plus
-- one; the tokens with the delimiter between them are the text, there is at least one token, and no
-- token holds the delimiter.
pub split_lem :
    (d s : Text)
    → 0 < length d
    → (ts : List Text) × (split (length s + 1) d s ≡ some ts)
      × (join d ts ≡ s)
      × (ts ≢ [])
      × AllFree d ts
split_lem d s h =
    let (ts, run, (joined, some_token, free)) = split_total (length s + 1) d s h (omega arith) in
    (ts, run, joined, some_token, free)

-- With the empty delimiter the loop never ends: `find` hits at once and the text stays as it is.
pub split_empty : (fuel : ℕ) (s : Text) → split fuel [] s ≡ none
unfolding split strip
split_empty zero s = refl
split_empty (suc fuel) s = rw (find-hit [] s s refl, split_empty fuel s)
