-- ===== src/Prelude/Part.antt =====
-- Lists with some of their elements left out.
use mathlib.Core.List.{List, [], ◌∷◌, ◌++◌}

pub data IsPart {A : Type 0} : List A → List A → Type 0 where
  nil : IsPart [] []
  keep : {m : A} {xs ys : List A} → IsPart xs ys → IsPart (m ∷ xs) (m ∷ ys)
  skip : {m : A} {xs ys : List A} → IsPart xs ys → IsPart xs (m ∷ ys)

module _ {A : Type 0} where
  pub IsPart_self : (xs : List A) → IsPart xs xs
  IsPart_self [] = nil
  IsPart_self (x ∷ xs) = keep (IsPart_self xs)

  -- Another element behind the first one.
  pub skip_second : {xs ys : List A} (m l : A) → IsPart xs (m ∷ ys) → IsPart xs (m ∷ l ∷ ys)
  skip_second m l (keep p) = keep (skip p)
  skip_second m l (skip p) = skip (skip p)

  pub IsPart-append : {xs ys : List A} (zs : List A) → IsPart xs ys → IsPart (zs ++ xs) (zs ++ ys)
  IsPart-append [] p = p
  IsPart-append (z ∷ zs) p = keep (IsPart-append zs p)

  pub IsPart_none : (ys : List A) → IsPart [] ys
  IsPart_none [] = nil
  IsPart_none (y ∷ ys) = skip (IsPart_none ys)

  -- A part of a part.
  pub IsPart-trans : {ys zs : List A} → IsPart ys zs → {xs : List A} → IsPart xs ys → IsPart xs zs
  IsPart-trans nil p = p
  IsPart-trans (skip q) p = skip (IsPart-trans q p)
  IsPart-trans (keep q) (keep p) = keep (IsPart-trans q p)
  IsPart-trans (keep q) (skip p) = skip (IsPart-trans q p)

  pub append-IsPart : {xs ys : List A} (zs : List A) → IsPart xs ys → IsPart (xs ++ zs) (ys ++ zs)
  append-IsPart zs nil = IsPart_self zs
  append-IsPart zs (keep p) = keep (append-IsPart zs p)
  append-IsPart zs (skip p) = skip (append-IsPart zs p)
