-- ===== src/Prelude/Exec.antt =====
-- Methods that mutate objects and may raise. What was written before a raise stays written, so the
-- state comes back beside the exception too.
use mathlib.Core.Bool.{Bool, true, false}
use niceone_obsidian.Prelude.Tests.{if◌then◌else◌}

pub data Result (E A : Type 0) : Type 0 where
  ok : A → Result E A
  err : E → Result E A

abbrev pub Exec : Type 0 → Type 0 → Type 0 → Type 0
Exec S E A = S → Result E A × S

module _ {S E A : Type 0} where
  unfoldable pub pure : A → Exec S E A
  pure a s = (ok a, s)

  unfoldable pub raise : E → Exec S E A
  raise e s = (err e, s)

  unfoldable pub gets : (S → A) → Exec S E A
  gets f s = (ok (f s), s)

  -- A pure computation that may raise.
  unfoldable pub lift : Result E A → Exec S E A
  lift r s = (r, s)

module _ {S E : Type 0} where
  unfoldable pub modify : (S → S) → Exec S E (Unit {0})
  modify f s = (ok tt, f s)

module _ {S E A B : Type 0} where
  abbrev pub continue : Result E A → S → (A → Exec S E B) → Result E B × S
  continue (ok a) s f = f a s
  continue (err e) s f = (err e, s)

  infixl 10 ◌>>=◌ ◌>>◌
  -- Opening this opens the actions above too.
  unfoldable pub ◌>>=◌ : Exec S E A → (A → Exec S E B) → Exec S E B
  unfolding pure raise gets lift modify
  ◌>>=◌ m f s = let (r, s') = m s in continue r s' f

  abbrev pub ◌>>◌ : Exec S E A → Exec S E B → Exec S E B
  m >> n = m >>= λ _. n

  -- `try: m except E as e: handler(e)`, then what follows the block.
  abbrev pub resume : Result E A → S → (A → Exec S E B) → (E → Exec S E B) → Result E B × S
  resume (ok a) s f h = f a s
  resume (err e) s f h = h e s

  unfoldable pub try_ : Exec S E A → (A → Exec S E B) → (E → Exec S E B) → Exec S E B
  try_ m f h s = let (r, s') = m s in resume r s' f h

-- A relation between the state before and the state after that every run of an action respects,
-- whether it returns or raises.
pub record Keeps {ℓ} {S E A : Type 0} (R : S → S → Type ℓ) (m : Exec S E A) : Type ℓ where
  pub at : (s : S) → R s (m s).1

pub record IsPreorder {ℓ} {S : Type 0} (R : S → S → Type ℓ) : Type ℓ where
  pub refl_at : (s : S) → R s s
  pub trans_at : (s t u : S) → R s t → R t u → R s u

module _ {ℓ} {S E : Type 0} {R : S → S → Type ℓ} (o : IsPreorder R) where
  pub Keeps-pure : {A : Type 0} (a : A) → Keeps R (pure {S = S} {E = E} a)
  unfolding pure
  Keeps-pure a = record { at = λ s. o.refl_at s }

  pub Keeps-raise : {A : Type 0} (e : E) → Keeps R (raise {S = S} {E = E} {A = A} e)
  unfolding raise
  Keeps-raise e = record { at = λ s. o.refl_at s }

  pub Keeps-gets : {A : Type 0} (f : S → A) → Keeps R (gets {S = S} {E = E} f)
  unfolding gets
  Keeps-gets f = record { at = λ s. o.refl_at s }

  pub Keeps-lift : {A : Type 0} (r : Result E A) → Keeps R (lift {S = S} {E = E} r)
  unfolding lift
  Keeps-lift r = record { at = λ s. o.refl_at s }

  pub Keeps-bind :
      {A B : Type 0} (m : Exec S E A) (f : A → Exec S E B)
      → Keeps R m
      → ((a : A) → Keeps R (f a))
      → Keeps R (m >>= f)
  unfolding ◌>>=◌
  Keeps-bind {A} {B} m f km kf = record { at = λ s. go s (m s).0 (m s).1 (km.at s) }
    where
      go : (s : S) (r : Result E A) (t : S) → R s t → R s (continue r t f).1
      go s (ok a) t p = o.trans_at s t (f a t).1 p ((kf a).at t)
      go s (err e) t p = p

  pub Keeps-try :
      {A B : Type 0} (m : Exec S E A) (f : A → Exec S E B) (h : E → Exec S E B)
      → Keeps R m
      → ((a : A) → Keeps R (f a))
      → ((e : E) → Keeps R (h e))
      → Keeps R (try_ m f h)
  unfolding try_
  Keeps-try {A} {B} m f h km kf kh = record { at = λ s. go s (m s).0 (m s).1 (km.at s) }
    where
      go : (s : S) (r : Result E A) (t : S) → R s t → R s (resume r t f h).1
      go s (ok a) t p = o.trans_at s t (f a t).1 p ((kf a).at t)
      go s (err e) t p = o.trans_at s t (h e t).1 p ((kh e).at t)

module _ {ℓ} {S E A : Type 0} {R : S → S → Type ℓ} where
  pub Keeps-if :
      (b : Bool) (m n : Exec S E A) → Keeps R m → Keeps R n → Keeps R (if b then m else n)
  Keeps-if true m n km kn = km
  Keeps-if false m n km kn = kn
