-- ===== src/Go/Laws.antt =====
-- What a result of a chain of calls says about the calls.
use provider_alibaba.Base.{◌≡◌, refl}
use provider_alibaba.Go.{M, Outcome, ok, err, panic, ◌>>=◌}

module _ {S A B : Type 0} where
  -- A chain that returns a value went through its first call, which returned one too.
  pub bind-ok :
      (m : M S A) (f : A → M S B) (s : S) {b : B}
      → ((m >>= f) s).0 ≡ ok b
      → (a : A) × ((m s).0 ≡ ok a) × ((f a (m s).1).0 ≡ ok b)
  bind-ok m f s {b} h = go (m s) h
    where
      go :
          (r : Outcome A × S)
          → (((λ (_ : S). r) >>= f) s).0 ≡ ok b
          → (a : A) × (r.0 ≡ ok a) × ((f a r.1).0 ≡ ok b)
      go (ok a, t) g = (a, refl, g)
      go (err e, t) g = absurd (cc)
      go (panic, t) g = absurd (cc)
