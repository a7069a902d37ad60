-- ===== src/Go.antt =====
-- What Go itself gives the provider: error values with their chains, results, nil dereferences, and
-- methods that work on shared state.
pub mod Errors
pub mod Laws
unfoldable pub use Errors.*
use provider_alibaba.Base.{
  String, Bool, true, false, Option, none, some, if◌then◌else◌, ◌≡◌, refl, ◌⊎◌, inl, inr,
}

-- A call returns a value with a nil error, or an error, or it panics on a nil dereference or an
-- index out of range. The value that Go returns beside an error is not read by any caller.
pub data Outcome (A : Type 0) : Type 0 where
  ok : A → Outcome A
  err : Err → Outcome A
  panic : Outcome A

abbrev pub panics : {A : Type 0} → Outcome A → Bool
panics (ok _) = false
panics (err _) = false
panics panic = true

-- A call that works on a state. What it wrote stays written, also when it returns an error.
abbrev pub M : Type 0 → Type 0 → Type 0
M S A = S → Outcome A × S

-- A Go pair of a value and an error, in the hands of the caller.
pub data Result (A : Type 0) : Type 0 where
  value : A → Result A
  error : Err → Result A

pub Result-cases :
    {A : Type 0} (r : Result A) → ((a : A) × (r ≡ value a)) ⊎ ((e : Err) × (r ≡ error e))
Result-cases (value a) = inl (a, refl)
Result-cases (error e) = inr (e, refl)

module _ {S A : Type 0} where
  abbrev pub pure : A → M S A
  pure a s = (ok a, s)

  abbrev pub fail : Err → M S A
  fail e s = (err e, s)

  abbrev pub crash : M S A
  crash s = (panic, s)

  -- `a, err := call(…)`, with the error still to be looked at.
  abbrev pub attempt : M S A → M S (Result A)
  attempt m s =
      let (r, s') = m s in
      elim r [ ok a ↦ (ok (value a), s') | err e ↦ (ok (error e), s') | panic ↦ (panic, s') ]

  -- `if err != nil { return …, errors.Wrap(err, msg) }`
  abbrev pub wrap_err : String → M S A → M S A
  wrap_err msg m s =
      let (r, s') = m s in
      elim r [ ok a ↦ (ok a, s') | err e ↦ (err (wrap msg e), s') | panic ↦ (panic, s') ]

  -- `*p`
  abbrev pub deref : Option A → M S A
  deref none s = (panic, s)
  deref (some a) s = (ok a, s)

  -- `return a, err`, where `err` may be nil.
  abbrev pub return_with : A → Option Err → M S A
  return_with a none s = (ok a, s)
  return_with a (some e) s = (err e, s)

infixl 5 ◌>>=◌ ◌>>◌
abbrev pub ◌>>=◌ : {S A B : Type 0} → M S A → (A → M S B) → M S B
◌>>=◌ m f s =
    let (r, s') = m s in elim r [ ok a ↦ f a s' | err e ↦ (err e, s') | panic ↦ (panic, s') ]

abbrev pub ◌>>◌ : {S A B : Type 0} → M S A → M S B → M S B
m >> k = m >>= λ _. k

-- A handler's state: the custom resource that it was handed, and the world behind its clients.
pub record Env (C W : Type 0) : Type 0 where
  pub cr : C
  pub world : W

module _ {C W : Type 0} where
  abbrev pub get_cr : M (Env C W) C
  get_cr s = (ok s.cr, s)

  abbrev pub update_cr : (C → C) → M (Env C W) (Unit {0})
  update_cr f s = (ok tt, record s { cr = f s.cr })

-- A call of a client, which sees the world and not the resource.
abbrev pub call : {C W A : Type 0} → M W A → M (Env C W) A
call m s = let (r, w) = m s.world in (r, record s { world = w })
