-- ===== src/Prelude/Result.antt =====
-- Fallible code and stateful code. The state comes back after an error too: what a handler has
-- written before it fails stays written.
use taptrade_core.Prelude.Tests.{if◌then◌else◌}
use mathlib.Core.Bool.{Bool}
use mathlib.Core.Option.{Option, none, some}
use mathlib.Core.Path.{◌≡◌, refl}
use mathlib.Core.Logic.{◌≢◌}

-- `Result<A, E>`, or a panic, which unwinds the task that runs the call.
pub data Result (E A : Type 0) : Type 0 where
  ok : A → Result E A
  err : E → Result E A
  panic : Result E A

-- An `async fn` over the shared state `S`, run without interruption.
abbrev pub Action : Type 0 → Type 0 → Type 0 → Type 0
Action S E A = S → Result E A × S

abbrev pub map_err : {E F A : Type 0} → (E → F) → Result E A → Result F A
map_err f (ok a) = ok a
map_err f (err e) = err (f e)
map_err f panic = panic

abbrev pub ok_or : {E A : Type 0} → Option A → E → Result E A
ok_or none e = err e
ok_or (some a) e = ok a

-- `e?` on a plain result, inside a plain result.
abbrev pub and_then : {E A B : Type 0} → Result E A → (A → Result E B) → Result E B
and_then (ok a) f = f a
and_then (err e) f = err e
and_then panic f = panic

module _ {S E A : Type 0} where
  abbrev pub pure : A → Action S E A
  pure a s = (ok a, s)

  abbrev pub fail : E → Action S E A
  fail e s = (err e, s)

  -- a result that needs no state
  abbrev pub lift : Result E A → Action S E A
  lift r s = (r, s)

  -- a query
  abbrev pub reads : (S → Result E A) → Action S E A
  reads f s = (f s, s)

-- how a block goes on after a call
abbrev pub resume : {S E A B : Type 0} → Result E A → S → (A → Action S E B) → Result E B × S
resume (ok a) s f = f a s
resume (err e) s f = (err e, s)
resume panic s f = (panic, s)

-- A block that succeeds is one whose calls have succeeded.
pub resume-ok :
    {S E A B : Type 0} (r : Result E A) (s : S) (f : A → Action S E B) {b : B}
    → (resume r s f).0 ≡ ok b
    → (a : A) × (r ≡ ok a) × ((f a s).0 ≡ ok b)
resume-ok (ok a) s f h = (a, refl, h)
resume-ok (err e) s f h = cc
resume-ok panic s f h = cc

-- What holds where a block stops and where it goes on holds after it.
pub resume-cases :
    {S E A B : Type 0} (P : S → Type 0) (r : Result E A) (s : S) (f : A → Action S E B)
    → P s
    → ((a : A) → r ≡ ok a → P (f a s).1)
    → P (resume r s f).1
resume-cases P (ok a) s f p k = k a refl
resume-cases P (err e) s f p k = p
resume-cases P panic s f p k = p

-- A block whose first call fails leaves what that call has left, and fails.
pub resume_err :
    {S E A B : Type 0} (r : Result E A) (s : S) (f : A → Action S E B)
    → ((a : A) → r ≢ ok a)
    → ((resume r s f).1 ≡ s) × ((b : B) → (resume r s f).0 ≢ ok b)
resume_err (ok a) s f h = absurd (h a refl)
resume_err (err e) s f h = (refl, λ b k. cc)
resume_err panic s f h = (refl, λ b k. cc)

pub map_err-ok :
    {E F A : Type 0} (f : E → F) (r : Result E A) {a : A} → map_err f r ≡ ok a → r ≡ ok a
map_err-ok f (ok a) h = cc
map_err-ok f (err e) h = cc
map_err-ok f panic h = cc

pub ok-injective : {E A : Type 0} {a b : A} → ◌≡◌ {A = Result E A} (ok a) (ok b) → a ≡ b
ok-injective h = cc

pub and_then-ok :
    {E A B : Type 0} (r : Result E A) (f : A → Result E B) {b : B}
    → and_then r f ≡ ok b
    → (a : A) × (r ≡ ok a) × (f a ≡ ok b)
and_then-ok (ok a) f h = (a, refl, h)
and_then-ok (err e) f h = cc
and_then-ok panic f h = cc

infixl 5 ◌>>=◌ ◌>>◌
abbrev pub ◌>>=◌ : {S E A B : Type 0} → Action S E A → (A → Action S E B) → Action S E B
◌>>=◌ m f s = let (r, s') = m s in resume r s' f

abbrev pub ◌>>◌ : {S E A B : Type 0} → Action S E A → Action S E B → Action S E B
m >> k = m >>= λ _. k

-- a statement that always succeeds
abbrev pub modify : {S E : Type 0} → (S → S) → Action S E (Unit {0})
modify f s = (ok tt, f s)

abbrev pub fail_if : {S E : Type 0} → Bool → E → Action S E (Unit {0})
fail_if c e s = (if c then err e else ok tt, s)

-- Every run of the action from a state with `P` ends in a state with `P`, also when it fails.
abbrev pub Keeps : {S E A : Type 0} → (S → Type 0) → Action S E A → Type 0
Keeps {S} P m = (s : S) → P s → P (m s).1

module _ {S E A B : Type 0} (P : S → Type 0) where
  pub Keeps-resume :
      (r : Result E A) (s : S) (f : A → Action S E B)
      → P s
      → ((a : A) → Keeps P (f a))
      → P (resume r s f).1
  Keeps-resume (ok a) s f p k = k a s p
  Keeps-resume (err e) s f p k = p
  Keeps-resume panic s f p k = p

  pub Keeps-bind :
      (m : Action S E A) (f : A → Action S E B)
      → Keeps P m
      → ((a : A) → Keeps P (f a))
      → Keeps P (m >>= f)
  Keeps-bind m f km kf s p = Keeps-resume (m s).0 (m s).1 f (km s p) kf

pub ok_or-ok : {E A : Type 0} (o : Option A) (e : E) {a : A} → ok_or o e ≡ ok a → o ≡ some a
ok_or-ok none e h = cc
ok_or-ok (some b) e h = cc
