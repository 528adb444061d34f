-- ===== src/Base/Results.antt =====
-- `Result<A, E>`, and code that may fail after it has changed a state: what was changed before
-- the failure stays changed, so the state comes back beside the error too.
use mathlib.Core.Path.{◌≡◌, refl}
use mathlib.Core.Logic.{◌⊎◌, inl, inr}

pub data Result {ℓ} (E A : Type ℓ) : Type ℓ where
  ok : A → Result E A
  err : E → Result E A

pub Result-cases {ℓ} :
    {E A : Type ℓ} (r : Result E A) → ((a : A) × (r ≡ ok a)) ⊎ ((e : E) × (r ≡ err e))
Result-cases (ok a) = inl (a, refl)
Result-cases (err e) = inr (e, refl)

-- `.map_err(f)`
abbrev pub map_err {ℓ} : {E F A : Type ℓ} → (E → F) → Result E A → Result F A
map_err f (ok a) = ok a
map_err f (err e) = err (f e)

abbrev pub Exec {ℓ} : Type ℓ → Type ℓ → Type ℓ → Type ℓ
Exec S E A = S → Result E A × S

module _ {ℓ} {S E A : Type ℓ} where
  abbrev pub pure : A → Exec S E A
  pure a s = (ok a, s)

  abbrev pub fail : E → Exec S E A
  fail e s = (err e, s)

  -- A computation that reads the state and may fail.
  abbrev pub query : (S → Result E A) → Exec S E A
  query f s = (f s, s)

  abbrev pub lift : Result E A → Exec S E A
  lift r s = (r, s)

module _ {ℓ} {S E F A : Type ℓ} where
  -- The `?` of a call whose errors are another type.
  abbrev pub wrap_err : (E → F) → Exec S E A → Exec S F A
  wrap_err f m s = let (r, s') = m s in (map_err f r, s')

module _ {ℓ} {S E A B : Type ℓ} where
  abbrev pub continue : Result E A × S → (A → Exec S E B) → Result E B × S
  continue (ok a, s) f = f a s
  continue (err e, s) f = (err e, s)

  infixl 5 ◌>>=◌ ◌>>◌
  abbrev pub ◌>>=◌ : Exec S E A → (A → Exec S E B) → Exec S E B
  ◌>>=◌ m f s = continue (m s) f

  abbrev pub ◌>>◌ : Exec S E A → Exec S E B → Exec S E B
  ◌>>◌ m n s = continue (m s) (λ _. n)

  pub continue-pure : (r : Result E A × S) (b : B) → (continue r (λ _. pure b)).1 ≡ r.1
  continue-pure (ok a, s) b = refl
  continue-pure (err e, s) b = refl

-- A block that succeeds has passed its first call, and goes on from there.
pub continue-ok {ℓ} :
    {S E A B : Type ℓ} (r : Result E A × S) (f : A → Exec S E B) {b : B}
    → (continue r f).0 ≡ ok b
    → (a : A) × (r.0 ≡ ok a) × (continue r f ≡ f a r.1)
continue-ok (ok a, s) f h = (a, refl, refl)
continue-ok (err e, s) f h = cc

-- What a call and all that follows it keep, the block keeps.
pub continue_keeps {ℓ κ} :
    {S E A B : Type ℓ} (P : S → Type κ) (r : Result E A × S) (f : A → Exec S E B)
    → P r.1
    → ((a : A) (s : S) → P s → P (f a s).1)
    → P (continue r f).1
continue_keeps P (ok a, s) f p then_more = then_more a s p
continue_keeps P (err e, s) f p then_more = p

-- What every success of the rest brings about, a success of the block does.
pub continue_ends {ℓ κ} :
    {S E A B : Type ℓ} (P : S → Type κ) (r : Result E A × S) (f : A → Exec S E B) {b : B}
    → ((a : A) (s : S) → r.0 ≡ ok a → (f a s).0 ≡ ok b → P (f a s).1)
    → (continue r f).0 ≡ ok b
    → P (continue r f).1
continue_ends P (ok a, s) f h e = h a s refl e
continue_ends P (err x, s) f h e = cc

pub ok-injective {ℓ} : {E A : Type ℓ} {a b : A} → ◌≡◌ {A = Result E A} (ok a) (ok b) → a ≡ b
ok-injective e = cc e
