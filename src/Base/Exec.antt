-- ===== src/Base/Exec.antt =====
-- Code that acts on the world outside the program and may fail: what it did before a failure stays
-- done, so the world comes back beside the error too.
use fogros2_sgc.Base.Result.{Result, ok, err}

abbrev pub Exec : Type 0 → Type 0 → Type 0 → Type 0
Exec W E A = W → Result E A × W

module _ {W E : Type 0} where
  abbrev pub pure : {A : Type 0} → A → Exec W E A
  pure a w = (ok a, w)

  abbrev pub raise : {A : Type 0} → E → Exec W E A
  raise e w = (err e, w)

  abbrev pub lift : {A : Type 0} → Result E A → Exec W E A
  lift r w = (r, w)

  abbrev pub continue : {A B : Type 0} → Result E A → (A → Exec W E B) → Exec W E B
  continue (ok a) f w = f a w
  continue (err e) f w = (err e, w)

  infixl 5 ◌>>=◌ ◌>>◌
  abbrev pub ◌>>=◌ : {A B : Type 0} → Exec W E A → (A → Exec W E B) → Exec W E B
  ◌>>=◌ m f w = let (r, w') = m w in continue r f w'

  abbrev pub ◌>>◌ : {A B : Type 0} → Exec W E A → Exec W E B → Exec W E B
  m >> k = m >>= λ _. k

  -- `let _ = m;`, whose result is dropped.
  abbrev pub ignore : {A : Type 0} → Exec W E A → Exec W E (Unit {0})
  ignore m w = let (r, w') = m w in (ok tt, w')

  -- `m.map_err(f)`
  abbrev pub map_error : {F A : Type 0} → (F → E) → Exec W F A → Exec W E A
  map_error f m w = let (r, w') = m w in (elim r [ ok a ↦ ok a | err e ↦ err (f e) ], w')
