-- ===== src/Io.antt =====
-- Steps on a world that may fail. What was done before a failure stays done, so the world comes back
-- beside the error too.
pub mod Rules
use Prim.Native.String.{◌++◌ as concat}
use tomei.Base.{String, Bool, true, false, Option, none, some}
use tomei.Execute.Run.{Outcome, ok, failed}

abbrev pub Io : Type 0 → Type 0 → Type 0
Io W A = W → W × Outcome A

abbrev pub as_option : {A : Type 0} → Outcome A → Option A
as_option (ok a) = some a
as_option (failed e) = none

module _ {W A : Type 0} where
  unfoldable pub pure : A → Io W A
  pure a w = (w, ok a)

  unfoldable pub raise : String → Io W A
  raise e w = (w, failed e)

  unfoldable pub gets : (W → A) → Io W A
  gets f w = (w, ok (f w))

  unfoldable pub lift : Outcome A → Io W A
  lift r w = (w, r)

  abbrev pub described : String → W × Outcome A → W × Outcome A
  described what (w, ok a) = (w, ok a)
  described what (w, failed e) = (w, failed (concat what e))

  -- `fmt.Errorf("what: %w", err)`
  unfoldable pub wrap : String → Io W A → Io W A
  wrap what m w = described what (m w)

  -- `defer f()`
  unfoldable pub deferring : (W → W × Option String) → Io W A → Io W A
  deferring f m w = let (w', r) = m w in ((f w').0, r)

  -- The error is looked at, and not passed on.
  unfoldable pub attempt : Io W A → Io W (Option A)
  attempt m w = let (w', r) = m w in (w', ok (as_option r))

module _ {W : Type 0} where
  abbrev pub done_or_error : W × Option String → W × Outcome (Unit {0})
  done_or_error (w, none) = (w, ok tt)
  done_or_error (w, some e) = (w, failed e)

  -- A call that answers with an error or nil.
  unfoldable pub call : (W → W × Option String) → Io W (Unit {0})
  call f w = done_or_error (f w)

  -- `_ = f()`
  unfoldable pub ignore : (W → W × Option String) → Io W (Unit {0})
  ignore f w = ((f w).0, ok tt)

  unfoldable pub when : Bool → Io W (Unit {0}) → Io W (Unit {0})
  when true m w = m w
  when false m w = (w, ok tt)

module _ {W A B : Type 0} where
  abbrev pub continue : W × Outcome A → (A → Io W B) → W × Outcome B
  continue (w, ok a) f = f a w
  continue (w, failed e) f = (w, failed e)

  infixl 5 ◌>>=◌ ◌>>◌
  unfoldable pub ◌>>=◌ : Io W A → (A → Io W B) → Io W B
  ◌>>=◌ m f w = continue (m w) f

  abbrev pub ◌>>◌ : Io W A → Io W B → Io W B
  m >> n = m >>= λ _. n
