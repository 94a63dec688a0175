-- ===== src/Io/Rules.antt =====
-- What an action keeps of the world, and what holds of a value that it returns: a rule for each way to
-- build an action.
use tomei.Base.{String, ◌≡◌, refl, ap, subst, Bool, true, false, Option, none, some, if◌then◌else◌}
use tomei.Execute.Run.{Outcome, ok, failed}
use tomei.Io.{
  Io, continue, pure, raise, gets, lift, wrap, attempt, call, ignore, when, deferring, ◌>>=◌,
  described, done_or_error,
}

-- Of nothing: `Returns IsNever m` says that `m` fails.
abbrev pub IsNever {ℓ} : {A : Type ℓ} → A → Type 0
IsNever a = ⊥

-- Each value that `m` returns satisfies `P`.
pub record Returns {W A : Type 0} (P : A → Type 0) (m : Io W A) : Type 0 where
  pub value : (w : W) (a : A) → (m w).1 ≡ ok a → P a

-- `m` keeps `P` of the world, whether it returns or fails.
pub record Keeps {W A : Type 0} (P : W → Type 0) (m : Io W A) : Type 0 where
  pub after : (w : W) → P w → P (m w).0

ok_or : {A : Type 0} → A → Outcome A → A
ok_or d (ok a) = a
ok_or d (failed e) = d

pub ok-injective : {A : Type 0} {a b : A} → ok a ≡ ok b → a ≡ b
unfolding ok_or
ok-injective {A} {a} e = ap (ok_or a) e

pub failed_not_ok : {A : Type 0} {a : A} {e : String} → ¬ (failed e ≡ ok a)
failed_not_ok e = cc

module _ {W A : Type 0} where
  described_value :
      (what : String) (p : W × Outcome A) (a : A) → (described what p).1 ≡ ok a → p.1 ≡ ok a
  described_value what (w, ok b) a h = h
  described_value what (w, failed e) a h = absurd (failed_not_ok h)

  described_world :
      (P : W → Type 0) (what : String) (p : W × Outcome A) → P p.0 → P (described what p).0
  described_world P what (w, ok a) h = h
  described_world P what (w, failed e) h = h

module _ {W : Type 0} where
  done_world : (P : W → Type 0) (p : W × Option String) → P p.0 → P (done_or_error p).0
  done_world P (w, none) h = h
  done_world P (w, some e) h = h

module _ {W A : Type 0} {P : A → Type 0} where
  pub Returns-pure : (a : A) → P a → Returns {W = W} P (pure a)
  unfolding pure
  Returns-pure a h = record { value = λ w b e. subst P (ok-injective e) h }

  pub Returns-raise : (e : String) → Returns {W = W} P (raise e)
  unfolding raise
  Returns-raise e = record { value = λ w b h. absurd (failed_not_ok h) }

  pub Returns-if :
      (b : Bool) (m n : Io W A) → Returns P m → Returns P n → Returns P (if b then m else n)
  Returns-if true m n hm hn = hm
  Returns-if false m n hm hn = hn

  pub Returns-wrap : (what : String) (m : Io W A) → Returns P m → Returns P (wrap what m)
  unfolding wrap
  Returns-wrap what m hm = record { value = λ w a h. hm.value w a (described_value what (m w) a h) }

  pub Returns-deferring :
      (f : W → W × Option String) (m : Io W A) → Returns P m → Returns P (deferring f m)
  unfolding deferring
  Returns-deferring f m hm = record { value = λ w a h. hm.value w a h }

pub never_fails :
    {A : Type 0} (r : Outcome A) → ((a : A) → ¬ (r ≡ ok a)) → (e : String) × (r ≡ failed e)
never_fails (ok a) n = absurd (n a refl)
never_fails (failed e) n = (e, refl)

module _ {W A B : Type 0} {P : B → Type 0} where
  -- The rest may use what holds of the values that the first part returns.
  pub Returns-after :
      (Q : A → Type 0) (m : Io W A) (f : A → Io W B)
      → Returns Q m
      → ((a : A) → Q a → Returns P (f a))
      → Returns P (m >>= f)
  unfolding ◌>>=◌
  Returns-after Q m f hm hf = record { value = λ w b h. go (m w) b (λ a e. hm.value w a e) h }
    where
      go :
          (p : W × Outcome A) (b : B) → ((a : A) → p.1 ≡ ok a → Q a) → (continue p f).1 ≡ ok b → P b
      go (w, ok a) b q h = (hf a (q a refl)).value w b h
      go (w, failed e) b q h = absurd (failed_not_ok h)

  pub Returns-bind :
      (m : Io W A) (f : A → Io W B) → ((a : A) → Returns P (f a)) → Returns P (m >>= f)
  Returns-bind m f hf =
      Returns-after (λ a. Unit {0}) m f (record { value = λ w a h. tt }) (λ a _. hf a)

module _ {W A : Type 0} {P : W → Type 0} where
  pub Keeps-pure : (a : A) → Keeps P (pure a)
  unfolding pure
  Keeps-pure a = record { after = λ w h. h }

  pub Keeps-raise : (e : String) → Keeps {A = A} P (raise e)
  unfolding raise
  Keeps-raise e = record { after = λ w h. h }

  pub Keeps-gets : (f : W → A) → Keeps P (gets f)
  unfolding gets
  Keeps-gets f = record { after = λ w h. h }

  pub Keeps-if : (b : Bool) (m n : Io W A) → Keeps P m → Keeps P n → Keeps P (if b then m else n)
  Keeps-if true m n hm hn = hm
  Keeps-if false m n hm hn = hn

  pub Keeps-wrap : (what : String) (m : Io W A) → Keeps P m → Keeps P (wrap what m)
  unfolding wrap
  Keeps-wrap what m hm = record { after = λ w h. described_world P what (m w) (hm.after w h) }

  pub Keeps-attempt : (m : Io W A) → Keeps P m → Keeps P (attempt m)
  unfolding attempt
  Keeps-attempt m hm = record { after = λ w h. hm.after w h }

  pub Keeps-deferring :
      (f : W → W × Option String) (m : Io W A)
      → ((w : W) → P w → P (f w).0)
      → Keeps P m
      → Keeps P (deferring f m)
  unfolding deferring
  Keeps-deferring f m hf hm = record { after = λ w h. hf (m w).0 (hm.after w h) }

module _ {W : Type 0} {P : W → Type 0} where
  pub Keeps-call : (f : W → W × Option String) → ((w : W) → P w → P (f w).0) → Keeps P (call f)
  unfolding call
  Keeps-call f hf = record { after = λ w h. done_world P (f w) (hf w h) }

  pub Keeps-ignore : (f : W → W × Option String) → ((w : W) → P w → P (f w).0) → Keeps P (ignore f)
  unfolding ignore
  Keeps-ignore f hf = record { after = λ w h. hf w h }

  pub Keeps-when : (b : Bool) (m : Io W (Unit {0})) → Keeps P m → Keeps P (when b m)
  unfolding when
  Keeps-when true m hm = record { after = λ w h. hm.after w h }
  Keeps-when false m hm = record { after = λ w h. h }

module _ {W A B : Type 0} {P : W → Type 0} where
  pub Keeps-bind :
      (m : Io W A) (f : A → Io W B) → Keeps P m → ((a : A) → Keeps P (f a)) → Keeps P (m >>= f)
  unfolding ◌>>=◌
  Keeps-bind m f hm hf = record { after = λ w h. go (m w) (hm.after w h) }
    where
      go : (p : W × Outcome A) → P p.0 → P (continue p f).0
      go (w, ok a) h = (hf a).after w h
      go (w, failed e) h = h

  -- Past an action that fails nothing happens.
  pub Keeps-stopped :
      (m : Io W A) (f : A → Io W B) → Returns IsNever m → Keeps P m → Keeps P (m >>= f)
  unfolding ◌>>=◌
  Keeps-stopped m f never hm = record {
    after = λ w h. go (m w) (λ a e. never.value w a e) (hm.after w h);
  }
    where
      go : (p : W × Outcome A) → ((a : A) → p.1 ≡ ok a → ⊥) → P p.0 → P (continue p f).0
      go (w, ok a) n h = absurd (n a refl)
      go (w, failed e) n h = h

module _ {W A B : Type 0} where
  pub bind_ok :
      (m : Io W A) (f : A → Io W B) (w w' : W) (a : A) → m w ≡ (w', ok a) → (m >>= f) w ≡ f a w'
  unfolding ◌>>=◌
  bind_ok m f w w' a h = rw h

  pub bind_failed :
      (m : Io W A) (f : A → Io W B) (w w' : W) (e : String)
      → m w ≡ (w', failed e)
      → (m >>= f) w ≡ (w', failed e)
  unfolding ◌>>=◌
  bind_failed m f w w' e h = rw h

module _ {W A : Type 0} where
  pub wrap_ok :
      (what : String) (m : Io W A) (w w' : W) (a : A)
      → m w ≡ (w', ok a)
      → wrap what m w ≡ (w', ok a)
  unfolding wrap
  wrap_ok what m w w' a h = rw h

  pub lift_ok : (r : Outcome A) (w : W) (a : A) → r ≡ ok a → lift r w ≡ (w, ok a)
  unfolding lift
  lift_ok r w a h = rw h
