-- ===== src/Store/Action.antt =====
-- A call on the store: it may fail, and what it wrote before it failed stays written.
use kazutb_siem.Base.{ℕ, String, Option, none, some}
use kazutb_siem.Core.{Error, Result, wrap, ok, err}
use kazutb_siem.Store.State.{Memory}

abbrev pub Action {ℓ} : Type ℓ → Type ℓ
Action A = Memory → Result A × Memory

module _ {ℓ} {A : Type ℓ} where
  abbrev pub pure : A → Action A
  pure a m = (ok a, m)

  abbrev pub fail : Error → Action A
  fail e m = (err e, m)

  abbrev pub lift : Result A → Action A
  lift r m = (r, m)

module _ {ℓ} {A : Type ℓ} where
  abbrev pub wrap_error : String → Result A → Result A
  wrap_error message (ok a) = ok a
  wrap_error message (err e) = err (wrap message e)

  -- fmt.Errorf("message: %w", err) at the call's error
  abbrev pub wrapping : String → Action A → Action A
  wrapping message run m = let (r, m') = run m in (wrap_error message r, m')

-- ctx.Err(): the error of a context that is done
abbrev pub alive : Option Error → Action (Unit {0})
alive none = pure tt
alive (some e) = fail e

module _ {ℓ κ} {A : Type ℓ} {B : Type κ} where
  abbrev pub continue : Result A → (A → Action B) → Action B
  continue (ok a) f m = f a m
  continue (err e) f m = (err e, m)

  infixl 5 ◌>>=◌
  abbrev pub ◌>>=◌ : Action A → (A → Action B) → Action B
  ◌>>=◌ run f m = let (r, m') = run m in continue r f m'

infixl 5 ◌>>◌
abbrev pub ◌>>◌ {ℓ κ} : {A : Type ℓ} {B : Type κ} → Action A → Action B → Action B
run >> next = run >>= λ _. next

-- What an operation takes from outside: at its k-th use, the clock, a random identifier with a
-- prefix, and the error of the request's context.
pub record Env : Type 0 where
  pub clock : ℕ → ℕ
  pub new_id : ℕ → String → String
  pub ctx : ℕ → Option Error
