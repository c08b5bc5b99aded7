-- ===== src/Store/Safe.antt =====
-- Calls that keep a well-formed store well formed, and how they are put together.
use kazutb_siem.Base.{ℕ, String, Option, none, some}
use kazutb_siem.Core.{Alert, Incident, AuditEntry, Error, Result, ok, err}
use kazutb_siem.Store.State.{Memory}
use kazutb_siem.Store.Action.{Action, pure, wrapping, alive, continue, ◌>>=◌, ◌>>◌}
use kazutb_siem.Store.Audit.{Codec}
use kazutb_siem.Store.Repository
use kazutb_siem.Store.WellFormed.{IsWellFormed}
use kazutb_siem.Store.Reachable.{KeepsAlert, KeepsIncident}
use kazutb_siem.Store.Preservation.{
  mutate_alert-IsWellFormed, mutate_incident-IsWellFormed, append_audit-IsWellFormed,
}

module _ (c : Codec) where
  -- From a well-formed state, the call leaves a well-formed one, whatever it answers.
  abbrev pub IsSafe {ℓ} : {A : Type ℓ} → Action A → Type 0
  IsSafe run = (m : Memory) → IsWellFormed m → IsWellFormed (run m).1

  module _ {ℓ} {A : Type ℓ} where
    pub pure-IsSafe : (a : A) → IsSafe (pure a)
    pure-IsSafe a m r = r

    pub wrapping-IsSafe :
        (message : String) (run : Action A) → IsSafe run → IsSafe (wrapping message run)
    wrapping-IsSafe message run safe m r = safe m r

  pub alive-IsSafe : (ctx : Option Error) → IsSafe (alive ctx)
  alive-IsSafe none m r = r
  alive-IsSafe (some e) m r = r

  module _ {ℓ κ} {A : Type ℓ} {B : Type κ} where
    continue-IsSafe :
        (answer : Result A) (f : A → Action B)
        → ((a : A) → IsSafe (f a))
        → IsSafe (continue answer f)
    continue-IsSafe (ok a) f safe m r = safe a m r
    continue-IsSafe (err e) f safe m r = r

    pub bind-IsSafe :
        (run : Action A) (f : A → Action B)
        → IsSafe run
        → ((a : A) → IsSafe (f a))
        → IsSafe (run >>= f)
    bind-IsSafe run f safe onward m r = continue-IsSafe (run m).0 f onward (run m).1 (safe m r)

  module _ {ℓ} {A : Type ℓ} where
    -- A method behind the test of the context.
    pub guarded-IsSafe :
        (ctx : Option Error) (run : Action A) → IsSafe run → IsSafe (alive ctx >> run)
    guarded-IsSafe ctx run safe = bind-IsSafe (alive ctx) (λ _. run) (alive-IsSafe ctx) (λ _. safe)

  pub mutate_alert-IsSafe :
      (ctx : Option Error) (tenant id : String) (expected now : ℕ) (f : Alert → Result Alert)
      → KeepsAlert f
      → IsSafe (Repository.mutate_alert ctx tenant id expected f now)
  mutate_alert-IsSafe ctx tenant id expected now f keeps =
      guarded-IsSafe ctx _ (λ m w. mutate_alert-IsWellFormed tenant id expected now f m keeps w)

  pub mutate_incident-IsSafe :
      (ctx : Option Error) (tenant id : String) (expected now : ℕ) (f : Incident → Result Incident)
      → KeepsIncident f
      → IsSafe (Repository.mutate_incident ctx tenant id expected f now)
  mutate_incident-IsSafe ctx tenant id expected now f keeps =
      guarded-IsSafe ctx _ (λ m w. mutate_incident-IsWellFormed tenant id expected now f m keeps w)

  pub append_audit-IsSafe :
      (ctx : Option Error) (id : String) (now : ℕ) (e : AuditEntry)
      → IsSafe (Repository.append_audit ctx c id now e)
  append_audit-IsSafe ctx id now e =
      guarded-IsSafe ctx _ (λ m w. append_audit-IsWellFormed m w c id now e)

  module _ {ℓ} {A : Type ℓ} where
    -- A change followed by its audit entry.
    pub audited-IsSafe :
        (run : Action A) (message : String) (ctx : Option Error) (id : String) (now : ℕ)
        (entry : A → AuditEntry)
        → IsSafe run
        → IsSafe (
            run >>= λ a.
            wrapping message (Repository.append_audit ctx c id now (entry a)) >> pure a)
    audited-IsSafe run message ctx id now entry safe =
        bind-IsSafe run
          (λ a. wrapping message (Repository.append_audit ctx c id now (entry a)) >> pure a) safe
          (λ a.
            bind-IsSafe (wrapping message (Repository.append_audit ctx c id now (entry a)))
              (λ _. pure a) (append_audit-IsSafe ctx id now (entry a)) (λ _. pure-IsSafe a))
