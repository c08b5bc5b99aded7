-- ===== src/Soar/Node.antt =====
-- SOARNode of core/soar.go, the catalog of actions, configString and configInt. A number of a
-- configuration is an integer; one with a fraction is not modelled.
use kazutb_siem.Base.{ℕ, String, Bool, true, false, Option, none, some, List, [], ◌∷◌}
use kazutb_siem.Base.Int.{ℤ}
use kazutb_siem.Base.Map.{Map}
use kazutb_siem.Base.Text.{trim_space}
use kazutb_siem.Core.{Fields, bool, num, text}
use kazutb_siem.Sigma.Values.{field_at}

pub record RetryPolicy : Type 0 where
  pub maximum_attempts : ℤ
  pub backoff_seconds : ℤ
  pub maximum_backoff : ℤ

pub record SoarNode : Type 0 where
  pub id : String
  pub kind : String  -- Type
  pub name : String
  pub depends_on : List String
  pub timeout_seconds : ℤ
  pub retry : RetryPolicy
  pub config : Fields

pub record ActionDescriptor : Type 0 where
  pub level : ℕ
  pub reversible : Bool

abbrev action : ℕ → Bool → ActionDescriptor
action n r = record { level = n; reversible = r }

abbrev pub default_action_catalog : Map ActionDescriptor
default_action_catalog =
    ("kcsp.enrich.threat_intel", action 0 false)
    ∷ ("kcsp.ticket.create", action 1 false)
    ∷ ("kcsp.ticket.update", action 1 false)
    ∷ ("kcsp.ticket.comment", action 1 false)
    ∷ ("kcsp.ticket.close", action 2 false)
    ∷ ("kcsp.notification.send", action 2 false)
    ∷ ("endpoint.isolate", action 3 true)
    ∷ ("endpoint.release", action 3 false)
    ∷ ("identity.disable_account", action 4 true)
    ∷ ("identity.enable_account", action 4 false)
    ∷ ("firewall.block_ip", action 5 true)
    ∷ ("firewall.unblock_ip", action 5 false)
    ∷ ("threat_intel.indicator.submit", action 1 false)
    ∷ ("destructive.erase_evidence", action 6 false)
    ∷ []

-- The first result of configString, which is empty where the second is false.
unfoldable pub config_string : Fields → String → String
unfolding field_at trim_space
config_string config key = elim (field_at key config) [
  | some (text value) ↦ trim_space value
  | _ ↦ ""
]

unfoldable pub config_int : Fields → String → Option ℤ
unfolding field_at
config_int config key = elim (field_at key config) [ some (num n) ↦ some n | _ ↦ none ]

-- config[key].(bool), false where it is none
unfoldable pub config_bool : Fields → String → Bool
unfolding field_at
config_bool config key = elim (field_at key config) [ some (bool b) ↦ b | _ ↦ false ]

pub record Issue : Type 0 where
  pub level : String
  pub code : String
  pub path : String
  pub message : String
