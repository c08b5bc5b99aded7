-- ===== src/Core/Scale.antt =====
-- The severities of model.go: a Go string type with five constants, their rank, and the severity
-- of a risk score.
use kazutb_siem.Base.{ℕ, String, ◌==◌, leb, if◌then◌else◌}

abbrev pub Severity : Type 0
Severity = String

abbrev pub severity_critical : Severity
severity_critical = "CRITICAL"

abbrev pub severity_high : Severity
severity_high = "HIGH"

abbrev pub severity_medium : Severity
severity_medium = "MEDIUM"

abbrev pub severity_low : Severity
severity_low = "LOW"

abbrev pub severity_informational : Severity
severity_informational = "INFORMATIONAL"

unfoldable pub severity_rank : Severity → ℕ
severity_rank value =
    if value == severity_critical
    then 5
    else if value == severity_high
    then 4
    else if value == severity_medium
    then 3
    else if value == severity_low
    then 2
    else 1

unfoldable pub severity_from_risk : ℕ → Severity
severity_from_risk score =
    if leb 85 score
    then severity_critical
    else if leb 65 score
    then severity_high
    else if leb 40 score
    then severity_medium
    else if leb 20 score
    then severity_low
    else severity_informational
