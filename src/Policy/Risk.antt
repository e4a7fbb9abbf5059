-- ===== src/Policy/Risk.antt =====
-- internal/policy/riskclass.go
use portico_gateway.Base.{
  Bool, ◌||◌, List, [], ◌∷◌, if◌then◌else◌, GoString, codes, str_eq, contains,
}

abbrev pub risk_read : GoString
risk_read = codes "read"

abbrev pub risk_write : GoString
risk_write = codes "write"

abbrev pub risk_sensitive_read : GoString
risk_sensitive_read = codes "sensitive_read"

abbrev pub risk_external_side_effect : GoString
risk_external_side_effect = codes "external_side_effect"

abbrev pub risk_destructive : GoString
risk_destructive = codes "destructive"

abbrev pub valid_risk_classes : List GoString
valid_risk_classes =
    risk_read ∷ risk_write ∷ risk_sensitive_read ∷ risk_external_side_effect ∷ risk_destructive ∷ []

unfoldable pub requires_approval_default : GoString → Bool
requires_approval_default class =
    str_eq class risk_destructive
    || str_eq class risk_external_side_effect
    || str_eq class risk_sensitive_read

unfoldable pub canonical_risk : GoString → GoString
canonical_risk class = if contains valid_risk_classes class then class else risk_write
