-- ===== src/Service/Policy/Protected.antt =====
-- `Policy` of internal/risk/service.go with the analyzer of internal/analysis/analysis.go.
use safe_road.Service.Policy.{Service}
