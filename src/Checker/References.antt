-- ===== src/Checker/References.antt =====
-- The references of a JSON schema (packages/flow-graph/src/result-paths.ts): the loop that resolves
-- them ends.
use sozai.Common.Text.{Text}
use sozai.Common.Json.{Json}
