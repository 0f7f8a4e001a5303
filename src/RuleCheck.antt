-- ===== src/RuleCheck.antt =====
-- The rule check of src/frfw/rule_lint.py, against what src/frfw/nft/builder.py renders of a rule.
pub mod Rule
pub mod Render
pub mod Covers
pub mod Address
pub mod Line
pub mod Covering
pub mod Sound
pub mod First
pub mod Order
mod Tests
