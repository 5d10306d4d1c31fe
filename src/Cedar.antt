-- ===== src/Cedar.antt =====
-- Authorization (src/cedar/): the rules that hold without a policy, and the perimeters.
pub mod Rules
pub mod Perimeter
