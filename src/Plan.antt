-- ===== src/Plan.antt =====
-- app/learning/lesson_plan.py, the policy of the lesson plan, and the part of
-- app/services/lesson_plan.py that puts a plan's components in order.
pub mod Closure
pub mod Order
pub mod Objective
pub mod Step
pub mod Revise
