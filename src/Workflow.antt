-- ===== src/Workflow.antt =====
-- services/workflow.py: the transitions of the business statuses, one module for each.
pub mod Errors
pub mod Refusal
pub mod Acceptance
pub mod Approval
pub mod Submission
pub mod Delivering
pub mod Run
