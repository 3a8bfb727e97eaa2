-- ===== src/Repositories.antt =====
-- app/repositories: the stores of users, documents, findings and approvals.
pub mod Users
pub mod Documents
pub mod Findings
pub mod Approvals
