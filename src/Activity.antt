-- ===== src/Activity.antt =====
-- internal/activity: the node's event log with its subscribers, and the store of prompts.
pub mod Log
pub mod Prompts
