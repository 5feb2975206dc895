-- ===== src/Review.antt =====
-- internal/review: the answers of the reviewing agent.
pub mod Parser
