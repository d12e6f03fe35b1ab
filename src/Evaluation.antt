-- ===== src/Evaluation.antt =====
-- The evaluation of retrieval: app/evaluation.
pub mod RateLimit
pub mod Scoring
pub mod Vectors
pub mod Corpus
pub mod Runs
pub mod Sampling
pub mod Datasets
pub mod Manager
