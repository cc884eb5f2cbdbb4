-- ===== src/Remote.antt =====
-- What is sent to a remote host: src/lib/quote.ts.
pub mod Quote
