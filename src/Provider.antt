-- ===== src/Provider.antt =====
-- packages/provider-core/src: the retries of a request to a model provider.
pub mod Retry
mod Examples
