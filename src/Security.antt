-- ===== src/Security.antt =====
-- security/secret_client.py and security/secrets.py.
pub mod Client
pub mod Values
pub mod Memory
pub mod Environment
pub mod Cache
pub mod Manager
