-- ===== src/Connector.antt =====
-- internal/connector: the connector to a MySQL server. What the server answers is a parameter.
pub mod Tables
pub mod Mysql
pub mod Preflight
