-- ===== src/Storage.antt =====
-- interfaces/protocols/file_storage_protocol.py and file_system/local_storage.py.
pub mod Protocol
pub mod Local
