-- ===== src/HttpFile.antt =====
-- socket_server/http_file.py: the HTTP file service, its streaming reader and the upload's files.
pub mod Reader
pub mod Multipart
pub mod Handler
pub mod Port
