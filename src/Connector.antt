-- ===== src/Connector.antt =====
-- src/ssp-client-iso.cpp and src/ssp-client-iso.h, with src/ssp_connector/main.cpp and
-- src/ssp_connector/ssp_connector_proto.h from the repository's root: the plugin runs the camera's
-- stream in a process of its own, the connector, and reads its messages from a pipe.
pub mod Proto
pub mod Writer
pub mod Reader
pub mod Lifecycle
