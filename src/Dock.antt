-- ===== src/Dock.antt =====
-- src/ui/zc_control_dock.cpp: the list of the cameras, the stream bar of the settings and the joystick.
pub mod Rail
pub mod Presets
pub mod Stream
pub mod Pad
