-- ===== src/Control.antt =====
-- internal/core/control: the frames of control messages.
pub mod Frame
