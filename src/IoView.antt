-- ===== src/IoView.antt =====
-- sw/IoView: the user interface of the IoProbe core.
pub mod Protocol
pub mod Panel
