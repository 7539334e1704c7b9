-- ===== src/VideoPipeline.antt =====
-- smart_home_hub/src/video/video_pipeline.c: frames go from the capture thread through a queue of eight
-- to the render thread, in blocks of the pool.
pub mod FrameQueue
pub mod Frames
pub mod Yuv
pub mod Camera
pub mod Sink
pub mod Start
mod Tests
