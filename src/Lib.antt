-- ===== src/Lib.antt =====
-- Verification library of the two C programs of this repository.
--
-- 项目二/embedded_debug_toolkit is a logic analyser: a sampling thread puts samples into a lock-free
-- byte ring, and a protocol thread takes them out. RingBuffer models src/core/ring_buffer.c there:
-- the operations (RingBuffer.antt: init, destroy, reset, available_data, available_space, write,
-- read and peek for the functions edt_ring_buffer_*), the capacity that init allocates (Capacity,
-- Create), the invariant (Inv), the copies (Copy, Moves), the bounded queue that a client sees (Queue,
-- Refine) and the interleaving of one writer and one reader thread (Spsc). Positions are size_t values
-- that wrap at 2 ^ 64. The loop of edt_round_up_pow2 runs on 65 rounds of fuel: it doubles 1, so it
-- has passed every power of two of a size_t by then. Spsc interleaves the loads of the other side's
-- position, the copied bytes and the stores as sequentially consistent steps; the acquire and release
-- marks of the C code, which are there to make this view right, are not modelled.
--
-- 项目一/6-7_smart_home_hub is a smart home hub: MQTT and JSON-RPC control of devices, and a video
-- pipeline. MemoryPool models its src/core/memory_pool.c: a block is named by its index, the waits of
-- hub_mem_pool_acquire are a list of wakes, each with the pool as other threads have left it, and Race
-- takes hub_mem_pool_release apart into its two atomic accesses. VideoPipeline models
-- src/video/video_pipeline.c: FrameQueue has queue_push and queue_pop, Yuv the conversion and its tables,
-- Camera the opening and closing of the camera with the ioctls given by their results, Sink the frame
-- sink, Frames the frames on their way, with the steps of both threads in Frames.Threads, and Start the
-- start and the stop. A call under a lock is one step, and so is each of the two atomic accesses of a
-- release; an acquire of a block between the two is left out of these steps, being the race of
-- MemoryPool.Race. A handle of a thread that a failed pthread_create leaves is 0 or any other value.
--
-- Of the toolkit, LogicAnalyzer models src/logic/logic_analyzer.c: the synthetic signal, the trigger and
-- the sampling thread (LogicAnalyzer.antt; the inner loop runs on fuel, one more round than the samples
-- of a batch being enough when no trigger is waited for), and the entry points edt_logic_analyzer_*
-- (Control). The bytes of a sample in memory are a parameter: 16 of them. Protocol models src/protocol/protocol_decoder.c: Uart,
-- I2c and Spi. The UART loop runs on as much fuel as there are samples, and one more, since each round
-- moves on. Sump models src/protocol/sump_server.c: a client's settings (Session), and its command loop
-- (Client), in which the capture, the allocations and the socket are parameters and whose fuel is a round for
-- each byte of the client; Apply and Commands have the theorems.
-- Sump.Server has its listening socket, and Sump.Socket its loops of send and recv, with as many rounds
-- as bytes. NetCapture models src/tools/net_capture.c, SystemMonitor src/tools/system_monitor.c, where
-- scanf gives the numbers, and PluginManager src/plugins/plugin_manager.c. DebugService puts the parts
-- together as src/service/debug_service.c does. V4l2Debugger models src/tools/v4l2_debugger.c with open and
-- the ioctls given by their results, EdtTime src/core/edt_time.c, and ToolkitMain src/main.c: its arguments
-- and the number of its rounds.
--
-- Of the hub, Device models src/device/device_hal.c with the system's open, read and write as
-- parameters, and LedDriver models drivers/led_char_safe/hub_led_drv.c; Device.RoundTrip puts the one on
-- the other. MediaPlayer models src/media/media_player.c, with the results of fork and waitpid as
-- parameters. Json models the JSON reader of src/rpc/json_rpc_dispatch.c, a text being the list of its
-- bytes and a pointer into it the rest of the text, and Rpc its methods, on top of Device and
-- MediaPlayer; Rpc.Requests follows a request from its text to the pin of the LED. HubConfig models
-- src/core/hub_config.c, whose reader is its own (HubConfig.Reader); HubConfig.Same compares the two. What the buffers on the stack hold before they
-- are written is a parameter. Mqtt models src/mqtt/mqtt_service.c as it is built with the MQTT library:
-- Mqtt.Library has the library's calls as functions of a state of its own, Mqtt.antt what is done with
-- them, and Mqtt.Thread the thread, as rounds with the library's callbacks between them; Mqtt.Clients
-- and Mqtt.Backoff have the theorems. HubMain models src/main.c: its callback, which joins Mqtt to Rpc
-- (HubMain.Messages follows a message of the broker to the pin of the LED and its answer back), and main
-- itself (HubMain.Program), where what the threads do before the signal is a function. HubLog models
-- src/utils/hub_log.c, and HalDemo tools/hal_demo/hal_demo.c, a program that gives one command to the devices.
--
-- Base holds what all parts share: tests, lists, bits, words, memcpy and integers, and in Text what the C
-- library does with texts (strstr, strchr, strtol, and the numbers of printf). A pointer to the
-- object that a function works on is never null in the model, and neither is a buffer that all callers
-- provide; a null data pointer in a structure is an Option. Allocation is a parameter.
-- Not modelled: the rounds of the main program of the toolkit, a negative size of a picture, and calls of the
-- device layer that run at the same time; of both programs, the test programs, the Qt user
-- interfaces (C++) and the scripts.
pub mod Base
pub mod RingBuffer
pub mod MemoryPool
pub mod VideoPipeline
pub mod LogicAnalyzer
pub mod Protocol
pub mod Sump
pub mod LedDriver
pub mod Device
pub mod NetCapture
pub mod MediaPlayer
pub mod Json
pub mod Rpc
pub mod HubConfig
pub mod Mqtt
pub mod SystemMonitor
pub mod PluginManager
pub mod DebugService
pub mod HubMain
pub mod V4l2Debugger
pub mod EdtTime
pub mod ToolkitMain
pub mod HubLog
pub mod HalDemo
