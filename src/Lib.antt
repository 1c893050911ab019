-- ===== src/Lib.antt =====
-- Verification of the iCAN CAN-bus stack: the rings of shared memory between a driver of USB CAN
-- adapters and its clients, the client's readers, the codecs of the adapters, and the tracker of
-- frames in flight.
--
-- A frame goes from the adapter through a codec into the RX ring (Ring), from which each client
-- drains it into the FIFOs of its readers (Client). A client writes a frame to the TX ring of its
-- channel, and the codec's drainTx takes it from there, encodes it and hands it to the USB
-- transfer. Files, and the code that they model:
--
--   Common      words with their wrap-around, bits, lists, tests, and the outcome of a loop on fuel
--   Can         protocol/can.h: canfd_frame as the record Frame, its bytes, and the DLC table
--   Ring        can_client/shared_ring.h and shared_ring_io.h: writeRxFrame is write_rx_frame,
--               readTxFrame is read_tx_frame; Queue says what bytes a ring holds
--   Client      can_client/can_client.cc: Readers has registerReader, unregisterReader,
--               readPacketFromReader and fanOutPacket; Frames has drainRxFrames and writeTxFrame;
--               Delivery follows one reader through drainRxFrames; Handles has the objects of
--               class CANClient, Reading the calls that read, and Calls the others
--   Codec       usb_can_driver/driver_types.h: what the codecs share
--   Slcan       usb_can_driver/codecs/slcan_codec.h and slcan_codec.cc: Text has encode and decode,
--               Lines the LineAccumulator, Codec the class of that name
--   Gsusb       usb_can_driver/codecs/gsusb_codec.h and gsusb_codec.cc: Frames has encodeTxFrame and
--               decodeRxTransfer, Codec the echoes, processRxData and drainTx, Timing the search
--               of setBitTiming, Device the control requests and what is built of them
--   Pcan        usb_can_driver/codecs/pcan_codec.h and pcan_codec.cc: Frames has encodeTxFrame and
--               decodeRxFrame, Stream processRxData and handleMessage, Timing calculateBitTiming,
--               Codec the commands, the channels and drainTxRing; Sessions follows the channels
--   Driver      usb_can_driver/usb_can_driver.cpp: State has USBCANDriver_IVars; Setup and Pipes have
--               ConfigureDevice, FindInterfaces and ConfigurePipes; Lifecycle StartIO and StopIO; Slots
--               SubmitPendingReads, Receive ReadCompleteBundled; Transfer the sends on the pipes,
--               Drains DrainTxRing and the completions of writes, Channels OpenChannel and
--               CloseChannel. The others prove what holds of these
--   UserClient  usb_can_driver/usb_can_user_client.cpp: Methods has ExternalMethod and its table,
--               Calls the methods, Waits the atomic parts of WaitForData and NotifyRxDataAvailable
--   TxPath      a client's writes and the codec's drains in any order, against a queue
--   Flight      ican/perf/FlightWindow.hpp: the operations of FlightWindow
--   Metrics     ican/perf/MetricsEngine.cpp: the operations of MetricsEngine
--   Dashboard   ican/perf/DashboardMetricsEngine.cpp: a round of readerLoop, and what is shown of it
--   Samples     frames and a header for the tests, which are the modules whose names end in Tests
--
-- The shared memory is a map from offsets to bytes, and positions are 32-bit numbers with their
-- wrap-around written out. The atomic accesses of one call are taken as one step; the runs of the
-- flight window are sequences of such steps. A copy whose size the code does not bound is the
-- outcome `undefined`. Loops that follow a ring run on fuel: each round takes at least two bytes of
-- a TX ring, ten of the RX ring, one of a transfer, or 64 positions of the flight window, and the
-- fuel is the distance to cover and one more; the search for a bit timing has a round for each
-- prescaler. A division by zero is `undefined` too. The callback that sends a transfer and the
-- device that answers control requests are parameters.
--
-- Not modelled: the calls of IOKit and DriverKit, whose answers are parameters, the creation and
-- release of objects (init, free, Start, the rest of Stop, NewUserClient), the mapping of shared
-- memory into the client with open of the client, locks and queues, the firmware's version of
-- PCAN devices, the test engines, the thread of the dashboard, logging, and the application. An
-- operation of the driver is one step, although its two queues may run two operations at once;
-- the atomic parts of WaitForData are steps by themselves. An object of DriverKit is only there
-- or not there in the driver's state. The percentage that the flight window shows is a pair of
-- numbers here.
pub mod Can
pub mod Client
pub mod Codec
pub mod Common
pub mod Dashboard
pub mod Driver
pub mod Flight
pub mod Gsusb
pub mod Metrics
pub mod Pcan
pub mod Ring
pub mod Samples
pub mod Slcan
pub mod TxPath
pub mod UserClient
