-- ===== src/Lib.antt =====
-- The flight software of cfs-telemetry-app: applications of the core Flight System that take
-- telecommands from a radio link and pass them on to a drone's flight controller, over the
-- software bus of the executive (cFE).
--
-- uplink_app receives each command of the ground (lora_tdm_app forwards it from the radio),
-- decides whether it may be carried out, and publishes it to cfs_core_app, lora_tdm_app or
-- mavlink_bridge_app. It reports each decision in its status telemetry, and it keeps the last
-- accepted sequence and its boot history in a file. Its parts, and where they are modelled:
--   Uplink/Messages   the enumerations, limits and structures of uplink_app/config/ and
--                     shared_msgs/; SbMessage is what CFE_SB_TransmitMsg gets
--   Uplink/State      UPLINK_APP_Data_t (uplink_app/fsw/src/uplink_app.h), the log of the messages
--                     that the bus took and the state file; Env is what the executive answers
--   Uplink/Crc        UPLINK_APP_CRC16 (uplink_app/fsw/src/uplink_app_utils.c)
--   Uplink/Admission  UPLINK_APP_CheckSequence, ValidateProxyCommand, the health policy and
--                     UPLINK_APP_IsAuthorized (uplink_app_cmds.c, uplink_app_utils.c)
--   Uplink/Payload    the parsers of the route, viewpoint and flight mode payloads
--   Uplink/Forward    the functions that pass a command on, one for each class
--   Uplink/Telemetry  UPLINK_APP_UpdateStatusTelemetry and ReportHousekeeping
--   Uplink/Persist    UPLINK_APP_LoadState, SaveState and the boot marker
--   Uplink/Process    UPLINK_APP_ProcessUplink in stages, the other command handlers
--   Uplink/Main       UPLINK_APP_TaskPipe, ServicePrototype, Init and the loop of Main
--   Uplink/Tests      inputs on which the theorems are run
-- lora_tdm_app takes the frames of the ground from the radio. Modelled are
--   LoraTdm/Receiver  the collection of bytes in LORA_TDM_APP_RunRxWindow
--                     (lora_tdm_app/fsw/src/lora_tdm_app.c)
--   LoraTdm/Frames    the parsers of ACK2 and UP2 frames, the command for uplink_app, and
--                     LORA_TDM_APP_UpdateLinkState (lora_tdm_app_utils.c)
--   LoraTdm/Tests     inputs on which these theorems are run
-- cfs_core_app watches the others, judges the health of the system, restarts an application that
-- is silent, and keeps the last route (all in cfs_core_app/fsw/src/):
--   CfsCore/State     CFS_CORE_APP_Data_t, the log of the bus, the state file; CoreEnv is what the
--                     executive answers
--   CfsCore/Cache     the caches of the flight state and their order of sequences and times
--   CfsCore/Health    the judgement of the system health in CFS_CORE_APP_UpdateHealth
--   CfsCore/Restarts  CFS_CORE_APP_CheckAppRestarts
--   CfsCore/Publish   the report of UpdateHealth, ServicePrototype and ReportHousekeeping
--   CfsCore/Persist   CFS_CORE_APP_SaveState and LoadState
--   CfsCore/Config    CFS_CORE_APP_ProcessConfigCommand
--   CfsCore/Commands  the other command handlers
--   CfsCore/Main      CFS_CORE_APP_TaskPipe, ProcessStateMessage, Init and the loop of Main
--   CfsCore/Tests     inputs on which the theorems are run
-- mavlink_bridge_app speaks MAVLink with the flight controller over a serial port. Modelled
-- are, of mavlink_bridge_app/fsw/src/mavlink_bridge_app_utils.c:
--   Mavlink/Parser    the parser of frames, ProcessReceivedByte, and its checksum
--   Mavlink/Frame     the bytes that SendMavlinkV2 puts together
--   Mavlink/State     MAVLINK_BRIDGE_APP_Data_t, the frames that went out and the log of the bus
--   Mavlink/Send      SendMavlinkV2 and the frames of the mission protocol
--   Mavlink/Upload    StartMissionUpload with its four operations, CheckMissionUploadTimeout
--   Mavlink/Readback  the readback of the mission, MissionQuery and SetLinkState
--   Mavlink/Mission   what each frame of the mission protocol does
--   Mavlink/Publish   the state messages
--   Mavlink/Receive   HandleFrameComplete and HandleReceivedBytes
--   Mavlink/Config    ProcessConfigCommand, SaveState and LoadState
--   Mavlink/Commands  ProcessSetFlightModeCmd, ProcessParserResetCmd, and the two commands of
--                     mavlink_bridge_app_cmds.c
--   Mavlink/Items     the items of a mission on the wire, out and back
--   Mavlink/Steps     a run of frames, commands and timers
--   Mavlink/Tests     inputs on which the theorems are run
-- System composes uplink_app and cfs_core_app over the bus: a command goes one way and its result
-- the other.
-- A handler is a function from the state to the state. The proofs about a part stand in the
-- folder of its name. Common holds the C arithmetic: a uint8, uint16 or uint32 is a native
-- number with its reduction written out, a float is its IEEE bit pattern, a C array is a list.
-- The payload length of a command for uplink_app, a uint8 there, has no bound of its own here: what is
-- stated without a bound holds for every length.
--
-- The executive, the file system and the clock are parameters: Env gives the readings of the
-- clock, whether the bus takes each message, and how far a save gets; CoreEnv and BridgeEnv do the
-- same for their applications, and for the bridge whether the port takes each frame whole and what
-- the conversions to single precision give. A save that succeeds replaces the file at once; a crash
-- inside a save is not modelled. All loops run over a list or a count that they use up, so no fuel is
-- needed; a session is a finite list of turns of the main loop.
--
-- Not modelled: events (CFE_EVS_SendEvent) and performance markers, which change no state; the
-- message headers; the text frames, the downlink and the commands of lora_tdm_app;
-- the service of the serial port, the initialization and the dispatcher of mavlink_bridge_app; the
-- legacy applications and the tools of the ground.
pub mod Common
pub mod CfsCore
pub mod LoraTdm
pub mod System
pub mod Uplink
pub mod Mavlink
