-- ===== src/Lib.antt =====
-- The firmware of the VehicleSense device (directory src of the repository), as far as it decides what
-- happens to a telemetry sample, a command, an alert or a firmware upload. A sample is measured (Sensors),
-- validated (TelemetryValidator), numbered (DeviceIdentity), spelled as JSON (TelemetryBuilder), logged
-- (MicroSDLogger), written as a record to the memory card (OfflineTelemetryQueue), taken from there by the
-- main loop (AppController), handed to the MQTT client (SecureMqttClient) and removed from the card once the
-- broker has acknowledged it.
--
-- The parts and their files:
--   Base, Base/*         shared names, lists, 32-bit words, bits, integers, decimal numbers, C strings
--   Config               include/config.h: the constants that are used
--   OfflineQueuePolicy   src/storage/OfflineQueuePolicy.h: tokens, limits, ages, the marking of payloads
--   Storage/SdCard       what is used of the SD library, as a record of operations (a parameter), and
--                        SdCard/Memory, a card kept in memory, on which the tests run
--   Storage/OfflineRecord  src/storage/OfflineTelemetryQueue.cpp, the file format and the file names
--   Storage/OfflineQueue   the class OfflineTelemetryQueue: Intake (begin, scanRecords, ensureCapacity, enqueue),
--                        Delivery (peek, markAttempted, acknowledge), Upkeep (update)
--   MqttTopics           src/communication/MqttTopics.cpp
--   DeviceIdentity       src/system/DeviceIdentity.cpp
--   Backoff              the functions reached and increaseBackoff, of which three classes have a copy
--   SecureMqtt           src/communication/SecureMqttClient.cpp: Setup (begin), Publish (the publish methods, update),
--                        Events (handleEvent and its handlers, takeCommand)
--   AppController        src/app/AppController.cpp in the mode VEHICLESENSE_WIFI: Snapshot (buildSnapshot),
--                        Telemetry (publishTelemetry), Mqtt (processSecureMqtt), Commands (the answer to a command),
--                        Acoustic (processAcoustic)
--   Sim800l              src/communication/SIM800LModem.cpp
--   WifiManager          src/communication/WiFiManagerCustom.cpp
--   MqttClient           src/communication/MQTTClientCustom.cpp
--   TelemetryData, AcousticTypes, RuntimeStatus  the structs of src/telemetry, src/acoustic and src/system
--   TelemetryValidator   src/telemetry/TelemetryValidator.cpp
--   TelemetryBuilder     src/telemetry/TelemetryBuilder.cpp
--   JsonWriter           JSON documents as lists of members, and the end that all builders share
--   AcousticAccumulator  src/acoustic/AcousticFeatureAccumulator.cpp
--   AcousticClassifier   src/acoustic/AcousticClassifier.cpp, and Categories, the list of the known categories
--   AcousticAlerts       src/acoustic/AcousticAlertEvaluator.cpp
--   AcousticMessages     src/acoustic/AcousticMessageBuilder.cpp
--   TimeService          src/system/TimeService.cpp
--   MicroSdLogger        src/storage/MicroSDLogger.cpp
--   LocalOtaUpdater      src/web/LocalOTAUpdater.cpp
--   Sensors              src/sensors: Dht11, Bh1750, Gps, and Bmp180 of the directory gy801
--   Microphone           src/sensors/INMP441Microphone.cpp, the task from the samples on
--   Calibration          src/calibration/BarometerMath.cpp, and Store, BarometerCalibrationStore.cpp
--   Floats               floating-point numbers as a parameter, and Floats/Fixed, fixed-point numbers for the tests
-- The modules Tests hold runs at concrete inputs.
--
-- An object is a record with the members of its class, and a method is a function with the method's name
-- in lower case, which takes the object, and the state of the library that it calls, and returns both. A
-- result through a pointer is an Option. The libraries (SD, ESP-MQTT, Preferences, TinyGSM, WiFi,
-- PubSubClient, ArduinoJson, Update, WebServer, Wire, the sensors' drivers, the system clock) and
-- floating-point numbers are records of operations that every theorem takes as a parameter; what a theorem
-- needs of them is a named hypothesis (IsReliable, KeepsNumbers, KeepsTime, KeepsLines, KeepsCalibration,
-- IsRounded). Numbers are natural numbers with the wrap-around of 32 bits written out. The calls and the
-- events of the MQTT client are atomic steps in any order, as its critical sections make them, except for a
-- publication, whose two steps are told apart where that matters. Loops that remove records run on fuel that
-- equals the number of records that the spool counts: each round removes one or stops.
--
-- Not modelled: log output; the spelling of JSON, which is a call of a library; the routes and the page of the
-- local web server; the motion sensors and the microphone's driver; the signal processing of sound, whose
-- result depends on rounding; the bench programs of src/diagnostics. The schedule of AppController::update is
-- left out so far.
pub mod Base
pub mod OfflineQueuePolicy
pub mod Calibration
pub mod Config
pub mod Storage
pub mod MqttTopics
pub mod DeviceIdentity
pub mod Backoff
pub mod SecureMqtt
pub mod AppController
pub mod Sim800l
pub mod AcousticAlerts
pub mod WifiManager
pub mod Microphone
pub mod MqttClient
pub mod Floats
pub mod AcousticTypes
pub mod AcousticAccumulator
pub mod AcousticClassifier
pub mod RuntimeStatus
pub mod TelemetryData
pub mod JsonWriter
pub mod Sensors
pub mod TelemetryBuilder
pub mod TelemetryValidator
pub mod AcousticMessages
pub mod LocalOtaUpdater
pub mod TimeService
pub mod MicroSdLogger
