-- ===== src/Lib.antt =====
-- A model of the station program of data-collection-master/Project-App/src: a telemetry station that
-- polls sensors, keeps readings as data items, saves them on a schedule, reports them to a center in
-- frames over TCP or a serial port, and answers the center's commands. Paths in this library are
-- relative to that folder.
--
-- The parts, and the files that model them:
-- - Codec: the conversions of lib/lib.cpp. Codec/Crc is crc_calculate and crc8 (a u16 register with its
--   wrap-around written out), Codec/Bcd the decimal digits (bytehex2bcd, hex2bcd, bcd2hex, bigbcd2hex,
--   and the number report of DataClassItem::_to_report), Codec/Order the reversals (little2big, inverseto,
--   inverse), Codec/Hex the hex text and the address registers, Codec/Text list_merge and split,
--   Codec/Search the matches of a pattern (rx_serach, with regexec as a parameter).
-- - Packet: app/up/packet/upacket.cpp. Packet/Frame is the layout of UDPacket as the bytes of its packed
--   struct and the meaning of a frame; Packet/Decode is upacket_decode, whose cache (state, len, memory)
--   lives between calls; Packet/Encode is upacket_encode with its wrappers, where the packet that is
--   reused keeps its old bytes.
-- - Item: DataClassItem of data/DataClass.hpp, its eight formats, toreport, fromreport and clear.
-- - Store: DataClass of data/DataClass.hpp, a table of items reached by number; Store/Tables are the five
--   tables of data/DataClassItemConfig.cpp, Store/Replay is the abstract view, a value for each number.
-- - Center: the commands of the center. Center/Header is app/up/packet/header.cpp and the variables that the
--   commands share, Center/Commands is app/up/center/center.cpp (each command from the text to the
--   registers and the answer) with app/up/packet/ZhengWen.hpp, Center/Process the dispatch of
--   app/up/center/center_process.cpp.
--   Store/Log is fromlog, the reading of a logged table, with the search of Codec/Search.
-- - Saving: the settings and the registers, app/dataprocess/data_save.cpp; Codec/Number is the numbers of the
--   settings as text. The JSON file holds the settings as they are.
-- - Sensor: app/down/rain.cpp, app/down/waterlevel.cpp and app/down/flow.cpp.
--   Sensor/Gauge is the rain gauge, di_get of app/down/_sensor_yuliang.cpp.
--   Sensor/Request is the text and the answers of the requests, app/down/_thread_down.cpp, and
--   Sensor/Reading the reading of a sensor, which runs the machine of Dfsm.
-- - Channel: the choice of the connection, app/up/thread_up.cpp, and its closing, communication_state of
--   app/up/report/zhudong_report.cpp.
-- - SendMode: app/up/sendmode.cpp, init (a message cut into parts), and wait for the modes M1 to M4. The
--   receive thread is an argument: which packet it accepts during each tick, and when the device has sent.
-- - Bao: the report classes of app/dataprocess/Ibao.hpp, a record of the members and poll, and the loop
--   body of bao_poll in app/up/report/zhudong_report.cpp with the fate of each row.
--   Bao/Retry is BuBaoBase, which sends the failed reports again, with the rows of its table as update of
--   data/DB.hpp changes them; it takes one report of the class as one step.
-- - Link: the connection of dev/tcp_client.cpp, one function per case of tcp_state_function; the results
--   of the system calls of a step are an argument. Link/Run is its threads and senddata in any order, each
--   taken as one step.
-- - Dfsm: a request to a sensor, app/down/dfsm.cpp; the calls back and the bytes sent are effects.
-- - Ftp: the FTP client, daemon/ftpclient.cpp. A control connection is the commands sent and the numbers of
--   the replies to come; memory is a list of cells, and malloc an argument with the size it gives.
--   Ftp/Login is the login, Ftp/Listing the list of a folder, Ftp/Files the copying of a file.
-- - Update: the update of the program, daemon/updata.cpp, a version as the seven numbers that sscanf reads.
--   What a poll finds (settings, answers of the server, process numbers) is an argument, what it does a list.
--   Update/Order is the order of the versions, Update/Offered the search of a version in the list of
--   the server, the search of regexec an argument, and Update/Polls the polls.
-- - Examples: runs on concrete inputs.
--
-- How they interact: bao_poll hands the bytes of a report to SendMode.init and wait; wait encodes each
-- part with Packet.Encode and gives the frame to the device, which is Link for TCP; the packet thread of
-- Link feeds received bytes to Packet.Decode, and an accepted packet is the answer that wait looks at. A packet
-- that is a command goes to Center.Process, which changes the tables of Store and answers by SendMode. The
-- sensors write their values to a table of Store, and the reports read them there.
--
-- Choices: numbers are natural numbers, with % 2 ^ w where the source's width matters; a buffer is a
-- list, and a write behind its end changes nothing. Loops over a count or a list are structural. The
-- rounds of split are bounded by the length of the text, each takes a character at least; the
-- final wait of M3 takes a number of rounds, since a center that sends NAK again and again keeps it
-- running: it yields nothing where the rounds run out, and as many as the milliseconds left are enough
-- while no NAK comes. The reading of a list of reports takes as many rounds as its text has bytes, a round
-- moves on by three at least. The calendar of the library is a parameter.
--
-- Not modelled: the databases and settings files (SQL and JSON libraries), the log texts, the serial port
-- and socket calls, the shell commands under daemon, and the threads themselves. An identifier by name
-- is the number of its line in the table, and the arrays of the items lie at addresses that are a parameter.
pub mod Prelude
pub mod Codec
pub mod Packet
pub mod Item
pub mod Store
pub mod Center
pub mod Saving
pub mod Sensor
pub mod Channel
pub mod SendMode
pub mod Bao
pub mod Link
pub mod Dfsm
pub mod Ftp
pub mod Update
pub mod Examples
