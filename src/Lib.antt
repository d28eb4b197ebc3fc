-- ===== src/Lib.antt =====
-- Source MUD: a verification library of the game server.
--
-- The program is a telnet game server. src/net accepts connections, refuses denied hosts, counts
-- the connections of each host and formats what is written to a client; src/mud holds the game
-- world, its clock and calendar; src/common holds the text utilities that all parts call.
--
-- Files. Base holds what all parts share: Boolean tests (Base/Tests), lists indexed by native
-- numbers (Base/Lists), loops on fuel (Base/Loops), text as bytes (Base/Text), chains of optional
-- results (Base/Options) and integers (Base/Int).
--   Clock: src/mud/time.cc, src/mud/calendar.cc, include/mud/gametime.h. `GameTime` and `Calendar`
--   are the classes' fields; `clip_time`, `update`, the setters, `days_in_month`, `get_weekday`,
--   `get_holiday`, `find_month` and `find_weekday` are the methods. Clock/Clip, Clock/Carry,
--   Clock/Elapsed and Clock/Weekday are about them.
--   Net/Addr: src/net/netaddr.cc and src/net/util.cc (`apply_mask`, `addrcmp`, `addrcmp_mask`,
--   `parse_addr`); Net/Mask is about masks. Net/Deny: `IPDenyList` of src/net/iplist.cc,
--   with Net/Deny/Laws, Net/Deny/Edit and Net/Deny/Removal. Net/Conn: `IPConnList`, with
--   Net/Conn/Counts, Net/Conn/Adding, Net/Conn/Removing and Net/Conn/History.
--   Strings: src/common/strings.cc, one definition a function, in Strings/Chars (`strEq`, case),
--   Strings/Check (`strIsValidId`, `strIsEmail`, `strIsTrue`, `strIsFalse`), Strings/Split,
--   Strings/Strip, Strings/Path and Strings/Numbers.
--   Telnet/Handler: the state of the handler of include/net/telnet.h, its colours, and the calls it
--   makes of libtelnet, which are recorded in order. Telnet/Chunk: `endChunk`, `addToChunk`,
--   `setIndent` and OUTPUT_INDENT of src/net/telnet.cc; Telnet/Stream: `streamPut`, one definition
--   a case of its switches. Telnet/Chunk/Safety and Telnet/Stream/Safety are about their buffers and
--   tables, Telnet/Chunk/Line and Telnet/Stream/Breaks about newlines and tabs. Telnet/Input: the
--   bytes of TELNET_EV_DATA, `processInput`, `processCommand` and `processTelnetCommand`, with
--   Telnet/Input/Lines and Telnet/Input/Safety. Telnet/Session: `telnetEvent` for these and for
--   the requests of options, and `sockFlush`, in any order, with Telnet/Session/Safety.
--   Strings/Phrase: `phraseMatch`.
--   Command: src/mud/command.cc. Command/Words: the split of a line by `_MCommand::call` and
--   `repair`; Command/Format: `CommandFormat::build`; Command/Match: `trymatch`, with its grammar in
--   Command/Match/Grammar; Command/Order: the order of the formats; Command/Dispatch: the choice of
--   a format by `call`.
--   Zmp: src/net/zmp.cc: the registry of commands, the check and the parse of a request;
--   Zmp/RoundTrip compares it with the bytes that `sendZmp` writes, Zmp/Lookup with `match`.
--   Equipment: src/mud/body.cc, with `setOwner` and `destroy` of src/mud/object.cc and
--   src/mud/entity.cc. Equipment/Slots: the searches of the slots, which Equipment/Search compares
--   with lists; Equipment/Owners, Taking, Equipping and History are about who has what.
--   Base64: src/common/base64.cc, with the encoding that it is compared with in Base64/RoundTrip.
--   ObjFile: src/mud/fileobj.cc and include/mud/fileobj.h. ObjFile/Reader: `readToken` of
--   File::Reader; ObjFile/Nodes: `get`, `setValue`, `consume` and the getters of File::Node;
--   ObjFile/Writer: File::Writer, with its calls as data. ObjFile/Outcome: a result, an exception or
--   a loop without an end. ObjFile/Tokens, Lines, Lists and Blocks are about one token or line,
--   ObjFile/Contents, Texts, Reads and RoundTrip about a whole file, ObjFile/Ends, Gets and
--   Termination about the end of its loops. ObjFile/Object: the macros FO_READ_BEGIN to
--   FO_READ_END, through which Weather loads; ObjFile/Streams is about their loop.
--   Weather: src/mud/weather.cc and include/mud/weather.h, with Random::get of src/common/rand.cc.
--   Weather/File: `load` and `save` of WeatherRegion, which use ObjFile; Weather/Draws and
--   Weather/Change are about `update`, Weather/Sizes, States, Loading and RoundTrip about the file.
--   Paths: the functions of src/common/file.cc on paths; Paths/Normal is about `normalize`.
--   Tab: File::TabReader of src/mud/filetab.cc, with Tab/Lines.
--   Names: EntityName of src/mud/name.cc and include/mud/name.h, with Names/Full.
-- The modules called Examples hold concrete runs.
--
-- Numbers. Fields of a machine type are natural numbers with the wrap-around of each assignment
-- written out; the counters of connections are integers, of which the total wraps at 32 bits and
-- that of one host is taken to stay within them. A failed assertion, a write behind
-- a buffer, a division by zero and a loop that runs out of fuel are `none`. The loops of `clipTime`
-- take as fuel one more than a measure of the state, which falls with each round; that of the
-- indentation takes the margin and one, that of `addToChunk` the length of the data, and the scan
-- of the input behind a newline one more than the bytes in it. A list of an object file takes one
-- more than the bytes left; the loops over the nodes of a file and of an object take any fuel, of
-- which more than the nodes that are left is enough; where a node is not taken, what is skipped
-- takes one more than the bytes left.
--
-- Not modelled: the build with HAVE_IPV6, the ports of addresses, files and sockets. `inet_pton`
-- is an argument, of which four bytes are assumed. Text is taken to hold no zero byte, but for the
-- buffers of Command and Telnet/Input and the requests of Zmp. The modes of a client, the calls of
-- commands, the rights of a caller and the lookup of what a command names are arguments, as are
-- the kind and the name of an object. Subnegotiations, the check of the timeout and `disconnect`
-- are left out, and so are the other events of the telnet library. The streams of object files are
-- open and take what is written; names of files, the log and the printing of nodes are left out,
-- and so is what a region of the weather holds after a load that failed. What random() gives is an
-- argument, and so are `fnmatch` and the colors of names; the functions of files that look at the
-- disk are left out.
pub mod Base
pub mod Clock
pub mod Net
pub mod Strings
pub mod Telnet
pub mod Base64
pub mod Command
pub mod Zmp
pub mod Equipment
pub mod ObjFile
pub mod Weather
pub mod Paths
pub mod Names
pub mod Tab
