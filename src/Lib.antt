-- ===== src/Lib.antt =====
-- A verification of shadNet, a server for the network services of a game console's emulator.
--
-- A client's bytes are cut into packets, a packet's command is dispatched behind the gates of signing
-- in, and a handler changes the state that all sessions share: the online clients, the rooms of
-- matchmaking, the score boards, the authorization codes.
--
-- - Wire: src/stream_extractor.h, the reader of payloads and the writers of packets.
-- - Session: the read loop, ProcessPacket and BuildNotification of src/client_session.cpp;
--   Session/Slots and Session/Presence are the matchmaking slots and the usage counts of SharedState
--   in src/client_session.h.
-- - SignIn: the flags of a session and the online clients: CmdLogin, RegisterOnline and CmdDelete of
--   src/cmd_account.cpp (SignIn/Login), CmdGetAuthorizationCode over the store of AuthCodes
--   (SignIn/Codes), CheckClientVersion, CmdSetClientVersion and CleanupOnDisconnect,
--   CheckMatching2Access (SignIn/Access) and DispatchCommand (SignIn/Dispatch; its place between
--   the bytes that arrive and the replies, SignIn/Dispatch/Packets) of
--   src/client_session.cpp. A step is an Account, an Online and the effects outside of them.
-- - ClientVersions: common/clientversions/clientversionsconfig.cpp, which SignIn evaluates.
-- - Worlds: the parser of common/worlds/worldsconfig.cpp.
-- - Scoreboards: common/scoreboards/scoreboardsconfig.cpp: the board ids, and the lines of the file
--   in Scoreboards/Parser.
-- - Matching: src/matching_types.h (Types, Room, Slots) and src/cmd_matching.cpp: Create, Join, Leave,
--   Kick, Settings, Messages, Listings, Search and Worlds, a file for each group of handlers. A handler
--   takes the environment, the server and the decoded request, `none` where decodeProto fails, and
--   gives an Outcome: the error, the server after it, the reply and the notifications.
-- - AuthCodes: src/auth_code_store.cpp.
-- - Score: src/score_cache.cpp; a board is Score/Table, all boards Score/Cache, the answers Score/Query.
--
-- A hash map is an association list, a word of flags the list of its bits, a QString of the
-- configuration files the list of its code units. Handlers run one at a time, under their locks.
-- The loop over the bits of a word has a round for each of its 64 bits. The read loop is on fuel, and a
-- round for each packet and one more are enough; the draws of a random code are on fuel, and a round
-- for each draw up to the first unused code is enough.
--
-- Parameters: the database's answers, the source of random codes, QRegularExpression, the character
-- tables of Qt beyond ASCII, the sizes of UTF-8 forms, fromLatin1, and the handlers where the
-- dispatch calls them.
--
-- Not modelled: the SQL of the databases, the HTTP servers and the Web API, TUS, TSS and trophies, which
-- are statements and routes for libraries; the configuration, the tools and the sample client.
pub mod Prelude
pub mod Wire
pub mod Score
pub mod ClientVersions
pub mod SignIn
pub mod Worlds
pub mod Scoreboards
pub mod Matching
pub mod AuthCodes
pub mod Session
